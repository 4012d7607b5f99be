-- ===== src/Vm/Descent.antt =====
-- The loop of `Database::basic`: the lazy updates of an account, evaluated from the highest entry down.
use parallel_execution.Common.{
  ℕ, zero, suc, ◌+◌, ◌%◌, Bool, true, false, not, Option, none, some, List, [], ◌∷◌, ◌++◌, ◌==◌,
  ◌&&◌, ◌||◌, if◌then◌else◌, leb, length, get_elem?,
}
use parallel_execution.Types.{ReadOrigin, mv_memory}
use parallel_execution.MvMemory.{MemoryEntry, MemoryValue, written, estimate, Tree, AccountBasic}
use parallel_execution.Vm.Types.{ReadError, Saturating, u64_mod}
use parallel_execution.Vm.Reads.{origin_eq}

-- The variables of the loop.
pub record Walk : Type 0 where
  pub new_origins : List ReadOrigin
  pub final_account : Option AccountBasic
  pub balance_addition : ℕ
  pub positive_addition : Bool
  pub nonce_addition : ℕ

abbrev pub start_walk : Walk
start_walk = record {
  new_origins = [];
  final_account = none;
  balance_addition = 0;
  positive_addition = true;
  nonce_addition = 0;
}

pub data Walked : Type 0 where
  stopped : Walk → Walked
  refused : ReadError → Walked

abbrev pub is_empty : List ReadOrigin → Bool
is_empty [] = true
is_empty (o ∷ os) = false

abbrev pub same_origin : Option ReadOrigin → ReadOrigin → Bool
same_origin none o = false
same_origin (some p) o = origin_eq p o

-- "Inconsistent: new origin will be longer than the previous!", or "is different from the previous!"
abbrev pub consistent : List ReadOrigin → List ReadOrigin → ReadOrigin → Bool
consistent prev new_origins o =
    is_empty prev
    || (not (length prev == length new_origins)
        && same_origin (get_elem? prev (length new_origins)) o)

module _ (u : Saturating) where
  unfoldable pub add_recipient : ℕ → Walk → Walk
  add_recipient x w =
      if w.positive_addition
      then record w { balance_addition = u.add w.balance_addition x }
      else record w {
        positive_addition = leb w.balance_addition x;
        balance_addition = u.abs_diff w.balance_addition x;
      }

  unfoldable pub add_sender : ℕ → Walk → Walk
  add_sender x w =
      let w' = record w { nonce_addition = (w.nonce_addition + 1) % u64_mod } in
      if w.positive_addition
      then record w' {
        positive_addition = leb x w.balance_addition;
        balance_addition = u.abs_diff w.balance_addition x;
      }
      else record w' { balance_addition = u.add w.balance_addition x }

  -- The `match` on the value; `k` is the next round.
  abbrev pub visit : MemoryValue → Walk → (Walk → Walked) → Walked
  visit (MemoryValue.basic x) w k = stopped (record w { final_account = some x })
  visit (MemoryValue.lazy_recipient x) w k = k (add_recipient x w)
  visit (MemoryValue.lazy_sender x) w k = k (add_sender x w)
  visit (MemoryValue.code_hash h) w k = refused ReadError.invalid_memory_value_type
  visit (MemoryValue.stored x) w k = refused ReadError.invalid_memory_value_type
  visit MemoryValue.self_destructed w k = refused ReadError.invalid_memory_value_type

  abbrev pub push_new : Walk → ReadOrigin → Walk
  push_new w o = record w { new_origins = w.new_origins ++ o ∷ [] }

  abbrev pub at_entry : List ReadOrigin → ℕ → Option MemoryEntry → Walk → (Walk → Walked) → Walked
  at_entry prev i none w k = k w
  at_entry prev i (some estimate) w k = refused (ReadError.blocking i)
  at_entry prev i (some (written inc x)) w k =
      let o = mv_memory (record { tx_idx = i; tx_incarnation = inc }) in
      if consistent prev w.new_origins o
      then visit x (push_new w o) k
      else refused ReadError.inconsistent_read

  -- "Fully evaluate lazy updates": the entries below `bound`, the highest first.
  unfoldable pub walk : Tree → List ReadOrigin → ℕ → Walk → Walked
  unfolding add_recipient add_sender
  walk t prev zero w = stopped w
  walk t prev (suc i) w = at_entry prev i (t i) w (λ w'. walk t prev i w')

  -- The account with the additions, "Fully evaluate the account".
  unfoldable pub apply_additions : Walk → AccountBasic → AccountBasic
  apply_additions w x = record {
    balance =
        if w.positive_addition
        then u.add x.balance w.balance_addition
        else u.sub x.balance w.balance_addition;
    nonce = (x.nonce + w.nonce_addition) % u64_mod;
  }
