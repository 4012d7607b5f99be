-- ===== src/Finalize/Entry.antt =====
-- The results of a block, its errors, and the evaluation of one entry of an account.
use Prim.Native.String.{String}
use parallel_execution.Common.{
  ℕ, zero, suc, ◌+◌, ◌-◌, ◌%◌, ◌^◌, Bool, true, false, not, Option, none, some, List, [], ◌∷◌, ◌==◌,
  if◌then◌else◌, ltb, min,
}
use parallel_execution.MvMemory.{MemoryEntry, MemoryValue, written, estimate, Tree, AccountBasic}
use parallel_execution.Vm.Types.{Saturating, TxEnv, Fetched, fetched, failed, u64_mod}

abbrev pub u64_max : ℕ
u64_max = 2 ^ 64 - 1

-- `EvmAccount` (crates/pevm/src/storage.rs)
pub record EvmAccount (Code : Type 0) : Type 0 where
  pub balance : ℕ
  pub nonce : ℕ
  pub code_hash : Option ℕ
  pub code : Option Code
  pub storage : ℕ → Option ℕ

-- `PexeTxExecutionResult` (crates/pevm/src/vm.rs); the receipt is its gas, and the state says of an
-- address nothing, that it is removed, or what it is.
pub record TxResult (Code : Type 0) : Type 0 where
  pub cumulative_gas_used : ℕ
  pub state : ℕ → Option (Option (EvmAccount Code))

-- `PexeError`, as far as this part returns it.
pub data PexeError : Type 0 where
  nonce_mismatch : (tx_idx tx_nonce executed_nonce : ℕ) → PexeError
  storage_error : String → PexeError
  lack_of_fund_for_max_fee : (balance fee : ℕ) → PexeError
  unreachable_error : PexeError
  execution_error : String → PexeError

-- A value, an error, or a panic.
pub data Outcome (A : Type 0) : Type 0 where
  ok : A → Outcome A
  err : PexeError → Outcome A
  panicked : Outcome A

infixl 5 ◌>>=◌
abbrev pub ◌>>=◌ : {A B : Type 0} → Outcome A → (A → Outcome B) → Outcome B
ok a >>= f = f a
err e >>= f = err e
panicked >>= f = panicked

-- `u64::saturating_add`
abbrev pub add_gas : ℕ → ℕ → ℕ
add_gas a b = min (a + b) u64_max

module _ {Code : Type 0} where
  abbrev pub push_result :
      TxResult Code → Outcome (List (TxResult Code)) → Outcome (List (TxResult Code))
  push_result r (ok rs) = ok (r ∷ rs)
  push_result r (err e) = err e
  push_result r panicked = panicked

  -- The loop over the results, from the gas so far; a missing result panics.
  unfoldable pub collect_results :
      ℕ → List (Option (TxResult Code)) → Outcome (List (TxResult Code))
  collect_results gas [] = ok []
  collect_results gas (none ∷ rs) = panicked
  collect_results gas (some r ∷ rs) =
      let gas' = add_gas gas r.cumulative_gas_used in
      push_result (record r { cumulative_gas_used = gas' }) (collect_results gas' rs)

-- The lowest entry below `bound`.
unfoldable pub first_entry : Tree → ℕ → Option MemoryEntry
first_entry t zero = none
first_entry t (suc i) = elim (first_entry t i) [ some e ↦ some e | none ↦ t i ]

abbrev pub is_absolute : Option MemoryEntry → Bool
is_absolute (some (written k (MemoryValue.basic x))) = true
is_absolute _ = false

abbrev pub zero_account : AccountBasic
zero_account = record { balance = 0; nonce = 0 }

abbrev pub stored_account : Fetched (Option AccountBasic) → AccountBasic
stored_account (fetched (some x)) = x
stored_account (fetched none) = zero_account
stored_account (failed s) = zero_account

-- "Read from storage if the first multi-version entry is not an absolute value."
unfoldable pub initial_account : Option MemoryEntry → Fetched (Option AccountBasic) → AccountBasic
initial_account e found = if is_absolute e then zero_account else stored_account found

abbrev pub from_fetched : {A : Type 0} → Fetched A → Outcome A
from_fetched (fetched a) = ok a
from_fetched (failed s) = err (storage_error s)

module _ (u : Saturating) where
  abbrev pub blob_fee : TxEnv → Option ℕ → ℕ → ℕ
  blob_fee tx none fee = fee
  blob_fee tx (some f) fee = u.add fee (u.mul tx.total_blob_gas f)

  unfoldable pub max_fee : TxEnv → ℕ
  max_fee tx =
      blob_fee tx tx.max_fee_per_blob_gas (u.add (u.mul tx.gas_limit tx.gas_price) tx.value)

  -- The account after one value.
  unfoldable pub apply_value : MemoryValue → AccountBasic → AccountBasic
  apply_value (MemoryValue.basic x) v = x
  apply_value (MemoryValue.lazy_recipient x) v = record v { balance = u.add v.balance x }
  apply_value (MemoryValue.lazy_sender x) v = record {
    balance = u.sub v.balance x;
    nonce = (v.nonce + 1) % u64_mod;
  }
  apply_value (MemoryValue.code_hash h) v = v
  apply_value (MemoryValue.stored x) v = v
  apply_value MemoryValue.self_destructed v = v

  -- The `match` on the entry of a transaction.
  unfoldable pub evaluate_entry : TxEnv → MemoryEntry → AccountBasic → Outcome AccountBasic
  unfolding max_fee apply_value
  evaluate_entry tx (written k (MemoryValue.basic x)) v = ok (apply_value (MemoryValue.basic x) v)
  evaluate_entry tx (written k (MemoryValue.lazy_recipient x)) v =
      ok (apply_value (MemoryValue.lazy_recipient x) v)
  evaluate_entry tx (written k (MemoryValue.lazy_sender x)) v =
      if ltb v.balance (max_fee tx)
      then err (lack_of_fund_for_max_fee v.balance (max_fee tx))
      else ok (apply_value (MemoryValue.lazy_sender x) v)
  evaluate_entry tx (written k (MemoryValue.code_hash h)) v = panicked
  evaluate_entry tx (written k (MemoryValue.stored x)) v = panicked
  evaluate_entry tx (written k MemoryValue.self_destructed) v = panicked
  evaluate_entry tx estimate v = panicked

  abbrev pub nonce_checked : ℕ → ℕ → AccountBasic → Outcome (Unit {0})
  nonce_checked i n v =
      if v.nonce == 0
      then err unreachable_error
      else if not (n == v.nonce - 1)
      then err (nonce_mismatch i n (v.nonce - 1))
      else ok tt

  abbrev pub check_sender : ℕ → Bool → Option ℕ → AccountBasic → Outcome (Unit {0})
  check_sender i true (some n) v = nonce_checked i n v
  check_sender i true none v = ok tt
  check_sender i false n v = ok tt

  -- "Assert that evaluated nonce is correct when address is caller."
  unfoldable pub check_nonce : ℕ → TxEnv → ℕ → AccountBasic → Outcome (Unit {0})
  check_nonce i tx address v = check_sender i (tx.caller == address) tx.nonce v
