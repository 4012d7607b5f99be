-- ===== src/Vm/Lazy.antt =====
-- The loop of `basic`, from the highest entry down, against the evaluation from the lowest up.
use parallel_execution.Common.{
  ℕ, zero, suc, ◌+◌, ◌≡◌, ◌<◌, ◌≤◌, ◌^◌, refl, ◌∙◌, Option, none, some, arith, List, if◌then◌else◌,
  inl, inr, Bool-cases,
}
use mathlib.Core.Path.{subst}
use parallel_execution.Types.{ReadOrigin, mv_memory}
use parallel_execution.MvMemory.{MemoryEntry, MemoryValue, written, estimate, Tree, AccountBasic}
use parallel_execution.Vm.Types.{Saturating, u64_mod}
use parallel_execution.Vm.Descent.{
  Walk, start_walk, Walked, stopped, consistent, add_recipient, add_sender, visit, push_new,
  at_entry, walk, apply_additions,
}
use parallel_execution.Finalize.Entry.{apply_value}
use parallel_execution.Finalize.Exact.{
  value_of, value_at, InRange, ExactEntry, Exact, value_at-InRange,
}

-- What the walk has still to add to `v` to reach `target`.
abbrev pub Reaches : AccountBasic → AccountBasic → Walk → Type 0
Reaches target v w =
    (if w.positive_addition
      then target.balance ≡ v.balance + w.balance_addition
      else target.balance + w.balance_addition ≡ v.balance)
    × (target.nonce ≡ v.nonce + w.nonce_addition)

abbrev pub or_base : Option AccountBasic → AccountBasic → AccountBasic
or_base none base = base
or_base (some x) base = x

final_recipient :
    (u : Saturating) (x : ℕ) (w : Walk) → (add_recipient u x w).final_account ≡ w.final_account
unfolding add_recipient
final_recipient u x w = ground arith

final_sender :
    (u : Saturating) (x : ℕ) (w : Walk) → (add_sender u x w).final_account ≡ w.final_account
unfolding add_sender
final_sender u x w = ground arith

module _ (u : Saturating) (target : AccountBasic) (small : InRange target) where
  recipient-Reaches :
      (x : ℕ) (v : AccountBasic) (w : Walk)
      → v.balance + x < 2 ^ 256
      → Reaches target (apply_value u (MemoryValue.lazy_recipient x) v) w
      → Reaches target v (add_recipient u x w)
  unfolding apply_value add_recipient
  recipient-Reaches x v w e r = ground (
    arith,
    u.add_lem v.balance x,
    u.add_lem w.balance_addition x,
    u.abs_diff_lem w.balance_addition x,
  )

  sender-Reaches :
      (x : ℕ) (v : AccountBasic) (w : Walk)
      → InRange v
      → x ≤ v.balance
      → v.nonce + 1 < u64_mod
      → Reaches target (apply_value u (MemoryValue.lazy_sender x) v) w
      → Reaches target v (add_sender u x w)
  unfolding apply_value add_sender
  sender-Reaches x v w s e f r = ground (
    arith,
    u.sub_lem v.balance x,
    u.add_lem w.balance_addition x,
    u.abs_diff_lem w.balance_addition x,
  )

  module _ (base : AccountBasic) (w' : Walk) where
    abbrev Done : Type 0
    Done = Reaches target (or_base w'.final_account base) w'

    abbrev Next : AccountBasic → (Walk → Walked) → Type 0
    Next v k = (w : Walk) → k w ≡ stopped w' → w.final_account ≡ none → Reaches target v w → Done

    visit_reaches :
        (x : MemoryValue) (inc : ℕ) (w : Walk) (v : AccountBasic) (k : Walk → Walked)
        → visit u x w k ≡ stopped w'
        → w.final_account ≡ none
        → ExactEntry (some (written inc x)) v
        → InRange v
        → Reaches target (apply_value u x v) w
        → Next v k
        → Done
    unfolding apply_value
    visit_reaches (MemoryValue.basic x) inc w v k h f e s r next =
        let same : record w { final_account = some x } ≡ w' = cc in
        subst (λ z. Reaches target (or_base z.final_account base) z) same r
    visit_reaches (MemoryValue.lazy_recipient x) inc w v k h f e s r next =
        next (add_recipient u x w) h (final_recipient u x w ∙ f) (recipient-Reaches x v w e r)
    visit_reaches (MemoryValue.lazy_sender x) inc w v k h f e s r next =
        next (add_sender u x w) h (final_sender u x w ∙ f) (sender-Reaches x v w s e.0 e.1 r)
    visit_reaches (MemoryValue.code_hash c) inc w v k h f e s r next = absurd e
    visit_reaches (MemoryValue.stored x) inc w v k h f e s r next = absurd e
    visit_reaches MemoryValue.self_destructed inc w v k h f e s r next = absurd e

    entry_reaches :
        (prev : List ReadOrigin) (i : ℕ) (o : Option MemoryEntry) (w : Walk) (v : AccountBasic)
        (k : Walk → Walked)
        → at_entry u prev i o w k ≡ stopped w'
        → w.final_account ≡ none
        → ExactEntry o v
        → InRange v
        → Reaches target (value_of u o v) w
        → Next v k
        → Done
    entry_reaches prev i none w v k h f e s r next = next w h f r
    entry_reaches prev i (some estimate) w v k h f e s r next = absurd e
    entry_reaches prev i (some (written inc x)) w v k h f e s r next =
        let o = mv_memory (record { tx_idx = i; tx_incarnation = inc }) in
        elim (Bool-cases (consistent prev w.new_origins o)) [
          | inl c ↦ visit_reaches x inc (push_new u w o) v k (rw c at h) f e s r next
          | inr c ↦ absurd (let h' = rw c at h in cc)
        ]

    walk_reaches :
        (t : Tree) (prev : List ReadOrigin) (i : ℕ) (w : Walk)
        → walk u t prev i w ≡ stopped w'
        → w.final_account ≡ none
        → Exact u t base i
        → Reaches target (value_at u t base i) w
        → Done
    unfolding walk
    walk_reaches t prev zero w h f e r =
        let same : w ≡ w' = cc in
        let start : Reaches target (or_base w.final_account base) w = rw f r in
        subst (λ z. Reaches target (or_base z.final_account base) z) same start
    walk_reaches t prev (suc i) w h f (e, x) r =
        entry_reaches prev i (t i) w (value_at u t base i) (λ w''. walk u t prev i w'') h f x
          (value_at-InRange u t base i e) r (λ w'' h' f' r'. walk_reaches t prev i w'' h' f' e r')

-- Evaluated from the highest entry down, with the additions applied at the end, an account is what it
-- is when its entries are applied from the lowest up.
pub walk_value :
    (u : Saturating) (t : Tree) (base : AccountBasic) (prev : List ReadOrigin) (n : ℕ) (w : Walk)
    → walk u t prev n start_walk ≡ stopped w
    → Exact u t base n
    → apply_additions u w (or_base w.final_account base) ≡ value_at u t base n
unfolding apply_additions
walk_value u t base prev n w h e =
    let target = value_at u t base n in
    let r = value_at-InRange u t base n e in
    let (b, k) =
      walk_reaches u target r base w t prev n start_walk h refl e (omega arith, omega arith) in
    let v = or_base w.final_account base in
    ground (arith, u.add_lem v.balance w.balance_addition, u.sub_lem v.balance w.balance_addition)
