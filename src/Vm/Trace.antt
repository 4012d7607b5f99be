-- ===== src/Vm/Trace.antt =====
-- The origins that the loop of `basic` collects.
use mathlib.Core.Path.{subst}
use mathlib.Core.List.{append_assoc, append-nil}
use parallel_execution.Common.{
  ℕ, zero, suc, ◌+◌, ◌≡◌, refl, ap, sym, ◌∙◌, Option, none, some, arith, List, [], ◌∷◌, ◌++◌, inl,
  inr, Bool-cases, ◌==◌, ==_iff,
}
use parallel_execution.Types.{TxVersion, ReadOrigin, mv_memory, storage}
use parallel_execution.MvMemory.{MemoryEntry, MemoryValue, written, estimate, Tree, AccountBasic}
use parallel_execution.MvMemory.Origins.{Nothing, Rereads}
use parallel_execution.MvMemory.Validation.{IsChain}
use parallel_execution.Vm.Types.{Saturating}
use parallel_execution.Vm.Descent.{
  Walk, start_walk, Walked, stopped, consistent, add_recipient, add_sender, visit, push_new,
  at_entry, walk,
}

-- The origins with the storage behind them, unless an absolute value was found.
abbrev pub in_full : Option AccountBasic → List ReadOrigin → List ReadOrigin
in_full (some x) os = os
in_full none os = os ++ storage ∷ []

Nothing-step : (t : Tree) (low b : ℕ) → t b ≡ none → Nothing t low b → Nothing t low (suc b)
Nothing-step t low b q gap j lo hi = elim (Bool-cases (j == b)) [
  | inl same ↦ rw ((==_iff j b).0 same) q
  | inr other ↦ gap j lo (ground arith)
]

-- A transaction without an entry is passed over.
Rereads-step :
    (t : Tree) (b : ℕ) (os : List ReadOrigin) → t b ≡ none → Rereads t b os → Rereads t (suc b) os
Rereads-step t b [] q r = tt
Rereads-step t b (mv_memory v ∷ os) q (lt, at, gap, more) =
    (omega arith, at, Nothing-step t (v.tx_idx + 1) b q gap, more)
Rereads-step t b (storage ∷ os) q (gap, more) = (Nothing-step t 0 b q gap, more)

-- A list that is empty or a chain.
abbrev pub IsTail : List ReadOrigin → Type 0
IsTail [] = Unit {0}
IsTail (o ∷ os) = IsChain (o ∷ os)

IsChain-cons : (v : TxVersion) (os : List ReadOrigin) → IsTail os → IsChain (mv_memory v ∷ os)
IsChain-cons v [] c = tt
IsChain-cons v (o ∷ os) c = c

IsChain-IsTail : (os : List ReadOrigin) → IsChain os → IsTail os
IsChain-IsTail [] c = tt
IsChain-IsTail (o ∷ os) c = c

in_full-IsChain :
    (v : TxVersion) (f : Option AccountBasic) (os : List ReadOrigin)
    → IsChain (in_full f os)
    → IsChain (in_full f (mv_memory v ∷ os))
in_full-IsChain v (some x) os c = IsChain-cons v os (IsChain-IsTail os c)
in_full-IsChain v none os c =
    IsChain-cons v (os ++ storage ∷ []) (IsChain-IsTail (os ++ storage ∷ []) c)

in_full-Rereads :
    (t : Tree) (b inc : ℕ) (x : MemoryValue) (f : Option AccountBasic) (os : List ReadOrigin)
    → t b ≡ some (written inc x)
    → Rereads t b (in_full f os)
    → Rereads t (suc b) (in_full f (mv_memory (record { tx_idx = b; tx_incarnation = inc }) ∷ os))
in_full-Rereads t b inc x (some y) os q r =
    (omega arith, (x, q), λ j lo hi. absurd (omega arith), r)
in_full-Rereads t b inc x none os q r = (omega arith, (x, q), λ j lo hi. absurd (omega arith), r)

recipient_keeps :
    (u : Saturating) (x : ℕ) (w : Walk)
    → ((add_recipient u x w).final_account ≡ w.final_account)
      × ((add_recipient u x w).new_origins ≡ w.new_origins)
unfolding add_recipient
recipient_keeps u x w = ground arith

sender_keeps :
    (u : Saturating) (x : ℕ) (w : Walk)
    → ((add_sender u x w).final_account ≡ w.final_account)
      × ((add_sender u x w).new_origins ≡ w.new_origins)
unfolding add_sender
sender_keeps u x w = ground arith

module _ (u : Saturating) (t : Tree) (w' : Walk) where
  -- What is collected from a state on, below `bound`.
  abbrev Collects : ℕ → List ReadOrigin → Type 0
  Collects b start =
      (os : List ReadOrigin) × (w'.new_origins ≡ start ++ os)
      × IsChain (in_full w'.final_account os)
      × Rereads t b (in_full w'.final_account os)

  -- One version more, with the rest behind it.
  Collects-cons :
      (b inc : ℕ) (x : MemoryValue) (start : List ReadOrigin)
      → t b ≡ some (written inc x)
      → Collects b (start ++ mv_memory (record { tx_idx = b; tx_incarnation = inc }) ∷ [])
      → Collects (suc b) start
  Collects-cons b inc x start q (os, e, c, r) =
      let o : ReadOrigin = mv_memory (record { tx_idx = b; tx_incarnation = inc }) in
      (
        o ∷ os,
        e ∙ append_assoc start (o ∷ []) os,
        in_full-IsChain (record { tx_idx = b; tx_incarnation = inc }) w'.final_account os c,
        in_full-Rereads t b inc x w'.final_account os q r,
      )

  abbrev Rest : ℕ → (Walk → Walked) → Type 0
  Rest b k = (w : Walk) → k w ≡ stopped w' → w.final_account ≡ none → Collects b w.new_origins

  visit-Collects :
      (b inc : ℕ) (x : MemoryValue) (w : Walk) (k : Walk → Walked)
      → t b ≡ some (written inc x)
      → visit u x (push_new u w (mv_memory (record { tx_idx = b; tx_incarnation = inc }))) k
        ≡ stopped w'
      → w.final_account ≡ none
      → Rest b k
      → Collects (suc b) w.new_origins
  visit-Collects b inc (MemoryValue.basic x) w k q h f next =
      let o : ReadOrigin = mv_memory (record { tx_idx = b; tx_incarnation = inc }) in
      let w1 = record (push_new u w o) { final_account = some x } in
      let same : w1 ≡ w' = cc in
      let final : some x ≡ w'.final_account = ap (λ z. z.final_account) same in
      (
        o ∷ [],
        sym (ap (λ z. z.new_origins) same),
        subst (λ z. IsChain (in_full z (o ∷ []))) final tt,
        subst (λ z. Rereads t (suc b) (in_full z (o ∷ []))) final
            (omega arith, (MemoryValue.basic x, q), λ j lo hi. absurd (omega arith), tt),
      )
  visit-Collects b inc (MemoryValue.lazy_recipient x) w k q h f next =
      let w1 = push_new u w (mv_memory (record { tx_idx = b; tx_incarnation = inc })) in
      let (fin, new) = recipient_keeps u x w1 in
      Collects-cons b inc _ w.new_origins q
        (subst (Collects b) new (next (add_recipient u x w1) h (fin ∙ f)))
  visit-Collects b inc (MemoryValue.lazy_sender x) w k q h f next =
      let w1 = push_new u w (mv_memory (record { tx_idx = b; tx_incarnation = inc })) in
      let (fin, new) = sender_keeps u x w1 in
      Collects-cons b inc _ w.new_origins q
        (subst (Collects b) new (next (add_sender u x w1) h (fin ∙ f)))
  visit-Collects b inc (MemoryValue.code_hash c) w k q h f next = absurd cc
  visit-Collects b inc (MemoryValue.stored x) w k q h f next = absurd cc
  visit-Collects b inc MemoryValue.self_destructed w k q h f next = absurd cc

  entry-Collects :
      (prev : List ReadOrigin) (b : ℕ) (o : Option MemoryEntry) (w : Walk) (k : Walk → Walked)
      → t b ≡ o
      → at_entry u prev b o w k ≡ stopped w'
      → w.final_account ≡ none
      → Rest b k
      → Collects (suc b) w.new_origins
  entry-Collects prev b none w k q h f next =
      let (os, e, c, r) = next w h f in
      (os, e, c, Rereads-step t b (in_full w'.final_account os) q r)
  entry-Collects prev b (some estimate) w k q h f next = absurd cc
  entry-Collects prev b (some (written inc x)) w k q h f next =
      let o : ReadOrigin = mv_memory (record { tx_idx = b; tx_incarnation = inc }) in
      elim (Bool-cases (consistent prev w.new_origins o)) [
        | inl c ↦ visit-Collects b inc x w k q (rw c at h) f next
        | inr c ↦ absurd (let h' = rw c at h in cc)
      ]

  walk-Collects :
      (prev : List ReadOrigin) (b : ℕ) (w : Walk)
      → walk u t prev b w ≡ stopped w'
      → w.final_account ≡ none
      → Collects b w.new_origins
  unfolding walk
  walk-Collects prev zero w h f =
      let same : w ≡ w' = cc in
      let final : none ≡ w'.final_account = sym f ∙ ap (λ z. z.final_account) same in
      (
        [],
        sym (ap (λ z. z.new_origins) same) ∙ sym (append-nil w.new_origins),
        subst (λ z. IsChain (in_full z [])) final tt,
        subst (λ z. Rereads t 0 (in_full z [])) final (λ j lo hi. absurd (omega arith), tt),
      )
  walk-Collects prev (suc b) w h f =
      entry-Collects prev b (t b) w (λ w''. walk u t prev b w'') refl h f
        (λ w'' h' f'. walk-Collects prev b w'' h' f')

-- The origins that a read of an account collects, with the storage behind them if no absolute
-- value was found, are versions followed perhaps by the storage, and they are what reading the
-- location again finds.
pub walk_trace :
    (u : Saturating) (t : Tree) (prev : List ReadOrigin) (b : ℕ) (w : Walk)
    → walk u t prev b start_walk ≡ stopped w
    → IsChain (in_full w.final_account w.new_origins)
      × Rereads t b (in_full w.final_account w.new_origins)
walk_trace u t prev b w h =
    let (os, e, c, r) = walk-Collects u t w prev b start_walk h refl in
    (
      subst (λ z. IsChain (in_full w.final_account z)) (sym e) c,
      subst (λ z. Rereads t b (in_full w.final_account z)) (sym e) r,
    )
