-- ===== src/Vm/RewardValue.antt =====
-- What a reward does to the write set, and to the balance that the writes give.
use parallel_execution.Common.{
  ℕ, ◌+◌, ◌^◌, ◌≡◌, ◌≢◌, ◌<◌, ◌≤◌, refl, sym, ap, ◌∙◌, false, Option, none, some, [], ◌∷◌, ◌==◌,
  ==_iff, ==_refl, if◌then◌else◌, arith, inl, inr, Bool-cases,
}
use mathlib.Core.Path.{subst}
use parallel_execution.MvMemory.{MemoryValue, AccountBasic, WriteSet, writes_to}
use parallel_execution.MvMemory.Record.{or_else, last_write, entry_of}
use parallel_execution.Vm.Types.{Saturating}
use parallel_execution.Vm.Rewards.{credit, with_value, with_write, apply_reward}
use parallel_execution.Finalize.Entry.{apply_value}
use parallel_execution.Finalize.Exact.{value_of}

-- No location is written to twice.
abbrev pub IsDistinct : WriteSet → Type 0
IsDistinct [] = Unit {0}
IsDistinct ((l, x) ∷ ws) = (writes_to l ws ≡ false) × IsDistinct ws

or_else-none : (o : Option MemoryValue) → or_else o none ≡ o
or_else-none none = refl
or_else-none (some x) = refl

none_written : (k : ℕ) (ws : WriteSet) → writes_to k ws ≡ false → last_write k ws ≡ none
none_written k [] h = refl
none_written k ((j, x) ∷ ws) h = elim (Bool-cases (j == k)) [
  | inl same ↦ absurd (ground arith)
  | inr other ↦ rw (other, none_written k ws (ground arith)) refl
]

last_write_here :
    (l : ℕ) (x : MemoryValue) (ws : WriteSet)
    → last_write l ws ≡ none
    → last_write l ((l, x) ∷ ws) ≡ some x
last_write_here l x ws h = rw (h, ==_refl l) refl

last_write_there :
    (k j : ℕ) (x : MemoryValue) (ws : WriteSet)
    → (j == k) ≡ false
    → last_write k ((j, x) ∷ ws) ≡ last_write k ws
last_write_there k j x ws h = rw h (or_else-none (last_write k ws))

module _ (u : Saturating) (l amount : ℕ) where
  abbrev pub credit_of : Option MemoryValue → Option MemoryValue
  credit_of none = some (MemoryValue.lazy_recipient amount)
  credit_of (some x) = credit u amount x

  -- What a reward leaves.
  abbrev Rewarded : WriteSet → WriteSet → Type 0
  Rewarded ws ws' =
      ((y : MemoryValue) × (last_write l ws' ≡ some y) × (credit_of (last_write l ws) ≡ some y))
      × ((k : ℕ) → k ≢ l → last_write k ws' ≡ last_write k ws)

  Rewarded-here :
      (x : MemoryValue) (ws ws' : WriteSet) (o : Option MemoryValue)
      → credit u amount x ≡ o
      → with_value u l ws o ≡ some ws'
      → last_write l ws ≡ none
      → Rewarded ((l, x) ∷ ws) ws'
  Rewarded-here x ws ws' none q h n = absurd cc
  Rewarded-here x ws ws' (some y) q h n =
      let same : (l, y) ∷ ws ≡ ws' = cc in
      (
        (y, rw (← same) (last_write_here l y ws n), ap credit_of (last_write_here l x ws n) ∙ q),
        λ k ne.
            let other : (l == k) ≡ false = ground arith in
            rw (← same) (last_write_there k l y ws other ∙ sym (last_write_there k l x ws other)),
      )

  Rewarded-there :
      (j : ℕ) (x : MemoryValue) (ws ws' : WriteSet) (o : Option WriteSet)
      → (j == l) ≡ false
      → with_write u (j, x) o ≡ some ws'
      → ((rest : WriteSet) → o ≡ some rest → Rewarded ws rest)
      → Rewarded ((j, x) ∷ ws) ws'
  Rewarded-there j x ws ws' none ne h next = absurd cc
  Rewarded-there j x ws ws' (some rest) ne h next =
      let same : (j, x) ∷ rest ≡ ws' = cc in
      let ((y, here, from), others) = next rest refl in
      (
        (
          y,
          rw (← same) (last_write_there l j x rest ne ∙ here),
          ap credit_of (last_write_there l j x ws ne) ∙ from,
        ),
        λ k other.
            rw (← same) (ap (λ o. or_else o (if j == k then some x else none)) (others k other)),
      )

  apply_reward-Rewarded :
      (ws ws' : WriteSet) → IsDistinct ws → apply_reward u l amount ws ≡ some ws' → Rewarded ws ws'
  unfolding apply_reward
  apply_reward-Rewarded [] ws' d h =
      let same : (l, MemoryValue.lazy_recipient amount) ∷ [] ≡ ws' = cc in
      (
        (
          MemoryValue.lazy_recipient amount,
          rw (← same) (last_write_here l (MemoryValue.lazy_recipient amount) [] refl),
          refl,
        ),
        λ k ne.
            let other : (l == k) ≡ false = ground arith in
            rw (← same) (last_write_there k l (MemoryValue.lazy_recipient amount) [] other),
      )
  apply_reward-Rewarded ((j, x) ∷ ws) ws' (new, d) h = elim (Bool-cases (j == l)) [
    | inl same ↦
        let e : j ≡ l = (==_iff j l).0 same in
        let h' = rw same at h in
        subst (λ z. Rewarded ((z, x) ∷ ws) ws') (sym e)
          (Rewarded-here x ws ws' (credit u amount x) refl
            (subst (λ z. with_value u z ws (credit u amount x) ≡ some ws') e h')
            (none_written l ws (subst (λ z. writes_to z ws ≡ false) e new)))
    | inr other ↦
        Rewarded-there j x ws ws' (apply_reward u l amount ws) other (rw other at h)
          (λ rest q. apply_reward-Rewarded ws rest d q)
  ]

  -- The reward fits: no balance passes 256 bits, and a sender has spent at least as much.
  abbrev pub Fits : Option MemoryValue → AccountBasic → Type 0
  Fits none v = v.balance + amount < 2 ^ 256
  Fits (some (MemoryValue.basic x)) v = x.balance + amount < 2 ^ 256
  Fits (some (MemoryValue.lazy_recipient x)) v = v.balance + x + amount < 2 ^ 256
  Fits (some (MemoryValue.lazy_sender x)) v = (amount ≤ x) × (x ≤ v.balance)
  Fits (some (MemoryValue.code_hash h)) v = Unit {0}
  Fits (some (MemoryValue.stored x)) v = Unit {0}
  Fits (some MemoryValue.self_destructed) v = Unit {0}

  -- `after` is `before` with the reward.
  abbrev pub Gains : AccountBasic → AccountBasic → Type 0
  Gains before after = (after.balance ≡ before.balance + amount) × (after.nonce ≡ before.nonce)

  credit-Gains :
      (o : Option MemoryValue) (y : MemoryValue) (inc : ℕ) (v : AccountBasic)
      → credit_of o ≡ some y
      → Fits o v
      → Gains (value_of u (entry_of inc o) v) (apply_value u y v)
  unfolding credit apply_value
  credit-Gains none y inc v q f =
      let same : MemoryValue.lazy_recipient amount ≡ y = cc in
      rw (← same) (omega (arith, u.add_lem v.balance amount), refl)
  credit-Gains (some (MemoryValue.basic x)) y inc v q f =
      let same : MemoryValue.basic (record x { balance = u.add x.balance amount }) ≡ y = cc in
      rw (← same) (omega (arith, u.add_lem x.balance amount), refl)
  credit-Gains (some (MemoryValue.lazy_recipient x)) y inc v q f =
      let same : MemoryValue.lazy_recipient (u.add x amount) ≡ y = cc in
      rw (← same) (
        omega (
          arith,
          u.add_lem v.balance x,
          u.add_lem v.balance (u.add x amount),
          u.add_lem x amount,
        ),
        refl,
      )
  credit-Gains (some (MemoryValue.lazy_sender x)) y inc v q f =
      let same : MemoryValue.lazy_sender (u.sub x amount) ≡ y = cc in
      rw (← same) (
        omega (
          arith,
          u.sub_lem v.balance x,
          u.sub_lem v.balance (u.sub x amount),
          u.sub_lem x amount,
        ),
        refl,
      )
  credit-Gains (some (MemoryValue.code_hash h)) y inc v q f = absurd cc
  credit-Gains (some (MemoryValue.stored x)) y inc v q f = absurd cc
  credit-Gains (some MemoryValue.self_destructed) y inc v q f = absurd cc

  -- A reward adds its amount to the balance that the write set gives the recipient, whatever
  -- the account was before, and leaves its nonce and the writes to all other locations. No
  -- location is written to twice, the new balance fits 256 bits, and if the recipient is a
  -- lazily updated sender, it spends at least the reward and can pay for it.
  pub apply_reward-Gains :
      (ws ws' : WriteSet) (inc : ℕ) (v : AccountBasic)
      → IsDistinct ws
      → apply_reward u l amount ws ≡ some ws'
      → Fits (last_write l ws) v
      → Gains
          (value_of u (entry_of inc (last_write l ws)) v)
          (value_of u (entry_of inc (last_write l ws')) v)
        × ((k : ℕ) → k ≢ l → last_write k ws' ≡ last_write k ws)
  apply_reward-Gains ws ws' inc v d h f =
      let ((y, here, from), others) = apply_reward-Rewarded ws ws' d h in
      (rw here (credit-Gains (last_write l ws) y inc v from f), others)
