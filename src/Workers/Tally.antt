-- ===== src/Workers/Tally.antt =====
-- The counter of validated transactions over a call that changes one cell.
use parallel_execution.Common.{
  ℕ, ◌+◌, ◌≡◌, ◌≢◌, ◌<◌, ◌≤◌, ap, ◌⊎◌, inl, inr, true, arith, total-change, total-full, indicator,
  usize_mod, usize_succ, Bool-cases, ◌==◌, ==_iff,
}
use parallel_execution.Types.{TxStatus, is_validated}
use parallel_execution.Scheduler.{Scheduler, usize_pred}
use parallel_execution.Workers.Effect.{Tallied, validations, validated_at, finished_at}

-- What the counter does, beside what the cell does.
abbrev pub Counts : Scheduler → Scheduler → ℕ → Type 0
Counts s t i =
    ((validated_at t i ≡ validated_at s i) × (t.num_validated ≡ s.num_validated))
    ⊎ ((validated_at s i ≡ 0)
        × (validated_at t i ≡ 1)
        × (t.num_validated ≡ usize_succ s.num_validated))
    ⊎ ((validated_at s i ≡ 1)
        × (validated_at t i ≡ 0)
        × (t.num_validated ≡ usize_pred s.num_validated))

module _ (s t : Scheduler) (i : ℕ) (size : t.block_size ≡ s.block_size) (lt : i < s.block_size)
    (small : s.block_size < usize_mod)
    (others : (k : ℕ) → k ≢ i → t.transactions_status k ≡ s.transactions_status k) where
  validations-change : validations t + validated_at s i ≡ validations s + validated_at t i
  validations-change = rw size (
      total-change (validated_at t) (validated_at s) s.block_size i
        (λ k ne. ap (λ (c : TxStatus). indicator (is_validated c.status)) (others k ne)) lt)

  validated-le-one : (u : Scheduler) (k : ℕ) → validated_at u k ≤ 1
  validated-le-one u k = ground arith

  validations_bounds : (validations t ≤ s.block_size) × (validations s ≤ s.block_size)
  validations_bounds = (
    rw size (total-full (validated_at t) s.block_size (validated-le-one t)).0,
    (total-full (validated_at s) s.block_size (validated-le-one s)).0,
  )

  pub Tallied-cell :
      Counts s t i
      → t.min_validation_idx ≤ s.min_validation_idx
      → (finished_at t i ≡ true → t.min_validation_idx ≤ i)
      → Tallied s
      → Tallied t
  Tallied-cell counts low own c = record {
    tally = count_lem counts;
    floor = λ k f. elim (Bool-cases (k == i)) [
      | inl e ↦ let same : k ≡ i = (==_iff k i).0 e in rw same (own (rw same at f))
      | inr e ↦
          let kept = others k (ground arith) in
          let f' : finished_at s k ≡ true = ground arith in omega (arith, c.floor k f')
    ];
  }
    where
      count_lem : Counts s t i → t.num_validated ≡ validations t
      count_lem (inl (a, b)) = omega (arith, validations-change, c.tally)
      count_lem (inr (inl (a, b, e))) =
          omega (arith, validations-change, c.tally, validations_bounds)
      count_lem (inr (inr (a, b, e))) =
          omega (arith, validations-change, c.tally, validations_bounds)
