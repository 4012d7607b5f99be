-- ===== src/Workers/Safety.antt =====
-- What holds in every state that the worker threads can reach.
use parallel_execution.Common.{
  ℕ, ◌+◌, ◌≡◌, ◌<◌, ◌≤◌, refl, ap, true, false, arith, ◌==◌, count, total-pos, total-two, le-total,
  inl, inr, Bool-cases, ◌⊎◌, ==_iff, ==_refl, ltb, ltb→lt, ◌-◌, usize_mod, total-full_from,
}
use parallel_execution.Types.{
  TxVersion, Task, executing, validated, aborting, Bitflags, is_finished,
}
use parallel_execution.Scheduler.{
  Scheduler, Turn, next_task_turn, prioritize_validation, prioritize_execution,
}
use parallel_execution.Workers.Effect.{
  Pc, looking, running, finishing, reporting, exited, aborting_at, validated_at, Tallied, waits,
  holds, revives,
}
use parallel_execution.Workers.Ownership.{revivers}
use parallel_execution.Workers.Preservation.{Reach-Owned}
use parallel_execution.Workers.Dependents.{Reach-Inside}
use parallel_execution.Workers.{System, Reach}

stops_enough :
    (s s' : Scheduler) (a b : ℕ)
    → s.aborted ≡ false
    → next_task_turn s a b ≡ Turn.stop s'
    → s.block_size - s.min_validation_idx ≤ s.num_validated
unfolding next_task_turn prioritize_validation prioritize_execution
stops_enough s s' a b live st = ground arith

below_floor : (s : Scheduler) (i : ℕ) → Tallied s → i < s.min_validation_idx → validated_at s i ≡ 0
below_floor s i c lt = ground (arith, c.floor i)

module _ {E : Type 0} where
  -- The pc of a thread that holds, or revives, a transaction.
  holds_inv :
      (k : ℕ) (p : Pc E)
      → 0 < holds k p
      → (v : TxVersion) × (p ≡ running (Task.execution v)) × (v.tx_idx ≡ k)
  holds_inv k (running (Task.execution v)) h = (v, refl, ground arith)
  holds_inv k (running (Task.validation v)) h = absurd (omega arith)
  holds_inv k looking h = absurd (omega arith)
  holds_inv k (finishing v a) h = absurd (omega arith)
  holds_inv k (reporting r) h = absurd (omega arith)
  holds_inv k exited h = absurd (omega arith)

  revives_inv :
      (k : ℕ) (p : Pc E)
      → 0 < revives k p
      → (v : TxVersion) × (p ≡ finishing v true) × (v.tx_idx ≡ k)
  revives_inv k (finishing v true) h = (v, refl, ground arith)
  revives_inv k (finishing v false) h = absurd (omega arith)
  revives_inv k (running t) h = absurd (omega arith)
  revives_inv k looking h = absurd (omega arith)
  revives_inv k (reporting r) h = absurd (omega arith)
  revives_inv k exited h = absurd (omega arith)

  -- Two threads never execute the same transaction: in every reachable state, two threads with an
  -- execution task of one transaction are the same thread.
  pub execution_exclusive :
      (bits : Bitflags) (threads block_size : ℕ) (y : System E) (i j : ℕ) (v w : TxVersion)
      → Reach bits threads block_size y
      → i < threads
      → j < threads
      → y.pc i ≡ running (Task.execution v)
      → y.pc j ≡ running (Task.execution w)
      → v.tx_idx ≡ w.tx_idx
      → i ≡ j
  execution_exclusive bits threads n y i j v w r il jl p q e = elim (Bool-cases (i == j)) [
    | inl same ↦ (==_iff i j).0 same
    | inr other ↦
        let o = Reach-Owned r in
        absurd (
          ground (
            arith,
            total-two (λ t. holds v.tx_idx (y.pc t)) threads i j il jl (ground arith),
            o.held v.tx_idx,
            ap (holds v.tx_idx) p,
            ap (holds v.tx_idx) q,
          ))
  ]

  -- In every reachable state, a thread that executes a transaction finds it in the block, with the
  -- status `Executing` and the incarnation of its task: the `debug_assert_eq!`s of `add_dependency`
  -- and `finish_execution` hold. Each of its dependents, whose cells `finish_execution` writes
  -- without a check of the index, is in the block, too.
  pub execution_asserts :
      (bits : Bitflags) (threads block_size : ℕ) (y : System E) (i d : ℕ) (v : TxVersion)
      → Reach bits threads block_size y
      → i < threads
      → y.pc i ≡ running (Task.execution v)
      → (v.tx_idx < y.scheduler.block_size)
        × ((y.scheduler.transactions_status v.tx_idx).status ≡ executing)
        × ((y.scheduler.transactions_status v.tx_idx).incarnation ≡ v.tx_incarnation)
        × ((d < y.scheduler.block_size)
            ⊎ (count d (y.scheduler.transactions_dependents v.tx_idx) ≡ 0))
  execution_asserts bits threads n y i d v r il at =
      let o = Reach-Owned r in
      let f : (v.tx_idx < y.scheduler.block_size)
          × ((y.scheduler.transactions_status v.tx_idx).incarnation ≡ v.tx_incarnation) =
        rw at at (o.fitting i il) in
      (
        f.0,
        ground (
          arith,
          le-total (λ t. holds v.tx_idx (y.pc t)) threads i il,
          o.held v.tx_idx,
          ap (holds v.tx_idx) at,
          ==_refl v.tx_idx,
        ),
        f.1,
        elim (Bool-cases (ltb 0 (count d (y.scheduler.transactions_dependents v.tx_idx)))) [
          | inl c ↦ inl (Reach-Inside r v.tx_idx d (ltb→lt _ _ c))
          | inr c ↦ inr (ground arith)
        ],
      )

  -- In every reachable state, each dependent of a transaction of the block is `Aborting`, and a
  -- thread that is about to finish a validation with `aborted` finds its transaction `Aborting`: the
  -- `debug_assert_eq!` of `set_ready_status` holds in both its callers.
  pub ready_asserts :
      (bits : Bitflags) (threads block_size : ℕ) (y : System E) (i b d : ℕ) (v : TxVersion)
      → Reach bits threads block_size y
      → i < threads
      → (y.pc i ≡ finishing v true) × (v.tx_idx ≡ d)
        ⊎ (b < y.scheduler.block_size) × (0 < count d (y.scheduler.transactions_dependents b))
      → (y.scheduler.transactions_status d).status ≡ aborting
  ready_asserts bits threads n y i b d v r il (inl (at, e)) = ground (
    arith,
    le-total (λ t. revives d (y.pc t)) threads i il,
    (Reach-Owned r).owed d,
    ap (revives d) at,
  )
  ready_asserts bits threads n y i b d v r il (inr (bl, c)) = ground (
    arith,
    le-total (λ j. count d (y.scheduler.transactions_dependents j)) y.scheduler.block_size b bl,
    (Reach-Owned r).owed d,
  )

  -- No executing transaction is lost: in every reachable state of a scheduler that is not aborted,
  -- a transaction with the status `Executing` is the task of some thread, at its incarnation.
  pub executing_manned :
      (bits : Bitflags) (threads block_size : ℕ) (y : System E) (k : ℕ)
      → Reach bits threads block_size y
      → y.scheduler.aborted ≡ false
      → (y.scheduler.transactions_status k).status ≡ executing
      → (i : ℕ) × (v : TxVersion) × (i < threads)
        × (y.pc i ≡ running (Task.execution v))
        × (v.tx_idx ≡ k)
        × ((y.scheduler.transactions_status k).incarnation ≡ v.tx_incarnation)
  executing_manned bits threads n y k r live st =
      let o = Reach-Owned r in
      let (i, il, p) =
        total-pos (λ t. holds k (y.pc t)) threads (ground (arith, o.manned live k)) in
      let (v, at, e) = holds_inv k (y.pc i) p in
      let f : (v.tx_idx < y.scheduler.block_size)
          × ((y.scheduler.transactions_status v.tx_idx).incarnation ≡ v.tx_incarnation) =
        rw at at (o.fitting i il) in
      (i, v, il, at, e, rw e at f.1)

  -- No aborting transaction is forgotten: in every reachable state, a transaction with the status
  -- `Aborting` is about to be made ready by a thread in `finish_validation`, or stands in the list
  -- of a transaction of the block that is itself neither executed nor validated.
  pub aborting_owed :
      (bits : Bitflags) (threads block_size : ℕ) (y : System E) (k : ℕ)
      → Reach bits threads block_size y
      → (y.scheduler.transactions_status k).status ≡ aborting
      → ((i : ℕ) × (v : TxVersion) × (i < threads) × (y.pc i ≡ finishing v true) × (v.tx_idx ≡ k))
        ⊎ ((b : ℕ) × (b < y.scheduler.block_size)
            × (0 < count k (y.scheduler.transactions_dependents b))
            × (is_finished (y.scheduler.transactions_status b).status ≡ false))
  aborting_owed bits threads n y k r st =
      let o = Reach-Owned r in
      elim (Bool-cases (ltb 0 (revivers threads y k))) [
        | inl e ↦
            let (i, il, p) = total-pos (λ t. revives k (y.pc t)) threads (ground arith) in
            let (v, at, q) = revives_inv k (y.pc i) p in inl (i, v, il, at, q)
        | inr e ↦
            let (b, bl, p) =
              total-pos (λ b. count k (y.scheduler.transactions_dependents b))
                y.scheduler.block_size (ground (arith, o.owed k)) in
            inr (b, bl, p, ground (arith, o.settled b))
      ]

  -- Nor is it resumed twice: the lists of dependents and the threads in `finish_validation` hold a
  -- transaction once if its status is `Aborting`, and not at all otherwise.
  pub aborting_owed_once :
      (bits : Bitflags) (threads block_size : ℕ) (y : System E) (k : ℕ)
      → Reach bits threads block_size y
      → revivers threads y k + waits y.scheduler k ≡ aborting_at y.scheduler k
  aborting_owed_once bits threads n y k r = (Reach-Owned r).owed k

  -- When a round of `next_task` ends the loop although the scheduler is not aborted, whatever it
  -- loaded of the two indices, every transaction of the block from the least index to validate on
  -- is validated, and none below it is executed or validated.
  pub next_task_stops :
      (bits : Bitflags) (threads block_size : ℕ) (y : System E) (a b k : ℕ) (s : Scheduler)
      → Reach bits threads block_size y
      → y.scheduler.block_size < usize_mod
      → y.scheduler.aborted ≡ false
      → next_task_turn y.scheduler a b ≡ Turn.stop s
      → k < y.scheduler.block_size
      → (y.scheduler.min_validation_idx ≤ k)
          × ((y.scheduler.transactions_status k).status ≡ validated)
        ⊎ (k < y.scheduler.min_validation_idx)
          × (is_finished (y.scheduler.transactions_status k).status ≡ false)
  next_task_stops bits threads n y a b k s r small live st lt =
      let c = (Reach-Owned r).counted small in
      let enough = stops_enough y.scheduler s a b live st in
      elim (Bool-cases (ltb k y.scheduler.min_validation_idx)) [
        | inl e ↦ inr (ltb→lt _ _ e, ground (arith, c.floor k))
        | inr e ↦
            let low : y.scheduler.min_validation_idx ≤ k = ground arith in
            let one =
              (total-full_from (validated_at y.scheduler) y.scheduler.block_size
                  y.scheduler.min_validation_idx (λ i. ground arith)
                  (λ i il. below_floor y.scheduler i c il)).1
                (omega (arith, c.tally)) k low lt in
            inl (low, ground arith)
      ]
