-- ===== src/Workers/Calls.antt =====
-- The effects of the scheduler calls that a thread makes with a task in hand.
use parallel_execution.Common.{
  ℕ, ◌+◌, ◌≡◌, ◌<◌, refl, ap, Bool, true, false, Option, arith, ◌==◌, indicator, count, total, [],
  ◌∷◌, ◌++◌, count-append, total-change, update, update_self, update_ne,
}
use parallel_execution.Types.{TxVersion, Task, executing, aborting, is_finished}
use parallel_execution.Scheduler.{
  Scheduler, push_dependent, try_validation_abort, finish_validation,
}
use parallel_execution.Workers.Tally.{Tallied-cell}
use parallel_execution.Workers.Effect.{Pc, looking, running, finishing, Effect, pc_of, waits}

-- One more entry in the list of `b` is one more that waits.
waits-push :
    (s : Scheduler) (i b k : ℕ)
    → b < s.block_size
    → total
        (λ j.
          count k (update s.transactions_dependents b (s.transactions_dependents b ++ i ∷ []) j))
        s.block_size
      ≡ waits s k + indicator (i == k)
waits-push s i b k lt = omega (
  arith,
  total-change
      (λ j. count k (update s.transactions_dependents b (s.transactions_dependents b ++ i ∷ []) j))
      (λ j. count k (s.transactions_dependents j)) s.block_size b
      (λ j ne. ap (count k) (update_ne s.transactions_dependents b _ j ne)) lt,
  ap (count k) (update_self s.transactions_dependents b (s.transactions_dependents b ++ i ∷ [])),
  count-append k (s.transactions_dependents b) (i ∷ []),
)

pub waits-drain :
    (s : Scheduler) (b k : ℕ)
    → b < s.block_size
    → total (λ j. count k (update s.transactions_dependents b [] j)) s.block_size
        + count k (s.transactions_dependents b)
      ≡ waits s k
waits-drain s b k lt = omega (
  arith,
  total-change (λ j. count k (update s.transactions_dependents b [] j))
      (λ j. count k (s.transactions_dependents j)) s.block_size b
      (λ j ne. ap (count k) (update_ne s.transactions_dependents b _ j ne)) lt,
  ap (count k) (update_self s.transactions_dependents b []),
)

module _ (E : Type 0) where
  abbrev From : Scheduler → Pc E → Scheduler × Bool → (Bool → Pc E) → Type 0
  From s p (t, b) f = Effect s p t (f b)

  abbrev Ends : Scheduler → Pc E → Scheduler × Option Task → Type 0
  Ends s p (t, o) = Effect s p t (pc_of o)

  pub try_validation_abort-Effect :
      (s : Scheduler) (v : TxVersion)
      → v.tx_idx < s.block_size
      → Effect {E = E} s
          (running (Task.validation v))
          (try_validation_abort s v).0
          (finishing v (try_validation_abort s v).1)
  unfolding try_validation_abort
  try_validation_abort-Effect s v lt = record {
    size = ground arith;
    flag = λ h. ground arith;
    exec = λ k. ground arith;
    wait = λ k. ground arith;
    keep = λ k h. ground arith;
    quiet = λ k h f. ground (arith, h);
    count = λ small c.
        Tallied-cell s ((try_validation_abort s v).0) v.tx_idx (ground arith) lt small
          (λ k ne. ground arith) (ground arith) (ground arith)
          (λ f. ground (arith, c.floor v.tx_idx)) c;
    fits = ground arith;
  }

  pub finish_validation-Effect :
      (s : Scheduler) (v : TxVersion) (a : Bool)
      → v.tx_idx < s.block_size
      → (a ≡ true → (s.transactions_status v.tx_idx).status ≡ aborting)
      → Ends s (finishing v a) (finish_validation s v a)
  unfolding finish_validation
  finish_validation-Effect s v true lt st =
      let e = st refl in
      record {
        size = ground arith;
        flag = λ h. ground arith;
        exec = λ k. ground arith;
        wait = λ k. ground arith;
        keep = λ k h. ground arith;
        quiet = λ k h f. ground (arith, h);
        count = λ small c.
            Tallied-cell s ((finish_validation s v true).0) v.tx_idx (ground arith) lt small
              (λ k ne. ground arith) (ground arith) (ground arith)
              (λ f. ground (arith, c.floor v.tx_idx)) c;
        fits = ground arith;
      }
  finish_validation-Effect s v false lt st = record {
    size = ground arith;
    flag = λ h. ground arith;
    exec = λ k. ground arith;
    wait = λ k. ground arith;
    keep = λ k h. ground arith;
    quiet = λ k h f. ground (arith, h);
    count = λ small c.
        Tallied-cell s ((finish_validation s v false).0) v.tx_idx (ground arith) lt small
          (λ k ne. ground arith) (ground arith) (ground arith)
          (λ f. ground (arith, c.floor v.tx_idx)) c;
    fits = ground arith;
  }

  pub push_dependent-Effect :
      (s : Scheduler) (v : TxVersion) (b : ℕ)
      → v.tx_idx < s.block_size
      → b < v.tx_idx
      → (s.transactions_status v.tx_idx).status ≡ executing
      → is_finished (s.transactions_status b).status ≡ false
      → Effect {E = E} s (running (Task.execution v)) (push_dependent s v.tx_idx b) looking
  unfolding push_dependent
  push_dependent-Effect s v b lt below st open_ = record {
    size = ground arith;
    flag = λ h. ground arith;
    exec = λ k. ground arith;
    wait = λ k. ground (arith, waits-push s v.tx_idx b k (omega arith));
    keep = λ k h. ground arith;
    quiet = λ k h f. ground (arith, h);
    count = λ small c.
        Tallied-cell s (push_dependent s v.tx_idx b) v.tx_idx (ground arith) lt small
          (λ k ne. ground arith) (ground arith) (ground arith)
          (λ f. ground (arith, c.floor v.tx_idx)) c;
    fits = ground arith;
  }
