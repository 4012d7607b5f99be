-- ===== src/Workers/Preservation.antt =====
-- Every step of the workers keeps the ownership of tasks.
use parallel_execution.Common.{
  ℕ, ◌≡◌, ◌<◌, refl, ap, Bool, true, false, Option, none, some, arith, count, total-zero, le-total,
  if_intro, update, ==_refl,
}
use parallel_execution.Types.{TxVersion, Task, executing, aborting, Bitflags}
use parallel_execution.Scheduler.{
  next_task_turn, push_dependent, add_dependency, finish_execution, try_validation_abort,
  finish_validation, abort, new,
}
use parallel_execution.Workers.Effect.{
  AbortReason, looking, running, finishing, reporting, exited, Fits, finished_at, holds, revives,
}
use parallel_execution.Workers.Turns.{next_task_turn-Effect}
use parallel_execution.Workers.Calls.{
  try_validation_abort-Effect, finish_validation-Effect, push_dependent-Effect,
}
use parallel_execution.Workers.Finish.{finish_execution-Effect}
use parallel_execution.Workers.{
  System, Step, Reach, init, move, ends, blocked, checked, retried, get_or_init,
}
use parallel_execution.Workers.Ownership.{
  Drops-none, move-Owned, unchanged, abort-Effect, Drops-next, turned-Owned, ends-Owned, Owned,
  Drops,
}

module _ {E : Type 0} where
  module _ (threads : ℕ) (y : System E) (i : ℕ) (v : TxVersion) (o : Owned threads y)
      (lt : i < threads) where
    module _ (at : y.pc i ≡ running (Task.execution v)) where
      Fits-execution : Fits {E = E} y.scheduler (running (Task.execution v))
      Fits-execution = rw at at (o.fitting i lt)

      is_running : (y.scheduler.transactions_status v.tx_idx).status ≡ executing
      is_running = ground (
        arith,
        le-total (λ j. holds v.tx_idx (y.pc j)) threads i lt,
        o.held v.tx_idx,
        ap (holds v.tx_idx) at,
        ==_refl v.tx_idx,
      )

      drop_report :
          {r : AbortReason E} → Drops (abort y.scheduler) (running (Task.execution v)) (reporting r)
      unfolding abort
      drop_report = record {
        less = λ k. omega arith;
        full = λ h k. ground arith;
        same = λ k. refl;
        fits = refl;
      }

      -- Leaving with the task in hand, once the scheduler is aborted.
      leave-Owned : y.scheduler.aborted ≡ true → Owned threads (move y i y.scheduler exited)
      leave-Owned h =
          move-Owned threads y i y.scheduler (y.pc i) exited o lt
            (unchanged y.scheduler (y.pc i) (o.fitting i lt))
            (rw at (record {
              less = λ k. omega arith;
              full = λ g k. ground arith;
              same = λ k. refl;
              fits = tt;
            }))

      retry-Owned :
          (r : Option (AbortReason E))
          → y.abort_reason ≡ r
          → Owned threads (move y i y.scheduler (retried r v))
      retry-Owned none h =
          move-Owned threads y i y.scheduler (y.pc i) (running (Task.execution v)) o lt
            (unchanged y.scheduler (y.pc i) (o.fitting i lt))
            (rw at
              (Drops-none y.scheduler y.scheduler _ _ (unchanged y.scheduler _ Fits-execution)))
      retry-Owned (some r) h = leave-Owned (o.reasoned r h)

      block-Owned :
          (b : ℕ)
          → b < v.tx_idx
          → Owned threads (blocked y i v (add_dependency y.scheduler v.tx_idx b))
      unfolding add_dependency
      block-Owned b below =
          if_intro (λ u. Owned threads (blocked y i v u)) (finished_at y.scheduler b)
            (λ _. retry-Owned y.abort_reason refl)
            (λ open_.
              move-Owned threads y i (push_dependent y.scheduler v.tx_idx b) looking _ o lt
                (rw at
                  (push_dependent-Effect E y.scheduler v b Fits-execution.0 below is_running open_))
                (Drops-next y _ y.abort_reason none o.reasoned tt))

      complete-Owned :
          (bits : Bitflags) (flags : ℕ)
          → Owned threads (ends y i (finish_execution bits y.scheduler v flags))
      complete-Owned bits flags =
          ends-Owned threads y i (finish_execution bits y.scheduler v flags) o lt (
            rw at (
              finish_execution-Effect E bits y.scheduler v flags Fits-execution.0 is_running (λ k.
                omega (
                  arith,
                  le-total (λ b. count k (y.scheduler.transactions_dependents b))
                      y.scheduler.block_size v.tx_idx Fits-execution.0,
                  o.owed k,
                ))))

      fail-Owned : (r : AbortReason E) → Owned threads (move y i (abort y.scheduler) (reporting r))
      fail-Owned r =
          move-Owned threads y i (abort y.scheduler) (y.pc i) (reporting r) o lt
            (abort-Effect y.scheduler (y.pc i) (o.fitting i lt)) (rw at drop_report)

    module _ (at : y.pc i ≡ running (Task.validation v)) where
      fits_validation : v.tx_idx < y.scheduler.block_size
      fits_validation = rw at at (o.fitting i lt)

      accept-Owned : Owned threads (move y i y.scheduler (finishing v false))
      accept-Owned =
          move-Owned threads y i y.scheduler (y.pc i) (finishing v false) o lt
            (unchanged y.scheduler (y.pc i) (o.fitting i lt))
            (rw at (record {
              less = λ k. omega arith;
              full = λ g k. omega arith;
              same = λ k. refl;
              fits = fits_validation;
            }))

      reject-Owned : Owned threads (checked y i v (try_validation_abort y.scheduler v))
      reject-Owned =
          let e = try_validation_abort-Effect E y.scheduler v fits_validation in
          move-Owned threads y i (try_validation_abort y.scheduler v).0
            (finishing v (try_validation_abort y.scheduler v).1) _ o lt (rw at e)
            (Drops-none y.scheduler _ _ _ e)

    module _ (a : Bool) (at : y.pc i ≡ finishing v a) where
      fits_finishing : v.tx_idx < y.scheduler.block_size
      fits_finishing = rw at at (o.fitting i lt)

      to_revive : a ≡ true → (y.scheduler.transactions_status v.tx_idx).status ≡ aborting
      to_revive h = ground (
        arith,
        le-total (λ j. revives v.tx_idx (y.pc j)) threads i lt,
        o.owed v.tx_idx,
        ap (revives v.tx_idx) at,
        ==_refl v.tx_idx,
      )

      conclude-Owned : Owned threads (ends y i (finish_validation y.scheduler v a))
      conclude-Owned =
          ends-Owned threads y i (finish_validation y.scheduler v a) o lt
            (rw at (finish_validation-Effect E y.scheduler v a fits_finishing to_revive))

  report-Owned :
      (threads : ℕ) (y : System E) (i : ℕ) (r : AbortReason E)
      → Owned threads y
      → i < threads
      → y.pc i ≡ reporting r
      → Owned threads
          (record y { abort_reason = get_or_init y.abort_reason r; pc = update y.pc i exited })
  report-Owned threads y i r o lt at =
      let stopped : y.scheduler.aborted ≡ true = rw at at (o.fitting i lt) in
      let m =
        move-Owned threads y i y.scheduler (reporting r) exited o lt
          (rw at (unchanged y.scheduler (reporting r) stopped))
          (record {
            less = λ k. omega arith;
            full = λ g k. omega arith;
            same = λ k. refl;
            fits = tt;
          }) in
      record {
        held = m.held;
        manned = m.manned;
        owed = m.owed;
        settled = m.settled;
        counted = m.counted;
        fitting = m.fitting;
        reasoned = λ x h. stopped;
      }

  pub Step-Owned :
      {bits : Bitflags} {threads : ℕ} {y z : System E}
      → Step bits threads y z
      → Owned threads y
      → Owned threads z
  Step-Owned {threads = threads} {y = y} (Step.search_task i a b lt at) o =
      turned-Owned threads y i (next_task_turn y.scheduler a b) o lt
        (rw at (next_task_turn-Effect E y.scheduler a b))
  Step-Owned {threads = threads} {y = y} (Step.block i v b lt at below) o =
      block-Owned threads y i v o lt at b below
  Step-Owned {threads = threads} {y = y} (Step.leave i v r lt at h) o =
      leave-Owned threads y i v o lt at (o.reasoned r h)
  Step-Owned {threads = threads} {y = y} (Step.fail i v r lt at) o =
      fail-Owned threads y i v o lt at r
  Step-Owned {threads = threads} {y = y} (Step.report i r lt at) o =
      report-Owned threads y i r o lt at
  Step-Owned {bits} {threads} {y} (Step.complete i v flags lt at) o =
      complete-Owned threads y i v o lt at bits flags
  Step-Owned {threads = threads} {y = y} (Step.accept i v lt at) o =
      accept-Owned threads y i v o lt at
  Step-Owned {threads = threads} {y = y} (Step.reject i v lt at) o =
      reject-Owned threads y i v o lt at
  Step-Owned {threads = threads} {y = y} (Step.conclude_validation i v a lt at) o =
      conclude-Owned threads y i v o lt a at

  init-Owned : (threads block_size : ℕ) → Owned {E = E} threads (init block_size)
  unfolding new
  init-Owned threads n = record {
    held = λ k. omega (arith, total-zero (λ i. 0) threads (λ i. refl));
    manned = λ h k. omega arith;
    owed = λ k.
        omega (arith, total-zero (λ i. 0) threads (λ i. refl), total-zero (λ i. 0) n (λ i. refl));
    settled = λ k h. cc;
    counted = λ small. record {
      tally = omega (arith, total-zero (λ i. 0) n (λ i. refl));
      floor = λ k h. cc;
    };
    fitting = λ i lt. tt;
    reasoned = λ r h. cc;
  }

  pub Reach-Owned :
      {bits : Bitflags} {threads block_size : ℕ} {y : System E}
      → Reach bits threads block_size y
      → Owned threads y
  Reach-Owned {threads = threads} {block_size = n} Reach.start = init-Owned threads n
  Reach-Owned (Reach.later r st) = Step-Owned st (Reach-Owned r)
