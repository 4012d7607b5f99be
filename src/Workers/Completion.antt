-- ===== src/Workers/Completion.antt =====
-- What `finish_execution` leaves to validate.
use parallel_execution.Common.{◌≡◌, ap, ◌∙◌, min, ℕ}
use parallel_execution.Types.{TxVersion, executed, Bitflags}
use parallel_execution.Scheduler.{Scheduler, resume, finish_execution}
use parallel_execution.Workers.Finish.{resume-Resumed, drained, tail, tail-Settled}

-- Whatever the flags, `finish_execution` leaves the transaction `Executed`, so still to validate,
-- leaves the number of validated transactions, and lowers the least index to validate to it.
pub finish_execution_unvalidated :
    (bits : Bitflags) (s : Scheduler) (v : TxVersion) (flags : ℕ)
    → (((finish_execution bits s v flags).0.transactions_status v.tx_idx).status ≡ executed)
      × ((finish_execution bits s v flags).0.num_validated ≡ s.num_validated)
      × ((finish_execution bits s v flags).0.min_validation_idx ≡ min s.min_validation_idx v.tx_idx)
unfolding finish_execution tail
finish_execution_unvalidated bits s v flags =
    let ds = s.transactions_dependents v.tx_idx in
    let d = resume ds (drained s v.tx_idx) in
    let r = resume-Resumed ds (drained s v.tx_idx) in
    let t = tail-Settled bits d v flags in
    (t.done, t.number ∙ r.validations, t.lowest ∙ ap (λ z. min z v.tx_idx) r.lowest)
