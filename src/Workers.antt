-- ===== src/Workers.antt =====
-- The worker threads of `Pexe::execute_revm_parallel` (crates/pevm/src/pexe.rs) around one scheduler.
-- A step is one round of `next_task`, or one call of another scheduler method; between two steps
-- any other thread may run. What the virtual machine answers is left open.
pub mod Effect
pub mod Tally
pub mod Turns
pub mod Calls
pub mod Finish
pub mod Completion
pub mod Ownership
pub mod Preservation
pub mod Dependents
pub mod Safety
mod Scenarios
use parallel_execution.Common.{
  ℕ, ◌≡◌, ◌<◌, Bool, true, false, Option, none, some, update, if◌then◌else◌,
}
use parallel_execution.Types.{TxVersion, Task, Bitflags}
use parallel_execution.Scheduler.{
  Scheduler, Turn, new, abort, next_task_turn, add_dependency, finish_execution,
  try_validation_abort, finish_validation,
}
use Effect.{AbortReason, Pc, pc_of}

pub record System (E : Type 0) : Type 0 where
  pub scheduler : Scheduler
  pub abort_reason : Option (AbortReason E)
  pub pc : ℕ → Pc E

module _ {E : Type 0} where
  -- The end of an iteration: leave if an abort reason is set, else go on with the task or ask again.
  abbrev pub next_pc : Option (AbortReason E) → Option Task → Pc E
  next_pc none o = pc_of o
  next_pc (some _) o = Pc.exited

  abbrev pub move : System E → ℕ → Scheduler → Pc E → System E
  move y i s p = record y { scheduler = s; pc = update y.pc i p }

  abbrev pub turned : System E → ℕ → Turn → System E
  turned y i (Turn.stop s) = move y i s Pc.exited
  turned y i (Turn.again s) = move y i s Pc.looking
  turned y i (Turn.hand_out s t) = move y i s (Pc.running t)

  abbrev pub ends : System E → ℕ → Scheduler × Option Task → System E
  ends y i (s, o) = move y i s (next_pc y.abort_reason o)

  abbrev pub retried : Option (AbortReason E) → TxVersion → Pc E
  retried none v = Pc.running (Task.execution v)
  retried (some _) v = Pc.exited

  -- `add_dependency` refused: retry, unless an abort reason is set.
  abbrev pub blocked : System E → ℕ → TxVersion → Scheduler × Bool → System E
  blocked y i v (s, true) = move y i s (next_pc y.abort_reason none)
  blocked y i v (s, false) = move y i s (retried y.abort_reason v)

  abbrev pub checked : System E → ℕ → TxVersion → Scheduler × Bool → System E
  checked y i v (s, a) = move y i s (Pc.finishing v a)

  -- `OnceLock::get_or_init`
  abbrev pub get_or_init : Option (AbortReason E) → AbortReason E → Option (AbortReason E)
  get_or_init none r = some r
  get_or_init (some r') r = some r'

  -- One step of thread `i` of `threads`. The virtual machine's answer, the outcome of the check of the
  -- read set, and what a round of `next_task` loaded are any that may be.
  pub data Step (bits : Bitflags) (threads : ℕ) (y : System E) : System E → Type 0 where
    search_task :
        (i execution_idx validation_idx : ℕ)
        → i < threads
        → y.pc i ≡ Pc.looking
        → Step bits threads y (turned y i (next_task_turn y.scheduler execution_idx validation_idx))
    -- `VmExecutionError::Blocking`: a lower transaction is to be waited for.
    block :
        (i : ℕ) (v : TxVersion) (blocking_tx_idx : ℕ)
        → i < threads
        → y.pc i ≡ Pc.running (Task.execution v)
        → blocking_tx_idx < v.tx_idx
        → Step bits threads y (blocked y i v (add_dependency y.scheduler v.tx_idx blocking_tx_idx))
    -- `VmExecutionError::Retry` when an abort reason is set; else the thread stays where it is.
    leave :
        (i : ℕ) (v : TxVersion) (r : AbortReason E)
        → i < threads
        → y.pc i ≡ Pc.running (Task.execution v)
        → y.abort_reason ≡ some r
        → Step bits threads y (move y i y.scheduler Pc.exited)
    -- `VmExecutionError::FallbackToSequential` or `ExecutionError`
    fail :
        (i : ℕ) (v : TxVersion) (r : AbortReason E)
        → i < threads
        → y.pc i ≡ Pc.running (Task.execution v)
        → Step bits threads y (move y i (abort y.scheduler) (Pc.reporting r))
    report :
        (i : ℕ) (r : AbortReason E)
        → i < threads
        → y.pc i ≡ Pc.reporting r
        → Step bits threads y
            (record y { abort_reason = get_or_init y.abort_reason r; pc = update y.pc i Pc.exited })
    complete :
        (i : ℕ) (v : TxVersion) (flags : ℕ)
        → i < threads
        → y.pc i ≡ Pc.running (Task.execution v)
        → Step bits threads y (ends y i (finish_execution bits y.scheduler v flags))
    -- `try_validate` up to the abort: the read set is valid, or it is not and an abort is tried.
    accept :
        (i : ℕ) (v : TxVersion)
        → i < threads
        → y.pc i ≡ Pc.running (Task.validation v)
        → Step bits threads y (checked y i v (y.scheduler, false))
    reject :
        (i : ℕ) (v : TxVersion)
        → i < threads
        → y.pc i ≡ Pc.running (Task.validation v)
        → Step bits threads y (checked y i v (try_validation_abort y.scheduler v))
    conclude_validation :
        (i : ℕ) (v : TxVersion) (a : Bool)
        → i < threads
        → y.pc i ≡ Pc.finishing v a
        → Step bits threads y (ends y i (finish_validation y.scheduler v a))

  abbrev pub init : ℕ → System E
  init block_size = record { scheduler = new block_size; abort_reason = none; pc = λ _. Pc.looking }

  pub data Reach (bits : Bitflags) (threads block_size : ℕ) : System E → Type 0 where
    start : Reach bits threads block_size (init block_size)
    later :
        {y z : System E}
        → Reach bits threads block_size y
        → Step bits threads y z
        → Reach bits threads block_size z
