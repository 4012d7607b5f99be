-- ===== src/Workers/Scenarios.antt =====
-- Runs of two worker threads, and the theorems at the states that they reach.
use parallel_execution.Common.{ℕ, ◌≡◌, ◌<◌, ◌≤◌, refl, inr, true, false, arith, ◌⊎◌, ◌+◌, count}
use parallel_execution.Types.{
  TxVersion, Task, executing, executed, validated, aborting, is_finished,
}
use parallel_execution.Flags.{bitwise}
use parallel_execution.Scheduler.{
  new, next_task_turn, add_dependency, finish_execution, finish_validation,
}
use parallel_execution.Workers.Effect.{running, finishing, waits, aborting_at}
use parallel_execution.Workers.Ownership.{revivers}
use parallel_execution.Workers.Completion.{finish_execution_unvalidated}
use parallel_execution.Workers.Safety.{
  execution_exclusive, execution_asserts, ready_asserts, executing_manned, aborting_owed,
  aborting_owed_once, next_task_stops,
}
use parallel_execution.Workers.{
  System, Step, Reach, start, later, init, turned, blocked, ends, checked,
}

abbrev Y : Type 0
Y = System (Unit {0})

abbrev first : ℕ → TxVersion
first i = record { tx_idx = i; tx_incarnation = 0 }

-- Two transactions: thread 0 takes the first, thread 1 the second.
abbrev one_busy : Y
one_busy = turned (init 2) 0 (next_task_turn (init {E = Unit {0}} 2).scheduler 0 2)

abbrev two_busy : Y
two_busy = turned one_busy 1 (next_task_turn one_busy.scheduler 1 2)

-- The second reads what the first is to write.
abbrev one_waits : Y
one_waits = blocked two_busy 1 (first 1) (add_dependency two_busy.scheduler 1 0)

two_busy_reached : Reach bitwise 2 2 two_busy
unfolding new next_task_turn
two_busy_reached =
    later (later start (Step.search_task 0 0 2 (omega arith) refl))
      (Step.search_task 1 1 2 (omega arith) refl)

one_waits_reached : Reach bitwise 2 2 one_waits
unfolding new next_task_turn
one_waits_reached =
    later two_busy_reached (Step.block 1 (first 1) 0 (omega arith) refl (omega arith))

-- One transaction, executed, validated, and no more to do.
abbrev alone : Y
alone = turned (init 1) 0 (next_task_turn (init {E = Unit {0}} 1).scheduler 0 1)

abbrev alone_executed : Y
alone_executed = ends alone 0 (finish_execution bitwise alone.scheduler (first 0) 0)

abbrev alone_checked : Y
alone_checked = checked alone_executed 0 (first 0) (alone_executed.scheduler, false)

abbrev alone_done : Y
alone_done = ends alone_checked 0 (finish_validation alone_checked.scheduler (first 0) false)

alone_done_reached : Reach bitwise 2 1 alone_done
unfolding new next_task_turn finish_execution finish_validation
alone_done_reached =
    later
      (later
        (later (later start (Step.search_task 0 0 1 (omega arith) refl))
          (Step.complete 0 (first 0) 0 (omega arith) refl))
        (Step.accept 0 (first 0) (omega arith) refl))
      (Step.conclude_validation 0 (first 0) false (omega arith) refl)

execution_exclusive_example : ◌≡◌ {A = ℕ} 1 1
unfolding new next_task_turn
execution_exclusive_example =
    execution_exclusive bitwise 2 2 two_busy 1 1 (first 1) (first 1) two_busy_reached (omega arith)
      (omega arith) refl refl refl

-- Transaction 0 is executed while transaction 1 waits for it.
execution_asserts_example :
    (0 < one_waits.scheduler.block_size)
    × ((one_waits.scheduler.transactions_status 0).status ≡ executing)
    × ((one_waits.scheduler.transactions_status 0).incarnation ≡ 0)
    × ((1 < one_waits.scheduler.block_size)
        ⊎ (count 1 (one_waits.scheduler.transactions_dependents 0) ≡ 0))
unfolding new next_task_turn add_dependency
execution_asserts_example =
    execution_asserts bitwise 2 2 one_waits 0 1 (first 0) one_waits_reached (omega arith) refl

ready_asserts_example : (one_waits.scheduler.transactions_status 1).status ≡ aborting
unfolding new next_task_turn add_dependency
ready_asserts_example =
    ready_asserts bitwise 2 2 one_waits 0 0 1 (first 0) one_waits_reached (omega arith)
      (inr (omega arith, omega arith))

executing_manned_example :
    (i : ℕ) × (v : TxVersion) × (i < 2)
    × (two_busy.pc i ≡ running (Task.execution v))
    × (v.tx_idx ≡ 1)
    × ((two_busy.scheduler.transactions_status 1).incarnation ≡ v.tx_incarnation)
unfolding new next_task_turn
executing_manned_example = executing_manned bitwise 2 2 two_busy 1 two_busy_reached refl refl

aborting_owed_example :
    ((i : ℕ) × (v : TxVersion) × (i < 2) × (one_waits.pc i ≡ finishing v true) × (v.tx_idx ≡ 1))
    ⊎ ((b : ℕ) × (b < one_waits.scheduler.block_size)
        × (0 < count 1 (one_waits.scheduler.transactions_dependents b))
        × (is_finished (one_waits.scheduler.transactions_status b).status ≡ false))
unfolding new next_task_turn add_dependency
aborting_owed_example = aborting_owed bitwise 2 2 one_waits 1 one_waits_reached refl

aborting_owed_once_example :
    revivers 2 one_waits 1 + waits one_waits.scheduler 1 ≡ aborting_at one_waits.scheduler 1
aborting_owed_once_example = aborting_owed_once bitwise 2 2 one_waits 1 one_waits_reached

next_task_stops_example :
    (alone_done.scheduler.min_validation_idx ≤ 0)
      × ((alone_done.scheduler.transactions_status 0).status ≡ validated)
    ⊎ (0 < alone_done.scheduler.min_validation_idx)
      × (is_finished (alone_done.scheduler.transactions_status 0).status ≡ false)
unfolding new next_task_turn finish_execution finish_validation
next_task_stops_example =
    next_task_stops bitwise 2 1 alone_done 1 1 0 alone_done.scheduler alone_done_reached
      (omega arith) refl refl (omega arith)

finish_execution_unvalidated_example :
    (((finish_execution bitwise alone.scheduler (first 0) 1).0.transactions_status 0).status
      ≡ executed)
    × ((finish_execution bitwise alone.scheduler (first 0) 1).0.num_validated ≡ 0)
    × ((finish_execution bitwise alone.scheduler (first 0) 1).0.min_validation_idx ≡ 0)
unfolding new next_task_turn
finish_execution_unvalidated_example =
    finish_execution_unvalidated bitwise alone.scheduler (first 0) 1
