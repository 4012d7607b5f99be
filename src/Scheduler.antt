-- ===== src/Scheduler.antt =====
-- The collaborative scheduler (crates/pevm/src/scheduler.rs). A vector of `Mutex` cells is a
-- function of the index: the code indexes it unchecked, and `Workers` shows that it stays below
-- `block_size`. Atomics are `usize` and wrap; `debug_assert_eq!` is not compiled in a release.
use parallel_execution.Common.{
  ℕ, suc, zero, ◌+◌, ◌-◌, ◌%◌, Bool, true, false, Option, none, some, List, [], ◌∷◌, ◌++◌, ltb, leb,
  ◌&&◌, if◌then◌else◌, min, update, usize_succ, usize_mod,
}
use parallel_execution.Types.{
  TxVersion, IncarnationStatus, ready_to_execute, executing, executed, validated, aborting,
  TxStatus, Task, is_finished, is_ready, is_executed, is_validated, Bitflags, need_validation,
  wrote_new_location,
}

pub record Scheduler : Type 0 where
  pub block_size : ℕ
  pub transactions_status : ℕ → TxStatus
  pub transactions_dependents : ℕ → List ℕ
  pub execution_idx : ℕ
  pub validation_idx : ℕ
  pub min_validation_idx : ℕ
  pub num_validated : ℕ
  pub aborted : Bool

unfoldable pub new : ℕ → Scheduler
new block_size = record {
  block_size = block_size;
  transactions_status = λ _. record { incarnation = 0; status = ready_to_execute };
  transactions_dependents = λ _. [];
  execution_idx = 0;
  validation_idx = block_size;
  min_validation_idx = block_size;
  num_validated = 0;
  aborted = false;
}

unfoldable pub abort : Scheduler → Scheduler
abort s = record s { aborted = true }

-- `tx.status = …` under the lock of one cell
unfoldable pub set_status : Scheduler → ℕ → IncarnationStatus → Scheduler
set_status s i st = record s {
  transactions_status =
      update s.transactions_status i
        (record { incarnation = (s.transactions_status i).incarnation; status = st });
}

-- The version that a task of transaction `i` carries.
unfoldable pub version_of : Scheduler → ℕ → TxVersion
version_of s i = record { tx_idx = i; tx_incarnation = (s.transactions_status i).incarnation }

unfoldable pub try_execute : Scheduler → ℕ → Scheduler × Option TxVersion
unfolding set_status version_of
try_execute s tx_idx =
    if ltb tx_idx s.block_size && is_ready (s.transactions_status tx_idx).status
    then (set_status s tx_idx executing, some (version_of s tx_idx))
    else (s, none)

-- One round of the loop of `next_task`: it ends the loop, starts another round, or returns a task.
pub data Turn : Type 0 where
  stop : Scheduler → Turn
  again : Scheduler → Turn
  hand_out : Scheduler → Task → Turn

-- The end of the round, `if let Some(tx_version) = self.try_execute(…)`
abbrev pub offer : Scheduler × Option TxVersion → Turn
offer (s, none) = again s
offer (s, some v) = hand_out s (Task.execution v)

unfoldable pub prioritize_execution : Scheduler → Turn
unfolding try_execute
prioritize_execution s =
    offer (try_execute (record s { execution_idx = usize_succ s.execution_idx }) s.execution_idx)

-- The validation branch of the round, at an index below the block size.
abbrev pub validate_at : Scheduler → ℕ → IncarnationStatus → Turn
validate_at s tx_idx ready_to_execute =
    hand_out (set_status s tx_idx executing) (Task.execution (version_of s tx_idx))
validate_at s tx_idx executing = prioritize_execution s
validate_at s tx_idx executed = hand_out s (Task.validation (version_of s tx_idx))
validate_at s tx_idx validated = hand_out s (Task.validation (version_of s tx_idx))
validate_at s tx_idx aborting = again s

unfoldable pub prioritize_validation : Scheduler → Turn
unfolding set_status version_of prioritize_execution
prioritize_validation s =
    let tx_idx = s.validation_idx in
    let s' = record s { validation_idx = usize_succ s.validation_idx } in
    if ltb tx_idx s.block_size
    then validate_at s' tx_idx (s'.transactions_status tx_idx).status
    else prioritize_execution s'

-- The round, given what it loaded of the two indices: another thread may have moved them since.
unfoldable pub next_task_turn : Scheduler → ℕ → ℕ → Turn
unfolding prioritize_validation
next_task_turn s execution_idx validation_idx =
    if s.aborted
    then stop s
    else if leb s.block_size execution_idx && leb s.block_size validation_idx
    then if leb (s.block_size - s.min_validation_idx) s.num_validated then stop s else again s
    else if ltb validation_idx execution_idx
    then prioritize_validation s
    else prioritize_execution s

-- The dependent is aborted and enters the list of the transaction that blocks it.
unfoldable pub push_dependent : Scheduler → ℕ → ℕ → Scheduler
unfolding set_status
push_dependent s tx_idx blocking_tx_idx =
    let s' = set_status s tx_idx aborting in
    let dependents = s'.transactions_dependents blocking_tx_idx in
    record s' {
      transactions_dependents =
          update s'.transactions_dependents blocking_tx_idx (dependents ++ tx_idx ∷ []);
    }

unfoldable pub add_dependency : Scheduler → ℕ → ℕ → Scheduler × Bool
unfolding push_dependent
add_dependency s tx_idx blocking_tx_idx =
    if is_finished (s.transactions_status blocking_tx_idx).status
    then (s, false)
    else (push_dependent s tx_idx blocking_tx_idx, true)

unfoldable pub set_ready_status : Scheduler → ℕ → Scheduler
set_ready_status s i = record s {
  transactions_status = update s.transactions_status i (record {
    incarnation = usize_succ (s.transactions_status i).incarnation;
    status = ready_to_execute;
  });
}

-- The body of the loop over the drained dependents, and the loop.
unfoldable pub resume_one : Scheduler → ℕ → Scheduler
unfolding set_ready_status
resume_one s tx_idx =
    let s' = set_ready_status s tx_idx in record s' { execution_idx = min s'.execution_idx tx_idx }

unfoldable pub resume : List ℕ → Scheduler → Scheduler
unfolding resume_one
resume [] s = s
resume (tx_idx ∷ rest) s = resume rest (resume_one s tx_idx)

abbrev pub lower_validation : Scheduler → ℕ → Scheduler
lower_validation s i = record s { validation_idx = min s.validation_idx i }

-- `tx.status = Validated` and the increment of `num_validated`
unfoldable pub mark_validated : Scheduler → ℕ → Scheduler
unfolding set_status
mark_validated s i = record (set_status s i validated) {
  num_validated = usize_succ s.num_validated;
}

module _ (bits : Bitflags) where
  open bits use {contains}

  -- The end of `finish_execution`, after the decision on the validation index.
  unfoldable pub settle : Scheduler → TxVersion → ℕ → Scheduler × Option Task
  unfolding mark_validated
  settle s v flags =
      if contains flags need_validation
      then (set_status s v.tx_idx executed, none)
      else (mark_validated s v.tx_idx, none)

  -- "Validate from this transaction as it's in between min and the current validation index."
  unfoldable pub settle_between : Scheduler → TxVersion → ℕ → Scheduler × Option Task
  unfolding settle
  settle_between s v flags =
      let s' =
        (if contains flags wrote_new_location then lower_validation s (v.tx_idx + 1) else s) in
      if contains flags need_validation
      then (set_status s' v.tx_idx executed, some (Task.validation v))
      else settle (mark_validated s' v.tx_idx) v flags

  -- From "Decide where to validate from next" on.
  unfoldable pub conclude : Scheduler → TxVersion → ℕ → Scheduler × Option Task
  unfolding settle_between
  conclude s v flags =
      if ltb s.min_validation_idx s.block_size
      then if ltb v.tx_idx s.min_validation_idx
        then settle
            (if contains flags wrote_new_location
              then lower_validation s s.min_validation_idx
              else s)
            v flags
        else if ltb v.tx_idx s.validation_idx
        then settle_between s v flags
        else settle s v flags
      else settle s v flags

  unfoldable pub note_min : Scheduler → ℕ → ℕ → Scheduler
  note_min s tx_idx flags =
      if contains flags need_validation
      then record s { min_validation_idx = min s.min_validation_idx tx_idx }
      else s

  unfoldable pub finish_execution : Scheduler → TxVersion → ℕ → Scheduler × Option Task
  unfolding resume note_min conclude
  finish_execution s v flags =
      let drained = record s {
        transactions_dependents = update s.transactions_dependents v.tx_idx [];
      } in
      conclude (note_min (resume (s.transactions_dependents v.tx_idx) drained) v.tx_idx flags) v
        flags

-- `fetch_sub` wraps below zero.
abbrev pub usize_pred : ℕ → ℕ
usize_pred a = (a + usize_mod - 1) % usize_mod

unfoldable pub try_validation_abort : Scheduler → TxVersion → Scheduler × Bool
unfolding set_status
try_validation_abort s v =
    let st = (s.transactions_status v.tx_idx).status in
    let s' =
      (if is_validated st then record s { num_validated = usize_pred s.num_validated } else s) in
    if is_finished st then (set_status s' v.tx_idx aborting, true) else (s', false)

abbrev pub as_execution : Scheduler × Option TxVersion → Scheduler × Option Task
as_execution (s, none) = (s, none)
as_execution (s, some v) = (s, some (Task.execution v))

unfoldable pub finish_validation : Scheduler → TxVersion → Bool → Scheduler × Option Task
unfolding set_ready_status try_execute mark_validated
finish_validation s v true =
    let s' = lower_validation (set_ready_status s v.tx_idx) (v.tx_idx + 1) in
    if ltb v.tx_idx s'.execution_idx then as_execution (try_execute s' v.tx_idx) else (s', none)
finish_validation s v false =
    if is_executed (s.transactions_status v.tx_idx).status
    then (mark_validated s v.tx_idx, none)
    else (s, none)

-- `next_task`, run alone: `none` means that the rounds ran out.
unfoldable pub next_task : ℕ → Scheduler → Option (Scheduler × Option Task)
unfolding next_task_turn
next_task zero s = none
next_task (suc rounds) s = elim (next_task_turn s s.execution_idx s.validation_idx) [
  | stop s' ↦ some (s', none)
  | again s' ↦ next_task rounds s'
  | hand_out s' t ↦ some (s', some t)
]
