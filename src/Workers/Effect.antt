-- ===== src/Workers/Effect.antt =====
-- Where a worker stands, and what one call may do to the scheduler's account of its transactions.
use parallel_execution.Common.{
  ℕ, ◌+◌, ◌≡◌, ◌<◌, Bool, true, false, Option, none, some, [], ◌==◌, indicator, count, total, ◌≤◌,
  usize_mod,
}
use parallel_execution.Types.{
  TxVersion, Task, execution, validation, is_executing, is_aborting, is_finished, is_validated,
}
use parallel_execution.Scheduler.{Scheduler, Turn}

-- `AbortReason`; the payload is the EVM's error.
pub data AbortReason (E : Type 0) : Type 0 where
  fallback_to_sequential : AbortReason E
  execution_error : E → AbortReason E

-- Where a thread stands: in `next_task`, at the start of a task, between the check of a validation
-- (with its outcome `aborted`) and `finish_validation`, between `scheduler.abort()` and the write of
-- the reason, or out of the loop.
pub data Pc (E : Type 0) : Type 0 where
  looking : Pc E
  running : Task → Pc E
  finishing : TxVersion → Bool → Pc E
  reporting : AbortReason E → Pc E
  exited : Pc E

-- Whether transaction `k` is executing, or aborting.
abbrev pub executing_at : Scheduler → ℕ → ℕ
executing_at s k = indicator (is_executing (s.transactions_status k).status)

abbrev pub aborting_at : Scheduler → ℕ → ℕ
aborting_at s k = indicator (is_aborting (s.transactions_status k).status)

abbrev pub finished_at : Scheduler → ℕ → Bool
finished_at s k = is_finished (s.transactions_status k).status

-- How often `k` stands in the lists of dependents.
abbrev pub waits : Scheduler → ℕ → ℕ
waits s k = total (λ b. count k (s.transactions_dependents b)) s.block_size

abbrev pub validated_at : Scheduler → ℕ → ℕ
validated_at s k = indicator (is_validated (s.transactions_status k).status)

-- How many transactions of the block are validated.
abbrev pub validations : Scheduler → ℕ
validations s = total (validated_at s) s.block_size

-- The counter of validated transactions is right, and nothing below the least index to validate has
-- finished.
pub record Tallied (s : Scheduler) : Type 0 where
  pub tally : s.num_validated ≡ validations s
  pub floor : (k : ℕ) → finished_at s k ≡ true → s.min_validation_idx ≤ k

module _ {E : Type 0} where
  abbrev pub pc_of : Option Task → Pc E
  pc_of none = looking
  pc_of (some t) = running t

  abbrev pub pc_of_turn : Turn → Pc E
  pc_of_turn (Turn.stop _) = exited
  pc_of_turn (Turn.again _) = looking
  pc_of_turn (Turn.hand_out _ t) = running t

  -- Whether the thread executes transaction `k`.
  abbrev pub holds : ℕ → Pc E → ℕ
  holds k (running (execution v)) = indicator (v.tx_idx == k)
  holds k (running (validation _)) = 0
  holds k looking = 0
  holds k (finishing _ _) = 0
  holds k (reporting _) = 0
  holds k exited = 0

  -- Whether the thread has aborted `k` and is about to make it ready again.
  abbrev pub revives : ℕ → Pc E → ℕ
  revives k (finishing v true) = indicator (v.tx_idx == k)
  revives k (finishing v false) = 0
  revives k (running _) = 0
  revives k looking = 0
  revives k (reporting _) = 0
  revives k exited = 0

  -- The thread's task is of a transaction of the block, an execution of the present incarnation; a
  -- reason is reported only once the scheduler is aborted.
  abbrev pub Fits : Scheduler → Pc E → Type 0
  Fits s (running (execution v)) =
      (v.tx_idx < s.block_size) × ((s.transactions_status v.tx_idx).incarnation ≡ v.tx_incarnation)
  Fits s (running (validation v)) = v.tx_idx < s.block_size
  Fits s (finishing v _) = v.tx_idx < s.block_size
  Fits s looking = Unit {0}
  Fits s (reporting _) = s.aborted ≡ true
  Fits s exited = Unit {0}

  -- A call that takes the scheduler from `s` to `t` while its thread goes from `p` to `q`.
  pub record Effect (s : Scheduler) (p : Pc E) (t : Scheduler) (q : Pc E) : Type 0 where
    pub size : t.block_size ≡ s.block_size
    pub flag : s.aborted ≡ true → t.aborted ≡ true
    -- What it makes executing is its thread's to execute, and the other way round.
    pub exec : (k : ℕ) → holds k p + executing_at t k ≡ holds k q + executing_at s k
    -- What it leaves aborting is in a list or in its thread's hands.
    pub wait :
        (k : ℕ)
        → revives k q + waits t k + aborting_at s k ≡ revives k p + waits s k + aborting_at t k
    -- Only an aborted transaction gets a new incarnation.
    pub keep :
        (k : ℕ)
        → aborting_at s k ≡ 0
        → (t.transactions_status k).incarnation ≡ (s.transactions_status k).incarnation
    -- Nothing waits for a finished transaction.
    pub quiet :
        (k : ℕ)
        → (finished_at s k ≡ true → s.transactions_dependents k ≡ [])
        → finished_at t k ≡ true
        → t.transactions_dependents k ≡ []
    pub count : s.block_size < usize_mod → Tallied s → Tallied t
    pub fits : Fits t q
