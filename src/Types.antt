-- ===== src/Types.antt =====
-- The data that the components exchange (crates/pevm/src/lib.rs): versions, statuses, tasks, read
-- origins, and the flags of a finished execution.
use parallel_execution.Common.{ℕ, ◌≡◌, ◌↔◌, Bool, true}
use Prim.Native.Nat.{bit_and}

-- `TxVersion`; `TxIdx` and `TxIncarnation` are `usize`.
pub record TxVersion : Type 0 where
  pub tx_idx : ℕ
  pub tx_incarnation : ℕ

-- `IncarnationStatus`
pub data IncarnationStatus : Type 0 where
  ready_to_execute executing executed validated aborting : IncarnationStatus

-- `TxStatus`
pub record TxStatus : Type 0 where
  pub incarnation : ℕ
  pub status : IncarnationStatus

-- `Task`
pub data Task : Type 0 where
  execution : TxVersion → Task
  validation : TxVersion → Task

-- `ReadOrigin`
pub data ReadOrigin : Type 0 where
  mv_memory : TxVersion → ReadOrigin
  storage : ReadOrigin

-- `matches!(status, Executed | Validated)`
abbrev pub is_finished : IncarnationStatus → Bool
is_finished IncarnationStatus.executed = Bool.true
is_finished IncarnationStatus.validated = Bool.true
is_finished _ = Bool.false

abbrev pub is_ready : IncarnationStatus → Bool
is_ready IncarnationStatus.ready_to_execute = Bool.true
is_ready _ = Bool.false

abbrev pub is_executing : IncarnationStatus → Bool
is_executing IncarnationStatus.executing = Bool.true
is_executing _ = Bool.false

abbrev pub is_executed : IncarnationStatus → Bool
is_executed IncarnationStatus.executed = Bool.true
is_executed _ = Bool.false

abbrev pub is_validated : IncarnationStatus → Bool
is_validated IncarnationStatus.validated = Bool.true
is_validated _ = Bool.false

abbrev pub is_aborting : IncarnationStatus → Bool
is_aborting IncarnationStatus.aborting = Bool.true
is_aborting _ = Bool.false

-- The `contains` that the `bitflags!` macro generates: a third-party crate, so a parameter with its
-- documented meaning, that each bit of the second set of flags is set in the first.
pub record Bitflags : Type 0 where
  pub contains : ℕ → ℕ → Bool
  pub contains_iff :
      (flags other : ℕ) → (contains flags other ≡ true) ↔ (bit_and flags other ≡ other)

-- The constants of `FinishExecFlags`, and `FinishExecFlags::empty()`.
abbrev pub need_validation : ℕ
need_validation = 0

abbrev pub wrote_new_location : ℕ
wrote_new_location = 1

abbrev pub no_flags : ℕ
no_flags = 0
