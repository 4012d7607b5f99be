-- ===== src/Vm/Execute.antt =====
-- `Vm::execute`. The EVM is of a third-party crate: what its `transact` returns is a parameter, with the
-- database as its reads left it.
use Prim.Native.Nat.{bit_or}
use parallel_execution.Common.{
  ℕ, ◌-◌, Bool, true, false, not, Option, none, some, List, [], ◌∷◌, ◌&&◌, ◌||◌, if◌then◌else◌, ltb,
  update,
}
use parallel_execution.Types.{TxVersion, need_validation, wrote_new_location, no_flags}
use parallel_execution.MvMemory.{MvMemory, WriteSet, record_sets}
use parallel_execution.Vm.Types.{
  Vm, VmDb, TxEnv, TxKind, call, create, ReadError, EvmError, VmExecutionError, from_read_error,
  Read, ok, err,
}
use parallel_execution.Vm.Reads.{new}
use parallel_execution.Vm.WriteSet.{Account, write_set_of, deploy}
use parallel_execution.Vm.Rewards.{L1, rewards, apply_each}
use parallel_execution.Finalize.Entry.{EvmAccount, TxResult}

-- `ResultAndState`, as far as it is read.
pub record ResultAndState (Bytecode : Type 0) : Type 0 where
  pub gas_used : ℕ
  pub state : List (ℕ × Account Bytecode)

pub data Transacted (E Bytecode : Type 0) : Type 0 where
  succeeded : ResultAndState Bytecode → VmDb → Transacted E Bytecode
  failed : EvmError E → Transacted E Bytecode

-- What the workers share and an execution may change: the memory, the block's new codes and its lazy
-- addresses.
pub record Shared (Bytecode : Type 0) : Type 0 where
  pub memory : MvMemory
  pub new_bytecodes : ℕ → Option Bytecode
  pub is_lazy_address : ℕ → Bool

-- `VmExecutionResult`
pub record VmExecutionResult (Code : Type 0) : Type 0 where
  pub execution_result : TxResult Code
  pub flags : ℕ

pub data Executed (E Code : Type 0) : Type 0 where
  done : VmExecutionResult Code → Executed E Code
  stopped : VmExecutionError E → Executed E Code
  panicked : Executed E Code

module _ {Code Bytecode : Type 0} (from_bytecode : Bytecode → Code) where
  abbrev pub code_of : Account Bytecode → Option Bytecode → Option (EvmAccount Code)
  code_of a none = none
  code_of a (some b) = some (record {
    balance = a.balance;
    nonce = a.nonce;
    code_hash = some a.code_hash;
    code = some (from_bytecode b);
    storage = a.storage;
  })

  -- `From<Account> for EvmAccount`; `none` is a panic.
  unfoldable pub from_account : Account Bytecode → Option (EvmAccount Code)
  from_account a =
      if a.is_empty_code_hash
      then some (record {
        balance = a.balance;
        nonce = a.nonce;
        code_hash = none;
        code = none;
        storage = a.storage;
      })
      else code_of a a.code

  abbrev pub put :
      ℕ
      → Option (Option (EvmAccount Code))
      → Option (ℕ → Option (Option (EvmAccount Code)))
      → Option (ℕ → Option (Option (EvmAccount Code)))
  put address (some a) (some rest) = some (update rest address (some a))
  put address (some a) none = none
  put address none rest = none

  abbrev pub kept : Option (EvmAccount Code) → Option (Option (EvmAccount Code))
  kept none = none
  kept (some a) = some (some a)

  -- The state of `PexeTxExecutionResult::from_revm`; `none` is a panic.
  unfoldable pub transitions :
      Bool → List (ℕ × Account Bytecode) → Option (ℕ → Option (Option (EvmAccount Code)))
  unfolding from_account
  transitions eip_161 [] = some (λ address. none)
  transitions eip_161 ((address, a) ∷ state) =
      let rest = transitions eip_161 state in
      if not a.is_touched
      then rest
      else if a.is_selfdestructed || (a.is_empty && eip_161)
      then put address (some none) rest
      else put address (kept (from_account a)) rest

-- `MvMemory::add_lazy_addresses`
unfoldable pub add_lazy_addresses : List ℕ → (ℕ → Bool) → ℕ → Bool
add_lazy_addresses [] lazy = lazy
add_lazy_addresses (a ∷ addresses) lazy = add_lazy_addresses addresses (update lazy a true)

-- `if db.is_lazy { … }`, whose `unwrap` panics on a transaction that creates a contract.
abbrev pub with_lazy : Bool → ℕ → TxKind → (ℕ → Bool) → Option (ℕ → Bool)
with_lazy false caller k lazy = some lazy
with_lazy true caller (call to) lazy = some (add_lazy_addresses (caller ∷ to ∷ []) lazy)
with_lazy true caller create lazy = none

-- "Optimistically retry", unless there is no lower transaction.
abbrev pub retried : {E : Type 0} → ℕ → EvmError E → VmExecutionError E
retried i e =
    if ltb 0 i then VmExecutionError.blocking (i - 1) else VmExecutionError.execution_error e

-- The last two arms of the `match` on the EVM's result.
unfoldable pub from_evm_error : {E : Type 0} → ℕ → EvmError E → VmExecutionError E
unfolding from_read_error
from_evm_error i (EvmError.database e) = from_read_error e
from_evm_error i EvmError.lack_of_fund_for_max_fee = retried i EvmError.lack_of_fund_for_max_fee
from_evm_error i EvmError.nonce_too_high = retried i EvmError.nonce_too_high
from_evm_error i (EvmError.other e) = VmExecutionError.execution_error (EvmError.other e)

abbrev pub first_flags : ℕ → Bool → ℕ
first_flags i is_lazy = if ltb 0 i && not is_lazy then need_validation else no_flags

abbrev pub with_new : Bool → ℕ → ℕ
with_new new flags = if new then bit_or flags wrote_new_location else flags

-- `Vm::execute`. Other workers change what is shared while the EVM runs: `vm` is as `VmDb::new` finds
-- it, `transact` reads whatever is there at each read, and `current` is what the execution finds when
-- the EVM has returned; what it does from there on is one step.
module _ {E Code Bytecode : Type 0} (vm : Vm Code Bytecode) (from_bytecode : Bytecode → Code)
    (current : Shared Bytecode) (v : TxVersion) (tx : TxEnv) where
  abbrev pub finished_with :
      ResultAndState Bytecode → ℕ → Option (ℕ → Option (Option (EvmAccount Code))) → Executed E Code
  finished_with r flags none = panicked
  finished_with r flags (some state) = done (record {
    execution_result = record { cumulative_gas_used = r.gas_used; state = state };
    flags = flags;
  })

  -- Recording the sets, and the result.
  unfoldable pub record_execution :
      ResultAndState Bytecode
      → VmDb
      → WriteSet
      → Shared Bytecode
      → Executed E Code × Shared Bytecode
  record_execution r db ws shared =
      let (memory, new) = record_sets shared.memory v db.read_set ws in
      let flags = with_new new (first_flags v.tx_idx db.is_lazy) in
      (
        finished_with r flags (transitions from_bytecode vm.is_eip_161_enabled r.state),
        record shared { memory = memory },
      )

  abbrev pub after_lazy :
      ResultAndState Bytecode
      → VmDb
      → WriteSet
      → Shared Bytecode
      → Option (ℕ → Bool)
      → Executed E Code × Shared Bytecode
  after_lazy r db ws shared none = (panicked, shared)
  after_lazy r db ws shared (some lazy) =
      record_execution r db ws (record shared { is_lazy_address = lazy })

  abbrev pub after_rewards :
      ResultAndState Bytecode
      → VmDb
      → Shared Bytecode
      → Option WriteSet
      → Executed E Code × Shared Bytecode
  after_rewards r db shared none =
      (stopped (from_read_error ReadError.invalid_memory_value_type), shared)
  after_rewards r db shared (some ws) =
      after_lazy r db ws shared
        (with_lazy db.is_lazy tx.caller tx.transact_to shared.is_lazy_address)

  abbrev pub reward :
      ResultAndState Bytecode
      → VmDb
      → Shared Bytecode
      → Option (List (ℕ × ℕ))
      → Executed E Code × Shared Bytecode
  reward r db shared none = (panicked, shared)
  reward r db shared (some rs) =
      after_rewards r db shared (apply_each vm.uint rs (write_set_of vm db r.state))

  abbrev pub after_deploy :
      L1
      → ResultAndState Bytecode
      → VmDb
      → Option (ℕ → Option Bytecode)
      → Executed E Code × Shared Bytecode
  after_deploy l1 r db none = (panicked, current)
  after_deploy l1 r db (some codes) =
      reward r db (record current { new_bytecodes = codes }) (rewards vm tx l1 r.gas_used)

  -- The arms of the `match` on the EVM's result.
  abbrev pub finish_transact : L1 → Transacted E Bytecode → Executed E Code × Shared Bytecode
  finish_transact l1 (failed e) = (stopped (from_evm_error v.tx_idx e), current)
  finish_transact l1 (succeeded r db) =
      after_deploy l1 r db (deploy vm db r.state current.new_bytecodes)

  abbrev pub after_new :
      L1 → (VmDb → Transacted E Bytecode) → Read (Unit {0}) → Executed E Code × Shared Bytecode
  after_new l1 transact (err e) = (stopped (from_read_error e), current)
  after_new l1 transact (ok _ db) = finish_transact l1 (transact db)

  unfoldable pub execute : L1 → (VmDb → Transacted E Bytecode) → Executed E Code × Shared Bytecode
  unfolding record_execution
  execute l1 transact = after_new l1 transact (new vm v.tx_idx tx)
