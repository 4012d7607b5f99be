-- ===== src/Vm/Types.antt =====
-- What the adapter works with. An address, a 256-bit number and a 256-bit hash are numbers; the code of
-- an account and the EVM's errors are types of third-party crates.
use Prim.Native.String.{String}
use parallel_execution.Common.{ℕ, ◌+◌, ◌-◌, ◌*◌, ◌^◌, ◌≡◌, Bool, Option, min}
use parallel_execution.MvMemory.{AccountBasic, MvMemory, ReadSet}

abbrev pub u256_max : ℕ
u256_max = 2 ^ 256 - 1

abbrev pub u64_mod : ℕ
u64_mod = 2 ^ 64

-- The saturating operators of `U256`, of a third-party crate, as documented.
pub record Saturating : Type 0 where
  pub add : ℕ → ℕ → ℕ
  pub sub : ℕ → ℕ → ℕ
  pub mul : ℕ → ℕ → ℕ
  pub abs_diff : ℕ → ℕ → ℕ
  pub add_lem : (a b : ℕ) → add a b ≡ min (a + b) u256_max
  pub sub_lem : (a b : ℕ) → sub a b ≡ a - b
  pub mul_lem : (a b : ℕ) → mul a b ≡ min (a * b) u256_max
  pub abs_diff_lem : (a b : ℕ) → abs_diff a b ≡ (a - b) + (b - a)

-- `MemoryLocation`
pub data MemoryLocation : Type 0 where
  basic : (address : ℕ) → MemoryLocation
  code_hash : (address : ℕ) → MemoryLocation
  storage : (address index : ℕ) → MemoryLocation

pub data TxKind : Type 0 where
  call : (to : ℕ) → TxKind
  create : TxKind

-- The fields of revm's `TxEnv` that the code reads.
pub record TxEnv : Type 0 where
  pub caller : ℕ
  pub gas_limit : ℕ
  pub gas_price : ℕ
  pub gas_priority_fee : Option ℕ
  pub transact_to : TxKind
  pub value : ℕ
  pub nonce : Option ℕ
  pub max_fee_per_blob_gas : Option ℕ
  pub total_blob_gas : ℕ

-- `ReadError`
pub data ReadError : Type 0 where
  storage_error : String → ReadError
  blocking : (tx_idx : ℕ) → ReadError
  inconsistent_read : ReadError
  invalid_nonce : (tx_idx : ℕ) → ReadError
  self_destructed_account : ReadError
  invalid_bytecode : ReadError
  invalid_memory_value_type : ReadError

-- revm's `EVMError`, with the two transaction errors that the code tells apart.
pub data EvmError (E : Type 0) : Type 0 where
  database : ReadError → EvmError E
  lack_of_fund_for_max_fee nonce_too_high : EvmError E
  other : E → EvmError E

-- `VmExecutionError`
pub data VmExecutionError (E : Type 0) : Type 0 where
  retry fallback_to_sequential : VmExecutionError E
  blocking : (tx_idx : ℕ) → VmExecutionError E
  execution_error : EvmError E → VmExecutionError E

-- `From<ReadError>`
unfoldable pub from_read_error : {E : Type 0} → ReadError → VmExecutionError E
from_read_error ReadError.inconsistent_read = VmExecutionError.retry
from_read_error ReadError.self_destructed_account = VmExecutionError.fallback_to_sequential
from_read_error (ReadError.blocking i) = VmExecutionError.blocking i
from_read_error (ReadError.storage_error s) =
    VmExecutionError.execution_error (EvmError.database (ReadError.storage_error s))
from_read_error (ReadError.invalid_nonce i) =
    VmExecutionError.execution_error (EvmError.database (ReadError.invalid_nonce i))
from_read_error ReadError.invalid_bytecode =
    VmExecutionError.execution_error (EvmError.database ReadError.invalid_bytecode)
from_read_error ReadError.invalid_memory_value_type =
    VmExecutionError.execution_error (EvmError.database ReadError.invalid_memory_value_type)

-- The answer of a storage, with the error as text.
pub data Fetched (A : Type 0) : Type 0 where
  fetched : A → Fetched A
  failed : String → Fetched A

-- The part of the trait `Storage` (crates/pevm/src/storage.rs) that the adapter calls.
pub record EvmStorage (Code : Type 0) : Type 0 where
  pub basic_of : ℕ → Fetched (Option AccountBasic)
  pub code_hash_of : ℕ → Fetched (Option ℕ)
  pub code_by_hash_of : ℕ → Fetched (Option Code)
  pub slot_of : ℕ → ℕ → Fetched ℕ
  pub block_hash_of : ℕ → Fetched ℕ

-- `RewardPolicy`
pub data RewardPolicy : Type 0 where
  ethereum : RewardPolicy
  optimism : (l1_fee_recipient_location_hash base_fee_vault_location_hash : ℕ) → RewardPolicy

-- `Vm`: the storage, the memory as it stands, and what the chain and the block say. The hash of a
-- location, the conversion of codes and the constants of the EVM are third-party.
pub record Vm (Code Bytecode : Type 0) : Type 0 where
  pub uint : Saturating
  pub storage : EvmStorage Code
  pub mv_memory : MvMemory
  pub new_bytecodes : ℕ → Option Bytecode
  pub hash_deterministic : MemoryLocation → ℕ
  pub to_bytecode : Code → Option Bytecode
  pub default_bytecode : Bytecode
  pub keccak_empty : ℕ
  pub is_eip_161_enabled : Bool
  pub is_eip_1559_enabled : Bool
  pub basefee : ℕ
  pub beneficiary_location_hash : ℕ
  pub reward_policy : RewardPolicy

-- `VmDb`, without its reference to the `Vm`.
pub record VmDb : Type 0 where
  pub tx_idx : ℕ
  pub tx : TxEnv
  pub from_hash : ℕ
  pub to_hash : Option ℕ
  pub to_code_hash : Option ℕ
  pub is_lazy : Bool
  pub read_set : ReadSet
  pub read_accounts : ℕ → Option (AccountBasic × Option ℕ)

-- revm's `AccountInfo`
pub record AccountInfo (Bytecode : Type 0) : Type 0 where
  pub balance : ℕ
  pub nonce : ℕ
  pub code_hash : ℕ
  pub code : Option Bytecode

-- A read ends the execution with an error, or gives a value and what it noted. An error drops the
-- database, since the EVM stops at it.
pub data Read (A : Type 0) : Type 0 where
  ok : A → VmDb → Read A
  err : ReadError → Read A

infixl 5 ◌>>=◌
abbrev pub ◌>>=◌ : {A B : Type 0} → Read A → (A → VmDb → Read B) → Read B
ok a db >>= f = f a db
err e >>= f = err e
