-- ===== src/EvmStorages/Wrapper.antt =====
-- `StorageWrapper` (crates/pevm/src/storage.rs): revm's reads of the storage of a sequential execution.
-- The conversion of codes and the constants of the EVM are those of a `Vm`.
use Prim.Native.String.{String}
use parallel_execution.Common.{ℕ, Option, none, some}
use parallel_execution.MvMemory.{AccountBasic}
use parallel_execution.Vm.Types.{Vm, AccountInfo, Fetched, fetched, failed}
use parallel_execution.Vm.Account.{hash_or_empty}

-- A value, or an error of `StorageWrapperError`.
pub data Wrapped (A : Type 0) : Type 0 where
  ok : A → Wrapped A
  storage_error : String → Wrapped A
  invalid_bytecode : Wrapped A

-- The `?` operator.
abbrev pub bind : {A B : Type 0} → Wrapped A → (A → Wrapped B) → Wrapped B
bind (ok a) f = f a
bind (storage_error s) f = storage_error s
bind invalid_bytecode f = invalid_bytecode

-- `.map_err(StorageWrapperError::StorageError)`
abbrev pub wrap : {A : Type 0} → Fetched A → Wrapped A
wrap (fetched a) = ok a
wrap (failed s) = storage_error s

abbrev pub valid : {Bytecode : Type 0} → Option Bytecode → Wrapped (Option Bytecode)
valid none = invalid_bytecode
valid (some b) = ok (some b)

module _ {Code Bytecode : Type 0} (vm : Vm Code Bytecode) where
  -- `.map(Bytecode::try_from).transpose()`
  abbrev pub transposed : Option Code → Wrapped (Option Bytecode)
  transposed none = ok none
  transposed (some c) = valid (vm.to_bytecode c)

  abbrev pub code_ref : Option ℕ → Wrapped (Option Bytecode)
  code_ref none = ok none
  code_ref (some h) = bind (wrap (vm.storage.code_by_hash_of h)) transposed

  abbrev pub info_ref : ℕ → Option AccountBasic → Wrapped (Option (AccountInfo Bytecode))
  info_ref address none = ok none
  info_ref address (some x) = bind (wrap (vm.storage.code_hash_of address)) (λ h.
      bind (code_ref h) (λ code. ok (
        some (record {
          balance = x.balance;
          nonce = x.nonce;
          code_hash = hash_or_empty vm h;
          code = code;
        }))))

  unfoldable pub basic_ref : ℕ → Wrapped (Option (AccountInfo Bytecode))
  basic_ref address = bind (wrap (vm.storage.basic_of address)) (info_ref address)

  abbrev pub or_default : Option Bytecode → Bytecode
  or_default none = vm.default_bytecode
  or_default (some b) = b

  unfoldable pub code_by_hash_ref : ℕ → Wrapped Bytecode
  code_by_hash_ref h =
      bind (bind (wrap (vm.storage.code_by_hash_of h)) transposed) (λ b. ok (or_default b))

  unfoldable pub storage_ref : ℕ → ℕ → Wrapped ℕ
  storage_ref address index = wrap (vm.storage.slot_of address index)

  unfoldable pub block_hash_ref : ℕ → Wrapped ℕ
  block_hash_ref number = wrap (vm.storage.block_hash_of number)
