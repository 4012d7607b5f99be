-- ===== src/EvmStorages/Examples.antt =====
-- Concrete conversions of codes, and reads of a first transaction.
use parallel_execution.Common.{ℕ, ◌≡◌, refl, List, [], ◌∷◌, some}
use native.Mathlib.Omega.{arith}
use parallel_execution.MvMemory.{AccountBasic}
use parallel_execution.Vm.Types.{VmDb, fetched}
use parallel_execution.Vm.Reads.{read_storage, code_by_hash, block_hash}
use parallel_execution.Vm.Account.{read_account}
use parallel_execution.Vm.Concrete.{vm_with, updates, db_2, account_1}
use parallel_execution.Finalize.Exact.{InRange}
use parallel_execution.EvmStorages.Wrapper.{
  basic_ref, storage_ref, code_by_hash_ref, block_hash_ref,
}
use parallel_execution.EvmStorages.Agreement.{Agrees}
use parallel_execution.EvmStorages.Reads.{first_reads}
use parallel_execution.EvmStorages.Code.{
  LegacyCode, Revm, EvmCode, Bytecode, eip7702_delegated, eof_container, try_from, from,
  from-try_from,
}

decoded : (bytes e : List ℕ) → some bytes ≡ some e → e ≡ bytes
decoded bytes e h = cc

-- A container is its bytes.
abbrev plain : Revm
plain = record {
  LegacyAnalyzedBytecode = LegacyCode;
  new_analyzed = λ b n t. record { bytecode = b; original_len = n; jump_table = t };
  bytecode = λ a. a.bytecode;
  original_len = λ a. a.original_len;
  jump_table = λ a. a.jump_table;
  bytecode-new_analyzed = λ b n t. refl;
  original_len-new_analyzed = λ b n t. refl;
  jump_table-new_analyzed = λ b n t. refl;
  new_analyzed-parts = λ a. refl;
  to_analysed = λ bytes. record { bytecode = bytes; original_len = 0; jump_table = [] };
  Eof = List ℕ;
  decode = λ bytes. some bytes;
  raw = λ e. e;
  raw-decode = decoded;
  magic_bytes = 0xef ∷ 0x01 ∷ [];
}

-- A delegation whose bytes are those of another address.
abbrev delegation : Bytecode plain
delegation =
    eip7702_delegated
      (record { delegated_address = 5 ∷ []; version = 0; raw = 0xef ∷ 0x01 ∷ 0 ∷ 6 ∷ [] })

from-try_from_example :
    (from plain (eof_container (1 ∷ 2 ∷ [])) ≡ EvmCode.eof (1 ∷ 2 ∷ []))
    × (try_from plain (from plain delegation)
        ≡ some (
            eip7702_delegated
              (record { delegated_address = 5 ∷ []; version = 0; raw = 0xef ∷ 0x01 ∷ 0 ∷ 5 ∷ [] })))
unfolding try_from
from-try_from_example =
    from-try_from plain (EvmCode.eof (1 ∷ 2 ∷ [])) (eof_container (1 ∷ 2 ∷ [])) delegation refl tt

-- The first transaction, before its reads.
abbrev db_0 : VmDb
db_0 = record db_2 { tx_idx = 0 }

fits : (x : AccountBasic) → (vm_with updates).storage.basic_of 1 ≡ fetched (some x) → InRange x
fits x h = let same : account_1 ≡ x = cc in rw (← same) (omega arith, omega arith)

first_reads_example :
    Agrees (read_account (vm_with updates) db_0 1 4) (basic_ref (vm_with updates) 1)
    × Agrees (read_storage (vm_with updates) db_0 1 5) (storage_ref (vm_with updates) 1 5)
    × Agrees (code_by_hash (vm_with updates) db_0 3) (code_by_hash_ref (vm_with updates) 3)
    × Agrees (block_hash (vm_with updates) db_0 9) (block_hash_ref (vm_with updates) 9)
first_reads_example =
    first_reads (vm_with updates) db_0 1 4 5 3 9 (λ h. refl) fits (refl, refl, refl) tt
