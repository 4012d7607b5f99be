-- ===== src/EvmStorages/InMemory.antt =====
-- `InMemoryStorage` of the EVM (crates/pevm/src/storage/in_memory.rs). A hash map is a function of its
-- key; the hash of a block number's digits is of a third-party crate.
use parallel_execution.Common.{ℕ, Option, none, some}
use parallel_execution.MvMemory.{AccountBasic}
use parallel_execution.Vm.Types.{EvmStorage, fetched}
use parallel_execution.Finalize.Entry.{EvmAccount}

pub record InMemoryStorage (Code : Type 0) : Type 0 where
  pub accounts : ℕ → Option (EvmAccount Code)
  pub bytecodes : ℕ → Option Code
  pub block_hashes : ℕ → Option ℕ

abbrev pub or_zero : Option ℕ → ℕ
or_zero none = 0
or_zero (some x) = x

abbrev pub or_hash : (ℕ → ℕ) → ℕ → Option ℕ → ℕ
or_hash keccak number none = keccak number
or_hash keccak number (some h) = h

module _ {Code : Type 0} where
  abbrev pub basic_in : Option (EvmAccount Code) → Option AccountBasic
  basic_in none = none
  basic_in (some a) = some (record { balance = a.balance; nonce = a.nonce })

  abbrev pub code_hash_in : Option (EvmAccount Code) → Option ℕ
  code_hash_in none = none
  code_hash_in (some a) = a.code_hash

  abbrev pub slot_in : Option (EvmAccount Code) → ℕ → ℕ
  slot_in none index = 0
  slot_in (some a) index = or_zero (a.storage index)

  -- `Storage` for `InMemoryStorage`
  abbrev pub in_memory : (ℕ → ℕ) → InMemoryStorage Code → EvmStorage Code
  in_memory keccak s = record {
    basic_of = λ a. fetched (basic_in (s.accounts a));
    code_hash_of = λ a. fetched (code_hash_in (s.accounts a));
    code_by_hash_of = λ h. fetched (s.bytecodes h);
    slot_of = λ a index. fetched (slot_in (s.accounts a) index);
    block_hash_of = λ number. fetched (or_hash keccak number (s.block_hashes number));
  }
