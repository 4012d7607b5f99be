-- ===== src/Vm/WriteSet.antt =====
-- The write set of an execution: what `Vm::execute` makes of the accounts that the EVM returns.
use parallel_execution.Common.{
  ℕ, ◌-◌, Bool, true, false, not, Option, none, some, List, [], ◌∷◌, ◌++◌, ◌==◌, ◌&&◌, ◌||◌,
  if◌then◌else◌, update, map,
}
use parallel_execution.MvMemory.{MemoryValue, AccountBasic, WriteSet}
use parallel_execution.Vm.Types.{Vm, VmDb, MemoryLocation, u256_max}
use parallel_execution.Vm.Account.{is_hash}

-- revm's `Account`, with what its methods say of it.
pub record Account (Bytecode : Type 0) : Type 0 where
  pub balance : ℕ
  pub nonce : ℕ
  pub code_hash : ℕ
  pub code : Option Bytecode
  pub is_selfdestructed : Bool
  pub is_touched : Bool
  pub is_empty : Bool
  pub is_empty_code_hash : Bool
  pub storage : ℕ → Option ℕ
  pub changed_storage_slots : List (ℕ × ℕ)

abbrev pub ReadAccount : Type 0
ReadAccount = Option (AccountBasic × Option ℕ)

-- Whether no code hash was read.
abbrev pub lacks_code : ReadAccount → Bool
lacks_code none = true
lacks_code (some (x, none)) = true
lacks_code (some (x, some h)) = false

module _ {Bytecode : Type 0} where
  abbrev pub is_new_code : ReadAccount → Account Bytecode → Bool
  is_new_code read a = not a.is_empty_code_hash && lacks_code read

  abbrev pub differs : ReadAccount → Account Bytecode → Bool
  differs none a = true
  differs (some (x, h)) a = not (x.nonce == a.nonce) || not (x.balance == a.balance)

module _ {Code Bytecode : Type 0} (vm : Vm Code Bytecode) (db : VmDb) where
  -- "Write new account changes"
  unfoldable pub basic_writes : ℕ → Account Bytecode → WriteSet
  basic_writes l a =
      if db.is_lazy
      then (if l == db.from_hash
          then (l, MemoryValue.lazy_sender (u256_max - a.balance)) ∷ []
          else if is_hash db.to_hash l
          then (l, MemoryValue.lazy_recipient db.tx.value) ∷ []
          else [])
      else if not vm.is_eip_161_enabled || not a.is_empty
      then (l, MemoryValue.basic (record { balance = a.balance; nonce = a.nonce })) ∷ []
      else []

  -- "Write new contract"
  abbrev pub code_writes : ℕ → Account Bytecode → WriteSet
  code_writes address a =
      (vm.hash_deterministic (MemoryLocation.code_hash address), MemoryValue.code_hash a.code_hash)
      ∷ []

  abbrev pub slot_write : ℕ → ℕ × ℕ → ℕ × MemoryValue
  slot_write address (slot, value) =
      (vm.hash_deterministic (MemoryLocation.storage address slot), MemoryValue.stored value)

  unfoldable pub touched_writes : ℕ → ℕ → ReadAccount → Account Bytecode → WriteSet
  unfolding basic_writes
  touched_writes address l read a =
      (if is_new_code read a || differs read a then basic_writes l a else [])
      ++ (if is_new_code read a then code_writes address a else [])

  -- The body of the loop over the accounts.
  unfoldable pub account_writes : ℕ → Account Bytecode → WriteSet
  unfolding touched_writes
  account_writes address a =
      let l = vm.hash_deterministic (MemoryLocation.basic address) in
      if a.is_selfdestructed
      then (vm.hash_deterministic (MemoryLocation.code_hash address), MemoryValue.self_destructed)
        ∷ []
      else (if a.is_touched then touched_writes address l (db.read_accounts l) a else [])
        ++ map (slot_write address) a.changed_storage_slots

  unfoldable pub write_set_of : List (ℕ × Account Bytecode) → WriteSet
  unfolding account_writes
  write_set_of [] = []
  write_set_of ((address, a) ∷ state) = account_writes address a ++ write_set_of state

  abbrev pub deploys : ℕ → Account Bytecode → Bool
  deploys address a =
      not a.is_selfdestructed
      && (a.is_touched
          && is_new_code (db.read_accounts (vm.hash_deterministic (MemoryLocation.basic address)))
              a)

  -- `entry(code_hash).or_insert_with(|| code.clone().unwrap())`; `none` is a panic.
  abbrev pub or_insert :
      ℕ → Option Bytecode → Option Bytecode → (ℕ → Option Bytecode) → Option (ℕ → Option Bytecode)
  or_insert h (some there) code codes = some codes
  or_insert h none (some b) codes = some (update codes h (some b))
  or_insert h none none codes = none

  abbrev pub and_then :
      Option (ℕ → Option Bytecode)
      → ((ℕ → Option Bytecode) → Option (ℕ → Option Bytecode))
      → Option (ℕ → Option Bytecode)
  and_then none f = none
  and_then (some codes) f = f codes

  -- What the loop adds to the block's new codes.
  unfoldable pub deploy :
      List (ℕ × Account Bytecode) → (ℕ → Option Bytecode) → Option (ℕ → Option Bytecode)
  deploy [] codes = some codes
  deploy ((address, a) ∷ state) codes =
      and_then
        (if deploys address a
          then or_insert a.code_hash (codes a.code_hash) a.code codes
          else some codes)
        (λ codes'. deploy state codes')
