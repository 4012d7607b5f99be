-- ===== src/Vm/Account.antt =====
-- `Database::basic`: the balance, the nonce and the code of an account, with the lazy updates of lower
-- transactions evaluated from the highest down.
use parallel_execution.Common.{
  ℕ, ◌+◌, ◌-◌, Bool, true, false, not, Option, none, some, List, [], ◌∷◌, ◌++◌, ◌==◌, ◌&&◌, ◌||◌,
  if◌then◌else◌, ltb, length, update,
}
use parallel_execution.Types.{ReadOrigin, mv_memory, storage}
use parallel_execution.MvMemory.{tree_at, AccountBasic}
use parallel_execution.Vm.Types.{
  Vm, VmDb, TxKind, call, create, MemoryLocation, ReadError, Read, ok, err, ◌>>=◌, AccountInfo,
  u256_max,
}
use parallel_execution.Vm.Descent.{
  Walk, start_walk, Walked, stopped, refused, is_empty, walk, apply_additions,
}
use parallel_execution.Vm.Reads.{origins_at, set_origins, last, get_code_hash, from_fetched}

abbrev pub default_account : AccountBasic
default_account = record { balance = 0; nonce = 0 }

-- What storage says, given the balance that is to be added.
abbrev pub account_or_default : ℕ → Option AccountBasic → Option AccountBasic
account_or_default addition (some x) = some x
account_or_default addition none = if ltb 0 addition then some default_account else none

abbrev pub is_storage : Option ReadOrigin → Bool
is_storage (some storage) = true
is_storage (some (mv_memory v)) = false
is_storage none = false

-- Whether the storage may be the next origin.
abbrev pub storage_next : List ReadOrigin → List ReadOrigin → Bool
storage_next prev new_origins =
    is_empty prev || (length prev == length new_origins + 1 && is_storage (last prev))

-- "Populate read origins on the first read."
abbrev pub populate : VmDb → ℕ → List ReadOrigin → List ReadOrigin → VmDb
populate db l prev new_origins =
    if is_empty prev then record db { read_set = set_origins l new_origins db.read_set } else db

abbrev pub is_not : Option ℕ → ℕ → Bool
is_not none n = false
is_not (some m) n = not (m == n)

abbrev pub is_hash : Option ℕ → ℕ → Bool
is_hash none l = false
is_hash (some h) l = h == l

module _ {Code Bytecode : Type 0} (vm : Vm Code Bytecode) where
  abbrev pub is_call_to : TxKind → ℕ → Bool
  is_call_to (call to) address = to == address
  is_call_to create address = false

  abbrev pub or_zero : Option ℕ → ℕ
  or_zero none = 0
  or_zero (some h) = h

  unfoldable pub hash_basic : VmDb → ℕ → ℕ
  hash_basic db address =
      if address == db.tx.caller
      then db.from_hash
      else if is_call_to db.tx.transact_to address
      then or_zero db.to_hash
      else vm.hash_deterministic (MemoryLocation.basic address)

  -- The code of a code hash, from the block's new codes or from storage.
  abbrev pub some_code : Option Bytecode → VmDb → Read (Option Bytecode)
  some_code none db = err ReadError.invalid_bytecode
  some_code (some b) db = ok (some b) db

  abbrev pub stored_code : Option Code → VmDb → Read (Option Bytecode)
  stored_code none db = ok none db
  stored_code (some c) db = some_code (vm.to_bytecode c) db

  abbrev pub code_or_stored : ℕ → Option Bytecode → VmDb → Read (Option Bytecode)
  code_or_stored h (some b) db = ok (some b) db
  code_or_stored h none db = from_fetched (vm.storage.code_by_hash_of h) db >>= stored_code

  unfoldable pub code_for : Option ℕ → VmDb → Read (Option Bytecode)
  code_for none db = ok none db
  code_for (some h) db = code_or_stored h (vm.new_bytecodes h) db

  abbrev pub hash_or_empty : Option ℕ → ℕ
  hash_or_empty none = vm.keccak_empty
  hash_or_empty (some h) = h

  -- `self.read_accounts.insert(…)` and the account's info.
  abbrev pub info_of :
      ℕ → AccountBasic → Option ℕ → Option Bytecode → VmDb → Read (Option (AccountInfo Bytecode))
  info_of l x h code db =
      ok
        (some (record {
          balance = x.balance;
          nonce = x.nonce;
          code_hash = hash_or_empty h;
          code = code;
        }))
        (record db { read_accounts = update db.read_accounts l (some (x, h)) })

  unfoldable pub read_code_hash : VmDb → ℕ → ℕ → Read (Option ℕ)
  read_code_hash db address l =
      if is_hash db.to_hash l then ok db.to_code_hash db else get_code_hash vm db address

  -- An account that was found, with its additions; its sender's nonce is checked.
  unfoldable pub finish_account : VmDb → ℕ → ℕ → AccountBasic → Read (Option (AccountInfo Bytecode))
  finish_account db address l x =
      if l == db.from_hash && is_not db.tx.nonce x.nonce
      then if ltb 0 db.tx_idx
        then err (ReadError.blocking (db.tx_idx - 1))
        else err (ReadError.invalid_nonce db.tx_idx)
      else (read_code_hash db address l >>= λ h db'.
          code_for h db' >>= λ code db''. info_of l x h code db'')

  abbrev pub finish :
      VmDb → ℕ → ℕ → Walk → Option AccountBasic → Read (Option (AccountInfo Bytecode))
  finish db address l w none = ok none db
  finish db address l w (some x) = finish_account db address l (apply_additions vm.uint w x)

  -- "Fall back to storage", if no absolute value was found.
  abbrev pub settle_with :
      VmDb
      → ℕ
      → ℕ
      → List ReadOrigin
      → Walk
      → Option AccountBasic
      → Read (Option (AccountInfo Bytecode))
  settle_with db address l prev w (some x) =
      finish (populate db l prev w.new_origins) address l w (some x)
  settle_with db address l prev w none =
      if storage_next prev w.new_origins
      then (from_fetched (vm.storage.basic_of address)
            (populate db l prev (w.new_origins ++ storage ∷ []))
          >>= λ found db'. finish db' address l w (account_or_default w.balance_addition found))
      else err ReadError.inconsistent_read

  abbrev pub settle : VmDb → ℕ → ℕ → List ReadOrigin → Walked → Read (Option (AccountInfo Bytecode))
  settle db address l prev (refused e) = err e
  settle db address l prev (stopped w) = settle_with db address l prev w w.final_account

  unfoldable pub read_account : VmDb → ℕ → ℕ → Read (Option (AccountInfo Bytecode))
  read_account db address l =
      let prev = origins_at l db.read_set in
      settle db address l prev
        (walk vm.uint (tree_at vm.mv_memory.data_of l) prev db.tx_idx start_walk)

  abbrev pub unwrap_or_one : Option ℕ → ℕ
  unwrap_or_one none = 1
  unwrap_or_one (some n) = n

  -- The mock of a lazily updated sender.
  abbrev pub mock_sender : VmDb → AccountInfo Bytecode
  mock_sender db = record {
    balance = u256_max;
    nonce = unwrap_or_one db.tx.nonce;
    code_hash = vm.keccak_empty;
    code = none;
  }

  unfoldable pub basic : VmDb → ℕ → Read (Option (AccountInfo Bytecode))
  basic db address =
      let l = hash_basic db address in
      if db.is_lazy && l == db.from_hash
      then ok (some (mock_sender db)) db
      else if db.is_lazy && is_hash db.to_hash l
      then ok none db
      else read_account db address l
