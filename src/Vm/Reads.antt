-- ===== src/Vm/Reads.antt =====
-- The reads of one origin: code hashes and storage slots; codes and block hashes, which are not tracked.
use parallel_execution.Common.{
  ℕ, Bool, true, false, Option, none, some, List, [], ◌∷◌, ◌++◌, ◌==◌, ◌&&◌, ◌||◌, if◌then◌else◌,
}
use parallel_execution.Types.{ReadOrigin, mv_memory, storage}
use parallel_execution.MvMemory.{
  MvMemory, MemoryEntry, MemoryValue, written, estimate, ReadSet, tree_at, next_back,
}
use parallel_execution.Vm.Types.{
  Vm, VmDb, TxEnv, TxKind, call, create, MemoryLocation, ReadError, Fetched, fetched, failed, Read,
  ok, err, ◌>>=◌,
}

abbrev pub origins_at : ℕ → ReadSet → List ReadOrigin
origins_at l [] = []
origins_at l ((k, os) ∷ rs) = if k == l then os else origins_at l rs

-- `*self.read_set.entry(location_hash).or_default() = …`
unfoldable pub set_origins : ℕ → List ReadOrigin → ReadSet → ReadSet
set_origins l os [] = (l, os) ∷ []
set_origins l os ((k, ps) ∷ rs) = if k == l then (l, os) ∷ rs else (k, ps) ∷ set_origins l os rs

abbrev pub last : List ReadOrigin → Option ReadOrigin
last [] = none
last (o ∷ []) = some o
last (o ∷ p ∷ os) = last (p ∷ os)

-- The derived `==` of `ReadOrigin`.
abbrev pub origin_eq : ReadOrigin → ReadOrigin → Bool
origin_eq (mv_memory v) (mv_memory w) =
    v.tx_idx == w.tx_idx && (v.tx_incarnation == w.tx_incarnation)
origin_eq (mv_memory v) storage = false
origin_eq storage (mv_memory w) = false
origin_eq storage storage = true

abbrev pub push_after : Option ReadOrigin → List ReadOrigin → ReadOrigin → Option (List ReadOrigin)
push_after none os o = some (os ++ o ∷ [])
push_after (some p) os o = if origin_eq p o then some os else none

-- `none` is the error `InconsistentRead`.
unfoldable pub push_origin : List ReadOrigin → ReadOrigin → Option (List ReadOrigin)
push_origin os o = push_after (last os) os o

abbrev pub noting : {A : Type 0} → VmDb → ℕ → Option (List ReadOrigin) → (VmDb → Read A) → Read A
noting db l none k = err ReadError.inconsistent_read
noting db l (some os) k = k (record db { read_set = set_origins l os db.read_set })

-- `Self::push_origin(read_origins, origin)?` and what follows.
unfoldable pub note_origin : {A : Type 0} → VmDb → ℕ → ReadOrigin → (VmDb → Read A) → Read A
unfolding push_origin set_origins
note_origin db l o k = noting db l (push_origin (origins_at l db.read_set) o) k

-- `.map_err(|err| ReadError::StorageError(err.to_string()))`
abbrev pub from_fetched : {A : Type 0} → Fetched A → VmDb → Read A
from_fetched (fetched a) db = ok a db
from_fetched (failed s) db = err (ReadError.storage_error s)

abbrev pub contains_key : MvMemory → ℕ → Bool
contains_key m l = elim (m.data_of l) [ none ↦ false | some t ↦ true ]

module _ {Code Bytecode : Type 0} (vm : Vm Code Bytecode) where
  -- "Fallback to storage"
  unfoldable pub stored_code_hash : VmDb → ℕ → ℕ → Read (Option ℕ)
  stored_code_hash db address l =
      note_origin db l storage (λ db'. from_fetched (vm.storage.code_hash_of address) db')

  -- "Try to read the latest code hash in [MvMemory]"
  abbrev pub code_hash_from : VmDb → ℕ → ℕ → Option (ℕ × MemoryEntry) → Read (Option ℕ)
  code_hash_from db address l none = stored_code_hash db address l
  code_hash_from db address l (some (i, estimate)) = stored_code_hash db address l
  code_hash_from db address l (some (i, written k MemoryValue.self_destructed)) =
      err ReadError.self_destructed_account
  code_hash_from db address l (some (i, written k (MemoryValue.code_hash h))) =
      note_origin db l (mv_memory (record { tx_idx = i; tx_incarnation = k }))
        (λ db'. ok (some h) db')
  code_hash_from db address l (some (i, written k (MemoryValue.basic x))) =
      stored_code_hash db address l
  code_hash_from db address l (some (i, written k (MemoryValue.stored x))) =
      stored_code_hash db address l
  code_hash_from db address l (some (i, written k (MemoryValue.lazy_recipient x))) =
      stored_code_hash db address l
  code_hash_from db address l (some (i, written k (MemoryValue.lazy_sender x))) =
      stored_code_hash db address l

  unfoldable pub get_code_hash : VmDb → ℕ → Read (Option ℕ)
  get_code_hash db address =
      let l = vm.hash_deterministic (MemoryLocation.code_hash address) in
      code_hash_from db address l (next_back (tree_at vm.mv_memory.data_of l) db.tx_idx)

  unfoldable pub stored_slot : VmDb → ℕ → ℕ → ℕ → Read ℕ
  stored_slot db address index l =
      note_origin db l storage (λ db'. from_fetched (vm.storage.slot_of address index) db')

  abbrev pub slot_from : VmDb → ℕ → ℕ → ℕ → Option (ℕ × MemoryEntry) → Read ℕ
  slot_from db address index l none = stored_slot db address index l
  slot_from db address index l (some (i, estimate)) = err (ReadError.blocking i)
  slot_from db address index l (some (i, written k (MemoryValue.stored x))) =
      note_origin db l (mv_memory (record { tx_idx = i; tx_incarnation = k })) (λ db'. ok x db')
  slot_from db address index l (some (i, written k (MemoryValue.basic x))) =
      err ReadError.invalid_memory_value_type
  slot_from db address index l (some (i, written k (MemoryValue.code_hash x))) =
      err ReadError.invalid_memory_value_type
  slot_from db address index l (some (i, written k (MemoryValue.lazy_recipient x))) =
      err ReadError.invalid_memory_value_type
  slot_from db address index l (some (i, written k (MemoryValue.lazy_sender x))) =
      err ReadError.invalid_memory_value_type
  slot_from db address index l (some (i, written k MemoryValue.self_destructed)) =
      err ReadError.invalid_memory_value_type

  -- `Database::storage`. At index 0 there is nothing below, so the test of the index is left out.
  unfoldable pub read_storage : VmDb → ℕ → ℕ → Read ℕ
  read_storage db address index =
      let l = vm.hash_deterministic (MemoryLocation.storage address index) in
      slot_from db address index l (next_back (tree_at vm.mv_memory.data_of l) db.tx_idx)

  abbrev pub converted : Option Bytecode → VmDb → Read Bytecode
  converted none db = err ReadError.invalid_bytecode
  converted (some b) db = ok b db

  abbrev pub bytecode_of : Option Code → VmDb → Read Bytecode
  bytecode_of none db = ok vm.default_bytecode db
  bytecode_of (some c) db = converted (vm.to_bytecode c) db

  -- `Database::code_by_hash`
  unfoldable pub code_by_hash : VmDb → ℕ → Read Bytecode
  code_by_hash db h = from_fetched (vm.storage.code_by_hash_of h) db >>= bytecode_of

  -- `Database::block_hash`
  unfoldable pub block_hash : VmDb → ℕ → Read ℕ
  block_hash db number = from_fetched (vm.storage.block_hash_of number) db

  abbrev pub to_hash_of : TxKind → Option ℕ
  to_hash_of (call to) = some (vm.hash_deterministic (MemoryLocation.basic to))
  to_hash_of create = none

  abbrev pub is_none : Option ℕ → Bool
  is_none none = true
  is_none (some h) = false

  -- "We only lazy update raw transfers that already have the sender or recipient in [MvMemory]"
  abbrev pub prepare : TxKind → VmDb → Read (Unit {0})
  prepare create db = ok tt db
  prepare (call to) db = get_code_hash db to >>= λ h db'. ok tt (record db' {
    to_code_hash = h;
    is_lazy =
        is_none h
        && (contains_key vm.mv_memory db.from_hash
            || contains_key vm.mv_memory (vm.hash_deterministic (MemoryLocation.basic to)));
  })

  -- `VmDb::new`, with the hashes that `Vm::execute` passes.
  unfoldable pub new : ℕ → TxEnv → Read (Unit {0})
  new tx_idx tx = prepare tx.transact_to (record {
    tx_idx = tx_idx;
    tx = tx;
    from_hash = vm.hash_deterministic (MemoryLocation.basic tx.caller);
    to_hash = to_hash_of tx.transact_to;
    to_code_hash = none;
    is_lazy = false;
    read_set = [];
    read_accounts = λ l. none;
  })
