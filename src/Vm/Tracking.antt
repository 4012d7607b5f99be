-- ===== src/Vm/Tracking.antt =====
-- Every read of a transaction keeps its read set true.
use parallel_execution.Common.{ℕ, ◌≡◌, refl, Option, none, some, [], ◌∷◌}
use parallel_execution.Types.{mv_memory, storage}
use parallel_execution.MvMemory.{
  MemoryEntry, MemoryValue, written, estimate, Tree, tree_at, next_back,
}
use parallel_execution.MvMemory.Origins.{Rereads, next_back_found, next_back-none}
use parallel_execution.Vm.Types.{Vm, VmDb, MemoryLocation}
use parallel_execution.Vm.Reads.{
  stored_code_hash, code_hash_from, get_code_hash, stored_slot, slot_from, read_storage,
}
use parallel_execution.Vm.Rules.{OnOk, OnOk-fetched}
use parallel_execution.Vm.ReadSet.{Tracked, note_origin-Tracked}

-- The entry of a code hash is a code hash, or says that the account is gone; in particular it is no
-- estimate.
abbrev pub IsCodeEntry : Option (ℕ × MemoryEntry) → Type 0
IsCodeEntry none = Unit {0}
IsCodeEntry (some (i, estimate)) = ⊥
IsCodeEntry (some (i, written k (MemoryValue.code_hash h))) = Unit {0}
IsCodeEntry (some (i, written k MemoryValue.self_destructed)) = Unit {0}
IsCodeEntry (some (i, written k (MemoryValue.basic x))) = ⊥
IsCodeEntry (some (i, written k (MemoryValue.stored x))) = ⊥
IsCodeEntry (some (i, written k (MemoryValue.lazy_recipient x))) = ⊥
IsCodeEntry (some (i, written k (MemoryValue.lazy_sender x))) = ⊥

-- Below transaction `i`, the highest entries at the locations of code hashes are code entries.
abbrev pub CodesReady : {Code Bytecode : Type 0} → Vm Code Bytecode → ℕ → Type 0
CodesReady vm i =
    (address : ℕ)
    → IsCodeEntry (
        next_back
          (tree_at vm.mv_memory.data_of (vm.hash_deterministic (MemoryLocation.code_hash address)))
          i)

found-Rereads :
    (t : Tree) (i j k : ℕ) (x : MemoryValue)
    → next_back t i ≡ some (j, written k x)
    → Rereads t i (mv_memory (record { tx_idx = j; tx_incarnation = k }) ∷ [])
found-Rereads t i j k x h =
    let (lt, at, gap) = next_back_found t i j (written k x) h in (lt, (x, at), gap, tt)

none-Rereads : (t : Tree) (i : ℕ) → next_back t i ≡ none → Rereads t i (storage ∷ [])
none-Rereads t i h = (next_back-none t i h, tt)

module _ {Code Bytecode : Type 0} (vm : Vm Code Bytecode) (i : ℕ) where
  -- What every read below shows.
  abbrev pub Kept : {A : Type 0} → A → VmDb → Type 0
  Kept a db = Tracked vm.mv_memory i db

  stored_slot-Tracked :
      (db : VmDb) (address index l : ℕ)
      → Tracked vm.mv_memory i db
      → next_back (tree_at vm.mv_memory.data_of l) i ≡ none
      → OnOk Kept (stored_slot vm db address index l)
  unfolding stored_slot
  stored_slot-Tracked db address index l t h =
      note_origin-Tracked vm.mv_memory i Kept db l storage _ t
        (none-Rereads (tree_at vm.mv_memory.data_of l) i h)
        (λ db' t'. OnOk-fetched Kept (vm.storage.slot_of address index) db' (λ x _. t'))

  slot_from-Tracked :
      (db : VmDb) (address index l : ℕ) (e : Option (ℕ × MemoryEntry))
      → Tracked vm.mv_memory i db
      → next_back (tree_at vm.mv_memory.data_of l) i ≡ e
      → OnOk Kept (slot_from vm db address index l e)
  slot_from-Tracked db address index l none t h = stored_slot-Tracked db address index l t h
  slot_from-Tracked db address index l (some (j, estimate)) t h = tt
  slot_from-Tracked db address index l (some (j, written k (MemoryValue.stored x))) t h =
      note_origin-Tracked vm.mv_memory i Kept db l
        (mv_memory (record { tx_idx = j; tx_incarnation = k })) _ t
        (found-Rereads (tree_at vm.mv_memory.data_of l) i j k (MemoryValue.stored x) h)
        (λ db' t'. t')
  slot_from-Tracked db address index l (some (j, written k (MemoryValue.basic x))) t h = tt
  slot_from-Tracked db address index l (some (j, written k (MemoryValue.code_hash x))) t h = tt
  slot_from-Tracked db address index l (some (j, written k (MemoryValue.lazy_recipient x))) t h = tt
  slot_from-Tracked db address index l (some (j, written k (MemoryValue.lazy_sender x))) t h = tt
  slot_from-Tracked db address index l (some (j, written k MemoryValue.self_destructed)) t h = tt

  pub read_storage-Tracked :
      (db : VmDb) (address index : ℕ)
      → Tracked vm.mv_memory i db
      → OnOk Kept (read_storage vm db address index)
  unfolding read_storage
  read_storage-Tracked db address index t =
      let e = t.0 in
      let l = vm.hash_deterministic (MemoryLocation.storage address index) in
      slot_from-Tracked db address index l _ t (rw e refl)

  stored_code_hash-Tracked :
      (db : VmDb) (address l : ℕ)
      → Tracked vm.mv_memory i db
      → next_back (tree_at vm.mv_memory.data_of l) i ≡ none
      → OnOk Kept (stored_code_hash vm db address l)
  unfolding stored_code_hash
  stored_code_hash-Tracked db address l t h =
      note_origin-Tracked vm.mv_memory i Kept db l storage _ t
        (none-Rereads (tree_at vm.mv_memory.data_of l) i h)
        (λ db' t'. OnOk-fetched Kept (vm.storage.code_hash_of address) db' (λ x _. t'))

  code_hash_from-Tracked :
      (db : VmDb) (address l : ℕ) (e : Option (ℕ × MemoryEntry))
      → Tracked vm.mv_memory i db
      → next_back (tree_at vm.mv_memory.data_of l) i ≡ e
      → IsCodeEntry e
      → OnOk Kept (code_hash_from vm db address l e)
  code_hash_from-Tracked db address l none t h r = stored_code_hash-Tracked db address l t h
  code_hash_from-Tracked db address l (some (j, estimate)) t h r = absurd r
  code_hash_from-Tracked db address l (some (j, written k (MemoryValue.code_hash x))) t h r =
      note_origin-Tracked vm.mv_memory i Kept db l
        (mv_memory (record { tx_idx = j; tx_incarnation = k })) _ t
        (found-Rereads (tree_at vm.mv_memory.data_of l) i j k (MemoryValue.code_hash x) h)
        (λ db' t'. t')
  code_hash_from-Tracked db address l (some (j, written k MemoryValue.self_destructed)) t h r = tt
  code_hash_from-Tracked db address l (some (j, written k (MemoryValue.basic x))) t h r = absurd r
  code_hash_from-Tracked db address l (some (j, written k (MemoryValue.stored x))) t h r = absurd r
  code_hash_from-Tracked db address l (some (j, written k (MemoryValue.lazy_recipient x))) t h r =
      absurd r
  code_hash_from-Tracked db address l (some (j, written k (MemoryValue.lazy_sender x))) t h r =
      absurd r

  module _ (ready : CodesReady vm i) where
    pub get_code_hash-Tracked :
        (db : VmDb) (address : ℕ)
        → Tracked vm.mv_memory i db
        → OnOk Kept (get_code_hash vm db address)
    unfolding get_code_hash
    get_code_hash-Tracked db address t =
        let e = t.0 in
        let l = vm.hash_deterministic (MemoryLocation.code_hash address) in
        code_hash_from-Tracked db address l _ t (rw e refl) (rw e (ready address))
