-- ===== src/Vm/Blocking.antt =====
-- Which transactions a read, and so an execution, can be blocked on.
use parallel_execution.Common.{
  ℕ, zero, suc, ◌≡◌, ◌<◌, refl, Bool, true, false, Option, none, some, List, arith, if◌then◌else◌,
}
use parallel_execution.Types.{ReadOrigin, mv_memory, storage}
use parallel_execution.MvMemory.{
  MemoryEntry, MemoryValue, written, estimate, Tree, tree_at, next_back,
}
use parallel_execution.MvMemory.Origins.{next_back_found}
use parallel_execution.Vm.Types.{
  Vm, VmDb, MemoryLocation, Read, ok, err, ◌>>=◌, Fetched, fetched, failed, ReadError, Saturating,
}
use parallel_execution.Vm.Reads.{
  origins_at, push_origin, noting, note_origin, stored_code_hash, code_hash_from, get_code_hash,
  stored_slot, slot_from, read_storage, from_fetched,
}
use parallel_execution.Vm.Descent.{
  Walk, add_recipient, add_sender, Walked, stopped, refused, consistent, visit, push_new, at_entry,
  walk,
}

-- An error blocks on a transaction below `i`, if on any.
abbrev pub BlocksBelow : ℕ → ReadError → Type 0
BlocksBelow i (ReadError.blocking j) = j < i
BlocksBelow i (ReadError.storage_error s) = Unit {0}
BlocksBelow i ReadError.inconsistent_read = Unit {0}
BlocksBelow i (ReadError.invalid_nonce j) = Unit {0}
BlocksBelow i ReadError.self_destructed_account = Unit {0}
BlocksBelow i ReadError.invalid_bytecode = Unit {0}
BlocksBelow i ReadError.invalid_memory_value_type = Unit {0}

-- A read of transaction `i` stays its read, or ends with an error that blocks on a lower one.
abbrev pub Below : {A : Type 0} → ℕ → Read A → Type 0
Below i (ok a db) = db.tx_idx ≡ i
Below i (err e) = BlocksBelow i e

module _ (i : ℕ) where
  pub Below-bind :
      {A B : Type 0} (r : Read A) (f : A → VmDb → Read B)
      → Below i r
      → ((a : A) (db : VmDb) → db.tx_idx ≡ i → Below i (f a db))
      → Below i (r >>= f)
  Below-bind (ok a db) f h k = k a db h
  Below-bind (err e) f h k = h

  pub Below-if :
      {A : Type 0} (b : Bool) (r s : Read A) → Below i r → Below i s → Below i (if b then r else s)
  Below-if true r s h k = h
  Below-if false r s h k = k

  pub Below-fetched :
      {A : Type 0} (f : Fetched A) (db : VmDb) → db.tx_idx ≡ i → Below i (from_fetched f db)
  Below-fetched (fetched a) db h = h
  Below-fetched (failed s) db h = tt

  Below-noting :
      {A : Type 0} (db : VmDb) (l : ℕ) (os : Option (List ReadOrigin)) (k : VmDb → Read A)
      → db.tx_idx ≡ i
      → ((db' : VmDb) → db'.tx_idx ≡ i → Below i (k db'))
      → Below i (noting db l os k)
  Below-noting db l none k h next = tt
  Below-noting db l (some os) k h next = next _ h

  Below-note_origin :
      {A : Type 0} (db : VmDb) (l : ℕ) (o : ReadOrigin) (k : VmDb → Read A)
      → db.tx_idx ≡ i
      → ((db' : VmDb) → db'.tx_idx ≡ i → Below i (k db'))
      → Below i (note_origin db l o k)
  unfolding note_origin
  Below-note_origin db l o k h next =
      Below-noting db l (push_origin (origins_at l db.read_set) o) k h next

-- A walk that is refused blocks below its bound.
abbrev pub BlocksAt : ℕ → Walked → Type 0
BlocksAt b (stopped w) = Unit {0}
BlocksAt b (refused e) = BlocksBelow b e

BlocksBelow-more : (b : ℕ) (e : ReadError) → BlocksBelow b e → BlocksBelow (suc b) e
BlocksBelow-more b (ReadError.blocking j) h = omega arith
BlocksBelow-more b (ReadError.storage_error s) h = tt
BlocksBelow-more b ReadError.inconsistent_read h = tt
BlocksBelow-more b (ReadError.invalid_nonce j) h = tt
BlocksBelow-more b ReadError.self_destructed_account h = tt
BlocksBelow-more b ReadError.invalid_bytecode h = tt
BlocksBelow-more b ReadError.invalid_memory_value_type h = tt

BlocksAt-more : (b : ℕ) (r : Walked) → BlocksAt b r → BlocksAt (suc b) r
BlocksAt-more b (stopped w) h = tt
BlocksAt-more b (refused e) h = BlocksBelow-more b e h

module _ (u : Saturating) (b : ℕ) (k : Walk → Walked) (next : (w : Walk) → BlocksAt b (k w)) where
  visit-BlocksAt : (x : MemoryValue) (w : Walk) → BlocksAt b (visit u x w k)
  visit-BlocksAt (MemoryValue.basic x) w = tt
  visit-BlocksAt (MemoryValue.lazy_recipient x) w = next (add_recipient u x w)
  visit-BlocksAt (MemoryValue.lazy_sender x) w = next (add_sender u x w)
  visit-BlocksAt (MemoryValue.code_hash h) w = tt
  visit-BlocksAt (MemoryValue.stored x) w = tt
  visit-BlocksAt MemoryValue.self_destructed w = tt

  BlocksAt-if :
      (c : Bool) (r s : Walked) → BlocksAt b r → BlocksAt b s → BlocksAt b (if c then r else s)
  BlocksAt-if true r s h h' = h
  BlocksAt-if false r s h h' = h'

  entry-BlocksAt :
      (prev : List ReadOrigin) (o : Option MemoryEntry) (w : Walk)
      → BlocksAt (suc b) (at_entry u prev b o w k)
  entry-BlocksAt prev none w = BlocksAt-more b (k w) (next w)
  entry-BlocksAt prev (some estimate) w = omega arith
  entry-BlocksAt prev (some (written inc x)) w =
      let o = mv_memory (record { tx_idx = b; tx_incarnation = inc }) in
      BlocksAt-more b _
        (BlocksAt-if (consistent prev w.new_origins o) _ _ (visit-BlocksAt x (push_new u w o)) tt)

pub walk-BlocksAt :
    (u : Saturating) (t : Tree) (prev : List ReadOrigin) (b : ℕ) (w : Walk)
    → BlocksAt b (walk u t prev b w)
unfolding walk
walk-BlocksAt u t prev zero w = tt
walk-BlocksAt u t prev (suc b) w =
    entry-BlocksAt u b (λ w'. walk u t prev b w') (λ w'. walk-BlocksAt u t prev b w') prev (t b) w

module _ {Code Bytecode : Type 0} (vm : Vm Code Bytecode) (i : ℕ) where
  slot_from-Below :
      (db : VmDb) (address index l : ℕ) (e : Option (ℕ × MemoryEntry))
      → db.tx_idx ≡ i
      → next_back (tree_at vm.mv_memory.data_of l) i ≡ e
      → Below i (slot_from vm db address index l e)
  unfolding stored_slot
  slot_from-Below db address index l none h q =
      Below-note_origin i db l storage _ h
        (λ db' h'. Below-fetched i (vm.storage.slot_of address index) db' h')
  slot_from-Below db address index l (some (j, estimate)) h q =
      (next_back_found (tree_at vm.mv_memory.data_of l) i j estimate q).0
  slot_from-Below db address index l (some (j, written k (MemoryValue.stored x))) h q =
      Below-note_origin i db l (mv_memory (record { tx_idx = j; tx_incarnation = k })) _ h
        (λ db' h'. h')
  slot_from-Below db address index l (some (j, written k (MemoryValue.basic x))) h q = tt
  slot_from-Below db address index l (some (j, written k (MemoryValue.code_hash x))) h q = tt
  slot_from-Below db address index l (some (j, written k (MemoryValue.lazy_recipient x))) h q = tt
  slot_from-Below db address index l (some (j, written k (MemoryValue.lazy_sender x))) h q = tt
  slot_from-Below db address index l (some (j, written k MemoryValue.self_destructed)) h q = tt

  pub read_storage-Below :
      (db : VmDb) (address index : ℕ) → db.tx_idx ≡ i → Below i (read_storage vm db address index)
  unfolding read_storage
  read_storage-Below db address index h =
      slot_from-Below db address index
        (vm.hash_deterministic (MemoryLocation.storage address index)) _ h (rw h refl)

  stored_code_hash-Below :
      (db : VmDb) (address l : ℕ) → db.tx_idx ≡ i → Below i (stored_code_hash vm db address l)
  unfolding stored_code_hash
  stored_code_hash-Below db address l h =
      Below-note_origin i db l storage _ h
        (λ db' h'. Below-fetched i (vm.storage.code_hash_of address) db' h')

  code_hash_from-Below :
      (db : VmDb) (address l : ℕ) (e : Option (ℕ × MemoryEntry))
      → db.tx_idx ≡ i
      → Below i (code_hash_from vm db address l e)
  code_hash_from-Below db address l none h = stored_code_hash-Below db address l h
  code_hash_from-Below db address l (some (j, estimate)) h = stored_code_hash-Below db address l h
  code_hash_from-Below db address l (some (j, written k (MemoryValue.code_hash x))) h =
      Below-note_origin i db l (mv_memory (record { tx_idx = j; tx_incarnation = k })) _ h
        (λ db' h'. h')
  code_hash_from-Below db address l (some (j, written k MemoryValue.self_destructed)) h = tt
  code_hash_from-Below db address l (some (j, written k (MemoryValue.basic x))) h =
      stored_code_hash-Below db address l h
  code_hash_from-Below db address l (some (j, written k (MemoryValue.stored x))) h =
      stored_code_hash-Below db address l h
  code_hash_from-Below db address l (some (j, written k (MemoryValue.lazy_recipient x))) h =
      stored_code_hash-Below db address l h
  code_hash_from-Below db address l (some (j, written k (MemoryValue.lazy_sender x))) h =
      stored_code_hash-Below db address l h

  pub get_code_hash-Below :
      (db : VmDb) (address : ℕ) → db.tx_idx ≡ i → Below i (get_code_hash vm db address)
  unfolding get_code_hash
  get_code_hash-Below db address h =
      code_hash_from-Below db address (vm.hash_deterministic (MemoryLocation.code_hash address)) _ h
