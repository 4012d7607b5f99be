-- ===== src/EvmStorages/Reads.antt =====
-- All reads of the first transaction of a block against those of a sequential execution.
use parallel_execution.Common.{ℕ, ◌≡◌, ◌==◌, false, refl, ap, Option, none, some}
use parallel_execution.MvMemory.{AccountBasic, tree_at, next_back}
use parallel_execution.Vm.Types.{Vm, VmDb, ◌>>=◌, Fetched, fetched, failed, MemoryLocation}
use parallel_execution.Vm.Reads.{
  from_fetched, stored_slot, read_storage, converted, bytecode_of, code_by_hash, block_hash,
}
use parallel_execution.Vm.Account.{read_account, is_hash}
use parallel_execution.Finalize.Exact.{InRange}
use parallel_execution.EvmStorages.Wrapper.{
  Wrapped, bind, wrap, valid, transposed, or_default, basic_ref, code_by_hash_ref, storage_ref,
  block_hash_ref,
}
use parallel_execution.EvmStorages.Agreement.{
  StorageOnly, Agrees, Agrees-note_origin, Agrees-fetched, read_account-basic_ref,
}

module _ {Code Bytecode : Type 0} (vm : Vm Code Bytecode) (db : VmDb)
    (h : StorageOnly db.read_set) where
  Agrees-read_storage :
      (address index : ℕ)
      → db.tx_idx ≡ 0
      → Agrees (read_storage vm db address index) (storage_ref vm address index)
  unfolding read_storage stored_slot next_back storage_ref
  Agrees-read_storage address index e =
      let l = vm.hash_deterministic (MemoryLocation.storage address index) in
      let t = tree_at vm.mv_memory.data_of l in
      let q : next_back t db.tx_idx ≡ none = ap (next_back t) e in
      rw q (
        Agrees-note_origin db l _ (wrap (vm.storage.slot_of address index)) h
          (λ db' h'. Agrees-fetched (vm.storage.slot_of address index) db' h'))

  Agrees-converted :
      (b : Option Bytecode)
      → Agrees (converted vm b db) (bind (valid b) (λ c. Wrapped.ok (or_default vm c)))
  Agrees-converted none = refl
  Agrees-converted (some b) = (refl, h)

  Agrees-bytecode_of :
      (c : Option Code)
      → Agrees (bytecode_of vm c db) (bind (transposed vm c) (λ b. Wrapped.ok (or_default vm b)))
  Agrees-bytecode_of none = (refl, h)
  Agrees-bytecode_of (some c) = Agrees-converted (vm.to_bytecode c)

  Agrees-code :
      (f : Fetched (Option Code))
      → Agrees
          (from_fetched f db >>= bytecode_of vm)
          (bind (bind (wrap f) (transposed vm)) (λ b. Wrapped.ok (or_default vm b)))
  Agrees-code (fetched c) = Agrees-bytecode_of c
  Agrees-code (failed s) = refl

-- In the first transaction of a block, every read of the adapter gives the value or the error
-- that `StorageWrapper` gives a sequential execution, whatever higher transactions have written,
-- and notes only the storage. The account read is neither the sender's nor the recipient's,
-- storage's accounts fit their types, earlier reads noted only the storage, and the block has
-- deployed no code.
pub first_reads :
    {Code Bytecode : Type 0} (vm : Vm Code Bytecode) (db : VmDb) (address l index c number : ℕ)
    → ((h : ℕ) → vm.new_bytecodes h ≡ none)
    → ((x : AccountBasic) → vm.storage.basic_of address ≡ fetched (some x) → InRange x)
    → (db.tx_idx ≡ 0) × ((l == db.from_hash) ≡ false) × (is_hash db.to_hash l ≡ false)
    → StorageOnly db.read_set
    → Agrees (read_account vm db address l) (basic_ref vm address)
      × Agrees (read_storage vm db address index) (storage_ref vm address index)
      × Agrees (code_by_hash vm db c) (code_by_hash_ref vm c)
      × Agrees (block_hash vm db number) (block_hash_ref vm number)
unfolding code_by_hash block_hash code_by_hash_ref block_hash_ref
first_reads vm db address l index c number fresh fits a h = (
  read_account-basic_ref vm fresh address l fits db a h,
  Agrees-read_storage vm db h address index a.0,
  Agrees-code vm db h (vm.storage.code_by_hash_of c),
  Agrees-fetched (vm.storage.block_hash_of number) db h,
)
