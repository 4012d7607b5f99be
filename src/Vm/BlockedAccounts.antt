-- ===== src/Vm/BlockedAccounts.antt =====
-- Which transactions an execution can be blocked on: accounts, and the whole execution.
use parallel_execution.Common.{
  ℕ, ◌-◌, ◌≡◌, Option, none, some, List, [], ◌∷◌, ◌++◌, ◌==◌, ◌&&◌, arith, ltb, if◌then◌else◌, inl,
  inr, Bool-cases,
}
use parallel_execution.Types.{ReadOrigin, storage}
use parallel_execution.MvMemory.{tree_at, AccountBasic}
use parallel_execution.Vm.Types.{Vm, VmDb, err, AccountInfo, ReadError}
use parallel_execution.Vm.Reads.{
  origins_at, from_fetched, code_by_hash, block_hash, bytecode_of, converted,
}
use parallel_execution.Vm.Account.{
  account_or_default, populate, is_not, is_hash, code_for, code_or_stored, stored_code, some_code,
  read_code_hash, finish_account, finish, settle_with, settle, read_account, storage_next,
  hash_basic, basic,
}
use parallel_execution.Vm.Descent.{Walk, start_walk, Walked, stopped, refused, apply_additions}
use parallel_execution.Vm.Blocking.{
  Below, BlocksAt, Below-bind, Below-if, Below-fetched, walk-BlocksAt, get_code_hash-Below,
}

module _ {Code Bytecode : Type 0} (vm : Vm Code Bytecode) (i : ℕ) where
  some_code-Below : (b : Option Bytecode) (db : VmDb) → db.tx_idx ≡ i → Below i (some_code vm b db)
  some_code-Below none db h = tt
  some_code-Below (some b) db h = h

  stored_code-Below : (c : Option Code) (db : VmDb) → db.tx_idx ≡ i → Below i (stored_code vm c db)
  stored_code-Below none db h = h
  stored_code-Below (some c) db h = some_code-Below (vm.to_bytecode c) db h

  code_or_stored-Below :
      (c : ℕ) (b : Option Bytecode) (db : VmDb) → db.tx_idx ≡ i → Below i (code_or_stored vm c b db)
  code_or_stored-Below c (some b) db h = h
  code_or_stored-Below c none db h =
      Below-bind i (from_fetched (vm.storage.code_by_hash_of c) db) _
        (Below-fetched i (vm.storage.code_by_hash_of c) db h) stored_code-Below

  code_for-Below : (c : Option ℕ) (db : VmDb) → db.tx_idx ≡ i → Below i (code_for vm c db)
  unfolding code_for
  code_for-Below none db h = h
  code_for-Below (some c) db h = code_or_stored-Below c (vm.new_bytecodes c) db h

  converted-Below : (b : Option Bytecode) (db : VmDb) → db.tx_idx ≡ i → Below i (converted vm b db)
  converted-Below none db h = tt
  converted-Below (some b) db h = h

  bytecode_of-Below : (c : Option Code) (db : VmDb) → db.tx_idx ≡ i → Below i (bytecode_of vm c db)
  bytecode_of-Below none db h = h
  bytecode_of-Below (some c) db h = converted-Below (vm.to_bytecode c) db h

  pub code_by_hash-Below : (db : VmDb) (c : ℕ) → db.tx_idx ≡ i → Below i (code_by_hash vm db c)
  unfolding code_by_hash
  code_by_hash-Below db c h =
      Below-bind i (from_fetched (vm.storage.code_by_hash_of c) db) _
        (Below-fetched i (vm.storage.code_by_hash_of c) db h) bytecode_of-Below

  pub block_hash-Below : (db : VmDb) (n : ℕ) → db.tx_idx ≡ i → Below i (block_hash vm db n)
  unfolding block_hash
  block_hash-Below db n h = Below-fetched i (vm.storage.block_hash_of n) db h

  populate_index :
      (db : VmDb) (l : ℕ) (prev os : List ReadOrigin)
      → db.tx_idx ≡ i
      → (populate db l prev os).tx_idx ≡ i
  populate_index db l [] os h = h
  populate_index db l (o ∷ prev) os h = h

  module _ (address l : ℕ) where
    -- A mismatch of the nonce blocks on the transaction before, if there is one.
    nonce-Below :
        (db : VmDb)
        → db.tx_idx ≡ i
        → Below {A = Option (AccountInfo Bytecode)} i (
            if ltb 0 db.tx_idx
            then err (ReadError.blocking (db.tx_idx - 1))
            else err (ReadError.invalid_nonce db.tx_idx))
    nonce-Below db h = elim (Bool-cases (ltb 0 db.tx_idx)) [
      | inl c ↦ rw c (ground arith)
      | inr c ↦ rw c tt
    ]

    finish_account-Below :
        (db : VmDb) (x : AccountBasic) → db.tx_idx ≡ i → Below i (finish_account vm db address l x)
    unfolding finish_account read_code_hash
    finish_account-Below db x h =
        Below-if i (l == db.from_hash && is_not db.tx.nonce x.nonce) _ _ (nonce-Below db h) (
          Below-bind i (read_code_hash vm db address l) _
            (Below-if i (is_hash db.to_hash l) _ _ h (get_code_hash-Below vm i db address h))
            (λ c db' h'.
              Below-bind i (code_for vm c db') _ (code_for-Below c db' h') (λ b db'' h''. h'')))

    finish-Below :
        (db : VmDb) (w : Walk) (o : Option AccountBasic)
        → db.tx_idx ≡ i
        → Below i (finish vm db address l w o)
    finish-Below db w none h = h
    finish-Below db w (some x) h = finish_account-Below db (apply_additions vm.uint w x) h

    settle_with-Below :
        (db : VmDb) (prev : List ReadOrigin) (w : Walk) (o : Option AccountBasic)
        → db.tx_idx ≡ i
        → Below i (settle_with vm db address l prev w o)
    settle_with-Below db prev w (some x) h =
        finish-Below (populate db l prev w.new_origins) w (some x)
          (populate_index db l prev w.new_origins h)
    settle_with-Below db prev w none h =
        let db' = populate db l prev (w.new_origins ++ storage ∷ []) in
        Below-if i (storage_next prev w.new_origins) _ _
          (Below-bind i (from_fetched (vm.storage.basic_of address) db') _
            (Below-fetched i (vm.storage.basic_of address) db'
              (populate_index db l prev (w.new_origins ++ storage ∷ []) h))
            (λ f db'' h''. finish-Below db'' w (account_or_default w.balance_addition f) h''))
          tt

    settle-Below :
        (db : VmDb) (prev : List ReadOrigin) (r : Walked)
        → BlocksAt i r
        → db.tx_idx ≡ i
        → Below i (settle vm db address l prev r)
    settle-Below db prev (refused e) b h = b
    settle-Below db prev (stopped w) b h = settle_with-Below db prev w w.final_account h

    read_account-Below : (db : VmDb) → db.tx_idx ≡ i → Below i (read_account vm db address l)
    unfolding read_account
    read_account-Below db h =
        let t = tree_at vm.mv_memory.data_of l in
        let prev = origins_at l db.read_set in
        settle-Below db prev _ (rw h (walk-BlocksAt vm.uint t prev i start_walk)) h

  pub basic-Below : (db : VmDb) (address : ℕ) → db.tx_idx ≡ i → Below i (basic vm db address)
  unfolding basic
  basic-Below db address h =
      let l = hash_basic vm db address in
      Below-if i (db.is_lazy && l == db.from_hash) _ _ h
        (Below-if i (db.is_lazy && is_hash db.to_hash l) _ _ h (read_account-Below address l db h))
