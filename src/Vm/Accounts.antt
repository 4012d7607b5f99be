-- ===== src/Vm/Accounts.antt =====
-- Reading an account keeps the read set of its transaction true.
use parallel_execution.Common.{
  ℕ, ◌≡◌, refl, Option, none, some, List, [], ◌∷◌, ◌++◌, ◌==◌, ◌&&◌, ltb,
}
use parallel_execution.Types.{ReadOrigin, storage}
use parallel_execution.MvMemory.{tree_at, AccountBasic}
use parallel_execution.MvMemory.Origins.{Rereads}
use parallel_execution.MvMemory.Validation.{IsChain}
use parallel_execution.Vm.Types.{Vm, VmDb}
use parallel_execution.Vm.Reads.{
  origins_at, from_fetched, converted, bytecode_of, code_by_hash, block_hash,
}
use parallel_execution.Vm.Account.{
  account_or_default, populate, is_not, is_hash, code_for, code_or_stored, stored_code, some_code,
  read_code_hash, finish_account, finish, settle_with, settle, read_account, storage_next,
  hash_basic, basic,
}
use parallel_execution.Vm.Descent.{
  Walk, start_walk, Walked, stopped, refused, walk, apply_additions,
}
use parallel_execution.Vm.Trace.{in_full, walk_trace}
use parallel_execution.Vm.Rules.{OnOk, OnOk-bind, OnOk-if, OnOk-fetched}
use parallel_execution.Vm.ReadSet.{Tracked, Tracked-set}
use parallel_execution.Vm.Tracking.{CodesReady, Kept, get_code_hash-Tracked}

module _ {Code Bytecode : Type 0} (vm : Vm Code Bytecode) (i : ℕ) where
  some_code-Tracked :
      (b : Option Bytecode) (db : VmDb)
      → Tracked vm.mv_memory i db
      → OnOk (Kept vm i) (some_code vm b db)
  some_code-Tracked none db t = tt
  some_code-Tracked (some b) db t = t

  stored_code-Tracked :
      (c : Option Code) (db : VmDb)
      → Tracked vm.mv_memory i db
      → OnOk (Kept vm i) (stored_code vm c db)
  stored_code-Tracked none db t = t
  stored_code-Tracked (some c) db t = some_code-Tracked (vm.to_bytecode c) db t

  code_or_stored-Tracked :
      (h : ℕ) (b : Option Bytecode) (db : VmDb)
      → Tracked vm.mv_memory i db
      → OnOk (Kept vm i) (code_or_stored vm h b db)
  code_or_stored-Tracked h (some b) db t = t
  code_or_stored-Tracked h none db t =
      OnOk-bind (Kept vm i) (Kept vm i) (from_fetched (vm.storage.code_by_hash_of h) db) _
        (OnOk-fetched (Kept vm i) (vm.storage.code_by_hash_of h) db (λ c _. t))
        (λ c db' t'. stored_code-Tracked c db' t')

  code_for-Tracked :
      (h : Option ℕ) (db : VmDb) → Tracked vm.mv_memory i db → OnOk (Kept vm i) (code_for vm h db)
  unfolding code_for
  code_for-Tracked none db t = t
  code_for-Tracked (some h) db t = code_or_stored-Tracked h (vm.new_bytecodes h) db t

  converted-Tracked :
      (b : Option Bytecode) (db : VmDb)
      → Tracked vm.mv_memory i db
      → OnOk (Kept vm i) (converted vm b db)
  converted-Tracked none db t = tt
  converted-Tracked (some b) db t = t

  bytecode_of-Tracked :
      (c : Option Code) (db : VmDb)
      → Tracked vm.mv_memory i db
      → OnOk (Kept vm i) (bytecode_of vm c db)
  bytecode_of-Tracked none db t = t
  bytecode_of-Tracked (some c) db t = converted-Tracked (vm.to_bytecode c) db t

  pub code_by_hash-Tracked :
      (db : VmDb) (h : ℕ) → Tracked vm.mv_memory i db → OnOk (Kept vm i) (code_by_hash vm db h)
  unfolding code_by_hash
  code_by_hash-Tracked db h t =
      OnOk-bind (Kept vm i) (Kept vm i) (from_fetched (vm.storage.code_by_hash_of h) db) _
        (OnOk-fetched (Kept vm i) (vm.storage.code_by_hash_of h) db (λ c _. t))
        (λ c db' t'. bytecode_of-Tracked c db' t')

  pub block_hash-Tracked :
      (db : VmDb) (n : ℕ) → Tracked vm.mv_memory i db → OnOk (Kept vm i) (block_hash vm db n)
  unfolding block_hash
  block_hash-Tracked db n t = OnOk-fetched (Kept vm i) (vm.storage.block_hash_of n) db (λ h _. t)

  populate-Tracked :
      (db : VmDb) (l : ℕ) (prev os : List ReadOrigin)
      → Tracked vm.mv_memory i db
      → IsChain os
      → Rereads (tree_at vm.mv_memory.data_of l) i os
      → Tracked vm.mv_memory i (populate db l prev os)
  populate-Tracked db l [] os t c h = Tracked-set vm.mv_memory i db l os t c h
  populate-Tracked db l (o ∷ prev) os t c h = t

  module _ (ready : CodesReady vm i) (address l : ℕ) where
    finish_account-Tracked :
        (db : VmDb) (x : AccountBasic)
        → Tracked vm.mv_memory i db
        → OnOk (Kept vm i) (finish_account vm db address l x)
    unfolding finish_account read_code_hash
    finish_account-Tracked db x t =
        OnOk-if (Kept vm i) (l == db.from_hash && is_not db.tx.nonce x.nonce) _ _
          (OnOk-if (Kept vm i) (ltb 0 db.tx_idx) _ _ tt tt)
          (OnOk-bind (Kept vm i) (Kept vm i) (read_code_hash vm db address l) _
            (OnOk-if (Kept vm i) (is_hash db.to_hash l) _ _ t
              (get_code_hash-Tracked vm i ready db address t))
            (λ h db' t'.
              OnOk-bind (Kept vm i) (Kept vm i) (code_for vm h db') _ (code_for-Tracked h db' t')
                (λ c db'' t''. t'')))

    finish-Tracked :
        (db : VmDb) (w : Walk) (o : Option AccountBasic)
        → Tracked vm.mv_memory i db
        → OnOk (Kept vm i) (finish vm db address l w o)
    finish-Tracked db w none t = t
    finish-Tracked db w (some x) t = finish_account-Tracked db (apply_additions vm.uint w x) t

    settle_with-Tracked :
        (db : VmDb) (prev : List ReadOrigin) (w : Walk) (o : Option AccountBasic)
        → Tracked vm.mv_memory i db
        → IsChain (in_full o w.new_origins)
        → Rereads (tree_at vm.mv_memory.data_of l) i (in_full o w.new_origins)
        → OnOk (Kept vm i) (settle_with vm db address l prev w o)
    settle_with-Tracked db prev w (some x) t c h =
        finish-Tracked (populate db l prev w.new_origins) w (some x)
          (populate-Tracked db l prev w.new_origins t c h)
    settle_with-Tracked db prev w none t c h =
        let db' = populate db l prev (w.new_origins ++ storage ∷ []) in
        let t' = populate-Tracked db l prev (w.new_origins ++ storage ∷ []) t c h in
        OnOk-if (Kept vm i) (storage_next prev w.new_origins) _ _
          (OnOk-bind (Kept vm i) (Kept vm i) (from_fetched (vm.storage.basic_of address) db') _
            (OnOk-fetched (Kept vm i) (vm.storage.basic_of address) db' (λ f _. t'))
            (λ f db'' t''. finish-Tracked db'' w (account_or_default w.balance_addition f) t''))
          tt

    settle-Tracked :
        (db : VmDb) (prev : List ReadOrigin) (r : Walked)
        → walk vm.uint (tree_at vm.mv_memory.data_of l) prev i start_walk ≡ r
        → Tracked vm.mv_memory i db
        → OnOk (Kept vm i) (settle vm db address l prev r)
    settle-Tracked db prev (refused e) q t = tt
    settle-Tracked db prev (stopped w) q t =
        let (c, h) = walk_trace vm.uint (tree_at vm.mv_memory.data_of l) prev i w q in
        settle_with-Tracked db prev w w.final_account t c h

    read_account-Tracked :
        (db : VmDb) → Tracked vm.mv_memory i db → OnOk (Kept vm i) (read_account vm db address l)
    unfolding read_account
    read_account-Tracked db t =
        let e = t.0 in settle-Tracked db (origins_at l db.read_set) _ (rw e refl) t

  pub basic-Tracked :
      (ready : CodesReady vm i) (db : VmDb) (address : ℕ)
      → Tracked vm.mv_memory i db
      → OnOk (Kept vm i) (basic vm db address)
  unfolding basic
  basic-Tracked ready db address t =
      let l = hash_basic vm db address in
      OnOk-if (Kept vm i) (db.is_lazy && l == db.from_hash) _ _ t (
        OnOk-if (Kept vm i) (db.is_lazy && is_hash db.to_hash l) _ _ t
          (read_account-Tracked ready address l db t))
