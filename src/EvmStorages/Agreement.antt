-- ===== src/EvmStorages/Agreement.antt =====
-- The first transaction of a block reads the same as a sequential execution.
use parallel_execution.Common.{
  ℕ, ◌+◌, ◌%◌, ◌^◌, ◌≡◌, ◌⊎◌, refl, ap, ◌∙◌, false, Option, none, some, List, [], ◌∷◌, ◌==◌, arith,
  inl, inr, Bool-cases,
}
use parallel_execution.Types.{ReadOrigin, storage}
use parallel_execution.MvMemory.{ReadSet, AccountBasic, tree_at, next_back}
use parallel_execution.Vm.Types.{
  Vm, VmDb, Read, ◌>>=◌, ReadError, Fetched, fetched, failed, MemoryLocation,
}
use parallel_execution.Vm.Reads.{
  origins_at, set_origins, push_origin, noting, note_origin, stored_code_hash, get_code_hash,
  from_fetched,
}
use parallel_execution.Vm.Account.{
  account_or_default, is_hash, code_for, some_code, stored_code, read_code_hash, finish_account,
  finish, settle_with, read_account,
}
use parallel_execution.Vm.Descent.{start_walk, stopped, walk, apply_additions}
use parallel_execution.Finalize.Exact.{InRange}
use parallel_execution.EvmStorages.Wrapper.{
  Wrapped, bind, wrap, valid, transposed, code_ref, info_ref, basic_ref,
}

-- Everything that was read came from the storage.
abbrev pub StorageOnly : ReadSet → Type 0
StorageOnly [] = Unit {0}
StorageOnly ((l, os) ∷ rs) = (os ≡ storage ∷ []) × StorageOnly rs

origins_at-cases :
    (l : ℕ) (rs : ReadSet)
    → StorageOnly rs
    → (origins_at l rs ≡ []) ⊎ (origins_at l rs ≡ storage ∷ [])
origins_at-cases l [] h = inl refl
origins_at-cases l ((k, os) ∷ rs) (e, h) = elim (Bool-cases (k == l)) [
  | inl same ↦ rw same (inr e)
  | inr other ↦ rw other (origins_at-cases l rs h)
]

set_origins-StorageOnly :
    (l : ℕ) (rs : ReadSet) → StorageOnly rs → StorageOnly (set_origins l (storage ∷ []) rs)
unfolding set_origins
set_origins-StorageOnly l [] h = (refl, tt)
set_origins-StorageOnly l ((k, os) ∷ rs) (e, h) = elim (Bool-cases (k == l)) [
  | inl same ↦ rw same (refl, h)
  | inr other ↦ rw other (e, set_origins-StorageOnly l rs h)
]

-- Both reads give the same value or the same error, and a value leaves the read set as it should be.
abbrev pub Agrees : {A : Type 0} → Read A → Wrapped A → Type 0
Agrees (Read.ok a db) (Wrapped.ok b) = (a ≡ b) × StorageOnly db.read_set
Agrees (Read.ok a db) (Wrapped.storage_error s) = ⊥
Agrees (Read.ok a db) Wrapped.invalid_bytecode = ⊥
Agrees (Read.err e) (Wrapped.ok b) = ⊥
Agrees (Read.err e) (Wrapped.storage_error s) = e ≡ ReadError.storage_error s
Agrees (Read.err e) Wrapped.invalid_bytecode = e ≡ ReadError.invalid_bytecode

Agrees-noting :
    {A : Type 0} (db : VmDb) (l : ℕ) (os : List ReadOrigin) (k : VmDb → Read A) (w : Wrapped A)
    → (os ≡ []) ⊎ (os ≡ storage ∷ [])
    → StorageOnly db.read_set
    → ((db' : VmDb) → StorageOnly db'.read_set → Agrees (k db') w)
    → Agrees (noting db l (push_origin os storage) k) w
unfolding push_origin
Agrees-noting db l os k w (inl e) h next = rw e (next _ (set_origins-StorageOnly l db.read_set h))
Agrees-noting db l os k w (inr e) h next = rw e (next _ (set_origins-StorageOnly l db.read_set h))

pub Agrees-note_origin :
    {A : Type 0} (db : VmDb) (l : ℕ) (k : VmDb → Read A) (w : Wrapped A)
    → StorageOnly db.read_set
    → ((db' : VmDb) → StorageOnly db'.read_set → Agrees (k db') w)
    → Agrees (note_origin db l storage k) w
unfolding note_origin
Agrees-note_origin db l k w h next =
    Agrees-noting db l (origins_at l db.read_set) k w (origins_at-cases l db.read_set h) h next

pub Agrees-fetched :
    {A : Type 0} (f : Fetched A) (db : VmDb)
    → StorageOnly db.read_set
    → Agrees (from_fetched f db) (wrap f)
Agrees-fetched (fetched a) db h = (refl, h)
Agrees-fetched (failed s) db h = refl

Agrees-bind :
    {A B : Type 0} (r : Read A) (w : Wrapped A) (f : A → VmDb → Read B) (g : A → Wrapped B)
    → Agrees r w
    → ((a : A) (db : VmDb) → StorageOnly db.read_set → Agrees (f a db) (g a))
    → Agrees (r >>= f) (bind w g)
Agrees-bind (Read.ok a db) (Wrapped.ok b) f g (e, h) k = rw (← e) (k a db h)
Agrees-bind (Read.ok a db) (Wrapped.storage_error s) f g h k = absurd h
Agrees-bind (Read.ok a db) Wrapped.invalid_bytecode f g h k = absurd h
Agrees-bind (Read.err e) (Wrapped.ok b) f g h k = absurd h
Agrees-bind (Read.err e) (Wrapped.storage_error s) f g h k = h
Agrees-bind (Read.err e) Wrapped.invalid_bytecode f g h k = h

module _ {Code Bytecode : Type 0} (vm : Vm Code Bytecode) where
  Agrees-some_code :
      (b : Option Bytecode) (db : VmDb)
      → StorageOnly db.read_set
      → Agrees (some_code vm b db) (valid b)
  Agrees-some_code none db h = refl
  Agrees-some_code (some b) db h = (refl, h)

  Agrees-stored_code :
      (c : Option Code) (db : VmDb)
      → StorageOnly db.read_set
      → Agrees (stored_code vm c db) (transposed vm c)
  Agrees-stored_code none db h = (refl, h)
  Agrees-stored_code (some c) db h = Agrees-some_code (vm.to_bytecode c) db h

  module _ (fresh : (h : ℕ) → vm.new_bytecodes h ≡ none) where
    Agrees-code_for :
        (c : Option ℕ) (db : VmDb)
        → StorageOnly db.read_set
        → Agrees (code_for vm c db) (code_ref vm c)
    unfolding code_for
    Agrees-code_for none db h = (refl, h)
    Agrees-code_for (some c) db h = rw (fresh c) (
        Agrees-bind (from_fetched (vm.storage.code_by_hash_of c) db)
          (wrap (vm.storage.code_by_hash_of c)) (stored_code vm) (transposed vm)
          (Agrees-fetched (vm.storage.code_by_hash_of c) db h) Agrees-stored_code)

    Agrees-get_code_hash :
        (db : VmDb) (address : ℕ)
        → db.tx_idx ≡ 0
        → StorageOnly db.read_set
        → Agrees (get_code_hash vm db address) (wrap (vm.storage.code_hash_of address))
    unfolding get_code_hash next_back stored_code_hash
    Agrees-get_code_hash db address e h =
        let l = vm.hash_deterministic (MemoryLocation.code_hash address) in
        let t = tree_at vm.mv_memory.data_of l in
        let q : next_back t db.tx_idx ≡ none = ap (next_back t) e in
        rw q (
          Agrees-note_origin db l _ (wrap (vm.storage.code_hash_of address)) h
            (λ db' h'. Agrees-fetched (vm.storage.code_hash_of address) db' h'))

    -- The reading transaction is the first, and the account is neither its sender's nor its
    -- recipient's.
    abbrev Aside : VmDb → ℕ → Type 0
    Aside db l = (db.tx_idx ≡ 0) × ((l == db.from_hash) ≡ false) × (is_hash db.to_hash l ≡ false)

    module _ (address l : ℕ) where
      Agrees-finish_account :
          (db : VmDb) (x : AccountBasic)
          → Aside db l
          → StorageOnly db.read_set
          → Agrees (finish_account vm db address l x) (info_ref vm address (some x))
      unfolding finish_account read_code_hash
      Agrees-finish_account db x (e, other, away) h =
          rw (other, away)
            (Agrees-bind (get_code_hash vm db address) (wrap (vm.storage.code_hash_of address)) _ _
              (Agrees-get_code_hash db address e h)
              (λ c db' h'.
                Agrees-bind (code_for vm c db') (code_ref vm c) _ _ (Agrees-code_for c db' h')
                  (λ b db'' h''. (refl, h''))))

      no_additions : (x : AccountBasic) → InRange x → apply_additions vm.uint start_walk x ≡ x
      unfolding apply_additions
      no_additions x (b, n) =
          let balance : vm.uint.add x.balance 0 ≡ x.balance =
            omega (arith, vm.uint.add_lem x.balance 0) in
          let nonce : (x.nonce + 0) % 2 ^ 64 ≡ x.nonce = omega arith in rw (balance, nonce) refl

      Agrees-finish :
          (db : VmDb) (o : Option AccountBasic)
          → ((x : AccountBasic) → o ≡ some x → InRange x)
          → Aside db l
          → StorageOnly db.read_set
          → Agrees
              (finish vm db address l start_walk (account_or_default 0 o))
              (info_ref vm address o)
      Agrees-finish db none r a h = (refl, h)
      Agrees-finish db (some x) r a h =
          rw (no_additions x (r x refl)) (Agrees-finish_account db x a h)

      -- The storage's accounts fit their types.
      module _
          (fits : (x : AccountBasic)
            → vm.storage.basic_of address ≡ fetched (some x)
            → InRange x) where
        Agrees-found :
            (db : VmDb) (f : Fetched (Option AccountBasic))
            → vm.storage.basic_of address ≡ f
            → Aside db l
            → StorageOnly db.read_set
            → Agrees
                (from_fetched f db >>= λ found db'.
                  finish vm db' address l start_walk (account_or_default 0 found))
                (bind (wrap f) (info_ref vm address))
        Agrees-found db (fetched o) q a h =
            Agrees-finish db o (λ x e. fits x (q ∙ ap fetched e)) a h
        Agrees-found db (failed s) q a h = refl

        Agrees-settle_with :
            (db : VmDb) (prev : List ReadOrigin)
            → (prev ≡ []) ⊎ (prev ≡ storage ∷ [])
            → Aside db l
            → StorageOnly db.read_set
            → Agrees (settle_with vm db address l prev start_walk none) (basic_ref vm address)
        unfolding basic_ref
        Agrees-settle_with db prev (inl e) a h = rw e (
            Agrees-found (record db { read_set = set_origins l (storage ∷ []) db.read_set })
              (vm.storage.basic_of address) refl a (set_origins-StorageOnly l db.read_set h))
        Agrees-settle_with db prev (inr e) a h =
            rw e (Agrees-found db (vm.storage.basic_of address) refl a h)

        -- The account read agrees with that of the sequential execution.
        pub read_account-basic_ref :
            (db : VmDb)
            → Aside db l
            → StorageOnly db.read_set
            → Agrees (read_account vm db address l) (basic_ref vm address)
        unfolding read_account walk
        read_account-basic_ref db a h =
            let prev = origins_at l db.read_set in
            let walked : walk vm.uint (tree_at vm.mv_memory.data_of l) prev db.tx_idx start_walk
                ≡ stopped start_walk =
              ap (λ n. walk vm.uint (tree_at vm.mv_memory.data_of l) prev n start_walk) a.0 in
            rw walked (Agrees-settle_with db prev (origins_at-cases l db.read_set h) a h)
