-- ===== src/MvMemory/Writes.antt =====
-- What the operations of the multi-version memory do to its entries.
use parallel_execution.Common.{
  ℕ, zero, suc, ◌≡◌, ◌<◌, ◌≤◌, ◌≢◌, refl, sym, ap, ◌∙◌, Bool, true, false, Option, none, some, List,
  [], ◌∷◌, ◌++◌, ◌==◌, ==_iff, arith, inl, inr, Bool-cases, update, update_ne, length,
}
use parallel_execution.Types.{TxVersion}
use parallel_execution.MvMemory.{
  Tree, tree_of, set_in, ReadSet, WriteSet, MvMemory, MemoryEntry, written, estimate, tree_at, has,
  writes_to, set_entry, insert_entry, swap_last, remove_old, register, record_sets,
  validate_read_locations, mark_estimates, convert_writes_to_estimates,
}
use parallel_execution.MvMemory.Validation.{AllChains, same_below}

abbrev pub Data : Type 0
Data = ℕ → Option Tree

-- Only the entries of transaction `i` may differ.
abbrev pub Only : ℕ → Data → Data → Type 0
Only i d e = (l j : ℕ) → j ≢ i → tree_at e l j ≡ tree_at d l j

pub hit : {A : Type 0} (f : ℕ → A) (i : ℕ) (a : A) (j : ℕ) → j ≡ i → update f i a j ≡ a
hit f i a j e = ground arith

pub differ : (a b : ℕ) → (a == b) ≡ false → a ≢ b
differ a b h e = ground arith

-- A new tree for one location, which differs from the old at most at `i`.
tree-Only :
    (d : Data) (k i : ℕ) (u : Tree)
    → ((j : ℕ) → j ≢ i → u j ≡ tree_at d k j)
    → Only i d (update d k (some u))
tree-Only d k i u h l j ne = elim (Bool-cases (l == k)) [
  | inl same ↦
      let e = (==_iff l k).0 same in
      ap (λ o. tree_of o j) (hit d k (some u) l e) ∙ (h j ne ∙ ap (λ z. tree_at d z j) (sym e))
  | inr other ↦ ap (λ o. tree_of o j) (update_ne d k (some u) l (differ l k other))
]

set_in-Only :
    (d : Data) (k i : ℕ) (x : Option MemoryEntry) (o : Option Tree)
    → d k ≡ o
    → Only i d (set_in d k i x o)
set_in-Only d k i x none q = λ l j ne. refl
set_in-Only d k i x (some t) q =
    tree-Only d k i (update t i x) (λ j ne. update_ne t i x j ne ∙ sym (ap (λ o. tree_of o j) q))

set_entry-Only : (d : Data) (k i : ℕ) (x : Option MemoryEntry) → Only i d (set_entry d k i x)
set_entry-Only d k i x = set_in-Only d k i x (d k) refl

insert_entry-Only : (d : Data) (k i : ℕ) (x : MemoryEntry) → Only i d (insert_entry d k i x)
insert_entry-Only d k i x =
    tree-Only d k i (update (tree_at d k) i (some x))
      (λ j ne. update_ne (tree_at d k) i (some x) j ne)

remove_old-Only :
    (fuel i : ℕ) (ws : WriteSet) (d : Data) (kept rest : List ℕ)
    → Only i d (remove_old fuel i ws d kept rest).0
unfolding remove_old
remove_old-Only zero i ws d kept rest = λ l j ne. refl
remove_old-Only (suc fuel) i ws d kept [] = λ l j ne. refl
remove_old-Only (suc fuel) i ws d kept (k ∷ rest) = elim (Bool-cases (writes_to k ws)) [
  | inl b ↦ rw (b, remove_old) (remove_old-Only fuel i ws d (kept ++ k ∷ []) rest)
  | inr b ↦
      rw (b, remove_old)
        (λ l j ne.
          remove_old-Only fuel i ws (set_entry d k i none) kept (swap_last rest) l j ne
          ∙ set_entry-Only d k i none l j ne)
]

-- One more write registered.
register-Only :
    (v : TxVersion) (ws : WriteSet) (d : Data) (ls : List ℕ) (new : Bool)
    → Only v.tx_idx d (register v ws d ls new).0
unfolding register
register-Only v [] d ls new = λ l j ne. refl
register-Only v ((k, x) ∷ ws) d ls new =
    let here = insert_entry-Only d k v.tx_idx (written v.tx_incarnation x) in
    let d' = insert_entry d k v.tx_idx (written v.tx_incarnation x) in
    elim (Bool-cases (has k ls)) [
      | inl b ↦ rw (b, register) (λ l j ne. register-Only v ws d' ls new l j ne ∙ here l j ne)
      | inr b ↦
          rw (b, register)
            (λ l j ne. register-Only v ws d' (ls ++ k ∷ []) true l j ne ∙ here l j ne)
    ]

mark_estimates-Only : (i : ℕ) (ls : List ℕ) (d : Data) → Only i d (mark_estimates i ls d)
unfolding mark_estimates
mark_estimates-Only i [] d = λ l j ne. refl
mark_estimates-Only i (k ∷ ls) d = λ l j ne.
    mark_estimates-Only i ls (set_entry d k i (some estimate)) l j ne
    ∙ set_entry-Only d k i (some estimate) l j ne

pub record_sets-Only :
    (m : MvMemory) (v : TxVersion) (rs : ReadSet) (ws : WriteSet)
    → Only v.tx_idx m.data_of (record_sets m v rs ws).0.data_of
unfolding record_sets
record_sets-Only m v rs ws l j ne =
    let old = (m.last_locations v.tx_idx).write in
    let (d, kept) = remove_old (length old) v.tx_idx ws m.data_of [] old in
    register-Only v ws d kept false l j ne
    ∙ remove_old-Only (length old) v.tx_idx ws m.data_of [] old l j ne

record_sets_read :
    (m : MvMemory) (v : TxVersion) (rs : ReadSet) (ws : WriteSet) (i : ℕ)
    → i ≢ v.tx_idx
    → ((record_sets m v rs ws).0.last_locations i) ≡ m.last_locations i
unfolding record_sets
record_sets_read m v rs ws i ne = update_ne m.last_locations v.tx_idx _ i ne

-- The outcome of the check of a transaction depends on no higher one: neither recording an
-- execution of a higher transaction, nor turning its writes, or the transaction's own, into
-- estimates, changes it. The transaction's recorded origins are versions, followed perhaps by the
-- storage.
pub higher_writes :
    (m : MvMemory) (i : ℕ) (v : TxVersion) (rs : ReadSet) (ws : WriteSet) (j : ℕ)
    → AllChains (m.last_locations i).read
    → i < v.tx_idx
    → i ≤ j
    → (validate_read_locations (record_sets m v rs ws).0 i ≡ validate_read_locations m i)
      × (validate_read_locations (convert_writes_to_estimates m j) i ≡ validate_read_locations m i)
unfolding convert_writes_to_estimates
higher_writes m i v rs ws j c lt le = (
  same_below m (record_sets m v rs ws).0 i c
      (ap (λ l. l.read) (sym (record_sets_read m v rs ws i (λ e. omega arith))))
      (λ l k lk. sym (record_sets-Only m v rs ws l k (λ e. omega arith))),
  same_below m (convert_writes_to_estimates m j) i c refl (λ l k lk.
      sym (mark_estimates-Only j (m.last_locations j).write m.data_of l k (λ e. omega arith))),
)
