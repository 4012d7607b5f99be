-- ===== src/MvMemory.antt =====
-- The multi-version memory (crates/pevm/src/mv_memory.rs), without the codes that a block deploys. A
-- location is its hash; the tree of a location is a function of the transaction, and a map of trees
-- a function of the location.
pub mod Origins
pub mod Validation
pub mod Writes
pub mod Removal
pub mod Record
pub mod Fresh
mod Examples
use parallel_execution.Common.{
  ℕ, zero, suc, Bool, true, false, Option, none, some, List, [], ◌∷◌, ◌++◌, if◌then◌else◌, ◌==◌,
  ◌||◌, not, length, update,
}
use parallel_execution.Types.{TxVersion, ReadOrigin, mv_memory, storage}

-- `AccountBasic`
pub record AccountBasic : Type 0 where
  pub balance : ℕ
  pub nonce : ℕ

-- `MemoryValue`
pub data MemoryValue : Type 0 where
  basic : AccountBasic → MemoryValue
  code_hash : ℕ → MemoryValue
  stored : ℕ → MemoryValue
  lazy_recipient : ℕ → MemoryValue
  lazy_sender : ℕ → MemoryValue
  self_destructed : MemoryValue

-- `MemoryEntry`
pub data MemoryEntry : Type 0 where
  written : (tx_incarnation : ℕ) → MemoryValue → MemoryEntry
  estimate : MemoryEntry

abbrev pub Tree : Type 0
Tree = ℕ → Option MemoryEntry

abbrev pub empty_tree : Tree
empty_tree i = none

-- `ReadSet` and `WriteSet`
abbrev pub ReadSet : Type 0
ReadSet = List (ℕ × List ReadOrigin)

abbrev pub WriteSet : Type 0
WriteSet = List (ℕ × MemoryValue)

-- `LastLocations`
pub record LastLocations : Type 0 where
  pub read : ReadSet
  pub write : List ℕ

pub record MvMemory : Type 0 where
  pub data_of : ℕ → Option Tree
  pub last_locations : ℕ → LastLocations

abbrev pub has : ℕ → List ℕ → Bool
has l [] = false
has l (k ∷ ks) = k == l || has l ks

abbrev pub writes_to : ℕ → WriteSet → Bool
writes_to l [] = false
writes_to l ((k, v) ∷ w) = k == l || writes_to l w

abbrev pub tree_of : Option Tree → Tree
tree_of none = empty_tree
tree_of (some t) = t

-- The entries of a location, none if it has no tree.
abbrev pub tree_at : (ℕ → Option Tree) → ℕ → Tree
tree_at d l = tree_of (d l)

abbrev pub set_in : (ℕ → Option Tree) → ℕ → ℕ → Option MemoryEntry → Option Tree → ℕ → Option Tree
set_in d l i e none = d
set_in d l i e (some t) = update d l (some (update t i e))

-- `get_mut(location)` and an update of the entry of one transaction, if there is a tree.
abbrev pub set_entry : (ℕ → Option Tree) → ℕ → ℕ → Option MemoryEntry → ℕ → Option Tree
set_entry d l i e = set_in d l i e (d l)

-- `entry(location).or_default().insert(tx_idx, …)`
abbrev pub insert_entry : (ℕ → Option Tree) → ℕ → ℕ → MemoryEntry → ℕ → Option Tree
insert_entry d l i e = update d l (some (update (tree_at d l) i (some e)))

-- What `swap_remove` leaves of the part of the list from the removed element on.
abbrev pub last_of : ℕ → List ℕ → ℕ
last_of x [] = x
last_of x (y ∷ ys) = last_of y ys

abbrev pub init_of : ℕ → List ℕ → List ℕ
init_of x [] = []
init_of x (y ∷ ys) = x ∷ init_of y ys

abbrev pub swap_last : List ℕ → List ℕ
swap_last [] = []
swap_last (x ∷ xs) = last_of x xs ∷ init_of x xs

-- "Remove old locations that aren't written to anymore": the locations before the index, and those
-- from it on. Each round takes one of the latter, so their number is enough fuel.
unfoldable pub remove_old :
    ℕ → ℕ → WriteSet → (ℕ → Option Tree) → List ℕ → List ℕ → (ℕ → Option Tree) × List ℕ
remove_old zero i ws d kept rest = (d, kept ++ rest)
remove_old (suc fuel) i ws d kept [] = (d, kept)
remove_old (suc fuel) i ws d kept (l ∷ rest) = elim (writes_to l ws) [
  | true ↦ remove_old fuel i ws d (kept ++ l ∷ []) rest
  | false ↦ remove_old fuel i ws (set_entry d l i none) kept (swap_last rest)
]

-- "Register new writes", with whether a new location was written to.
unfoldable pub register :
    TxVersion → WriteSet → (ℕ → Option Tree) → List ℕ → Bool → (ℕ → Option Tree) × List ℕ × Bool
register v [] d ls new = (d, ls, new)
register v ((l, x) ∷ ws) d ls new =
    let d' = insert_entry d l v.tx_idx (written v.tx_incarnation x) in
    elim (has l ls) [
      | true ↦ register v ws d' ls new
      | false ↦ register v ws d' (ls ++ l ∷ []) true
    ]

unfoldable pub record_sets : MvMemory → TxVersion → ReadSet → WriteSet → MvMemory × Bool
unfolding remove_old register
record_sets m v rs ws =
    let old = (m.last_locations v.tx_idx).write in
    let (d, kept) = remove_old (length old) v.tx_idx ws m.data_of [] old in
    let (d', ls, new) = register v ws d kept false in
    (
      record {
        data_of = d';
        last_locations = update m.last_locations v.tx_idx (record { read = rs; write = ls });
      },
      new,
    )

abbrev pub entry_or : ℕ → Option MemoryEntry → Option (ℕ × MemoryEntry) → Option (ℕ × MemoryEntry)
entry_or b (some e) rest = some (b, e)
entry_or b none rest = rest

-- `iter.next_back()` of the entries below `bound`.
unfoldable pub next_back : Tree → ℕ → Option (ℕ × MemoryEntry)
next_back t zero = none
next_back t (suc b) = entry_or b (t b) (next_back t b)

-- "Found something: Must match version."
abbrev pub match_version : TxVersion → Option (ℕ × MemoryEntry) → (ℕ → Bool) → Bool
match_version v none rest = false
match_version v (some (i, estimate)) rest = false
match_version v (some (i, written k x)) rest =
    if not (i == v.tx_idx) || not (v.tx_incarnation == k) then false else rest i

-- "Read from storage but there is now something in between!"
abbrev pub none_left : Option (ℕ × MemoryEntry) → Bool → Bool
none_left none rest = rest
none_left (some _) rest = false

-- The loop over the origins of one location; the iterator stands below `bound`.
unfoldable pub check_origins : Tree → ℕ → List ReadOrigin → Bool
unfolding next_back
check_origins t bound [] = true
check_origins t bound (mv_memory v ∷ os) =
    match_version v (next_back t bound) (λ i. check_origins t i os)
check_origins t bound (storage ∷ os) = none_left (next_back t bound) (check_origins t 0 os)

abbrev pub only_storage : List ReadOrigin → Bool
only_storage (storage ∷ []) = true
only_storage _ = false

-- The body of the loop over the read set.
unfoldable pub check_location : MvMemory → ℕ → ℕ → List ReadOrigin → Bool
unfolding check_origins
check_location m i l os = elim (m.data_of l) [
  | some t ↦ check_origins t i os
  | none ↦ only_storage os
]

unfoldable pub check_reads : MvMemory → ℕ → ReadSet → Bool
unfolding check_location
check_reads m i [] = true
check_reads m i ((l, os) ∷ rs) =
    let rest = check_reads m i rs in if check_location m i l os then rest else false

unfoldable pub validate_read_locations : MvMemory → ℕ → Bool
unfolding check_reads
validate_read_locations m i = check_reads m i (m.last_locations i).read

unfoldable pub mark_estimates : ℕ → List ℕ → (ℕ → Option Tree) → ℕ → Option Tree
mark_estimates i [] d = d
mark_estimates i (l ∷ ls) d = mark_estimates i ls (set_entry d l i (some estimate))

unfoldable pub convert_writes_to_estimates : MvMemory → ℕ → MvMemory
unfolding mark_estimates
convert_writes_to_estimates m i = record m {
  data_of = mark_estimates i (m.last_locations i).write m.data_of;
}
