-- ===== src/MvMemory/Validation.antt =====
-- What `validate_read_locations` decides.
use parallel_execution.Common.{
  ℕ, ◌≡◌, ◌<◌, ◌↔◌, refl, sym, ◌∙◌, Bool, true, false, Option, none, some, List, [], ◌∷◌, arith,
}
use parallel_execution.Types.{ReadOrigin, mv_memory, storage}
use parallel_execution.MvMemory.{
  Tree, tree_of, empty_tree, ReadSet, MvMemory, tree_at, only_storage, check_origins,
  check_location, check_reads, validate_read_locations,
}
use parallel_execution.MvMemory.Origins.{Rereads, check_origins_iff}

-- The shape of the origins that a read records: versions, and at the end perhaps the storage.
abbrev pub IsChain : List ReadOrigin → Type 0
IsChain [] = ⊥
IsChain (storage ∷ []) = Unit {0}
IsChain (storage ∷ o ∷ os) = ⊥
IsChain (mv_memory v ∷ []) = Unit {0}
IsChain (mv_memory v ∷ o ∷ os) = IsChain (o ∷ os)

abbrev pub AllChains : ReadSet → Type 0
AllChains [] = Unit {0}
AllChains ((l, os) ∷ rs) = IsChain os × AllChains rs

-- Reading each location again finds what was recorded.
abbrev pub AllReread : (ℕ → Option Tree) → ℕ → ReadSet → Type 0
AllReread d i [] = Unit {0}
AllReread d i ((l, os) ∷ rs) = Rereads (tree_at d l) i os × AllReread d i rs

only_storage_iff :
    (i : ℕ) (os : List ReadOrigin) → IsChain os → (only_storage os ≡ true) ↔ Rereads empty_tree i os
only_storage_iff i [] c = absurd c
only_storage_iff i (storage ∷ []) c = (λ _. (λ j lo hi. refl, tt), λ _. refl)
only_storage_iff i (storage ∷ o ∷ os) c = absurd c
only_storage_iff i (mv_memory v ∷ os) c = (λ h. absurd cc, λ (lt, (x, at), gap, more). absurd cc)

tree_iff :
    (i : ℕ) (os : List ReadOrigin) (o : Option Tree)
    → IsChain os
    → ((elim o [ some t ↦ check_origins t i os | none ↦ only_storage os ]) ≡ true)
      ↔ Rereads (tree_of o) i os
tree_iff i os none c = only_storage_iff i os c
tree_iff i os (some t) c = check_origins_iff t i os

check_location_iff :
    (m : MvMemory) (i l : ℕ) (os : List ReadOrigin)
    → IsChain os
    → (check_location m i l os ≡ true) ↔ Rereads (tree_at m.data_of l) i os
unfolding check_location
check_location_iff m i l os c = tree_iff i os (m.data_of l) c

check_reads_iff :
    (m : MvMemory) (i : ℕ) (rs : ReadSet)
    → AllChains rs
    → (check_reads m i rs ≡ true) ↔ AllReread m.data_of i rs
unfolding check_reads
check_reads_iff m i [] c = (λ _. tt, λ _. refl)
check_reads_iff m i ((l, os) ∷ rs) (c, cs) =
    let one = check_location_iff m i l os c in
    let more = check_reads_iff m i rs cs in
    (
      λ h.
          let a : check_location m i l os ≡ true = ground arith in
          let b : check_reads m i rs ≡ true = ground arith in (one.0 a, more.0 b),
      λ (a, b). let a' = one.1 a in let b' = more.1 b in ground arith,
    )

-- The check of a read set succeeds if and only if reading each of its locations again, below the
-- transaction, finds the recorded origins: for a version, the highest entry is data that it wrote,
-- and is not an estimate; for the storage, there is no entry. The recorded origins are versions,
-- followed perhaps by the storage.
pub validate_read_locations_iff :
    (m : MvMemory) (tx_idx : ℕ)
    → AllChains (m.last_locations tx_idx).read
    → (validate_read_locations m tx_idx ≡ true)
      ↔ AllReread m.data_of tx_idx (m.last_locations tx_idx).read
unfolding validate_read_locations
validate_read_locations_iff m i c = check_reads_iff m i (m.last_locations i).read c

-- The same entries below `bound` answer the same.
pub Rereads-below :
    (t u : Tree) (bound : ℕ) (os : List ReadOrigin)
    → ((j : ℕ) → j < bound → t j ≡ u j)
    → Rereads t bound os
    → Rereads u bound os
Rereads-below t u bound [] same h = tt
Rereads-below t u bound (mv_memory v ∷ os) same (lt, (x, at), gap, more) = (
  lt,
  (x, sym (same v.tx_idx lt) ∙ at),
  λ j lo hi. sym (same j hi) ∙ gap j lo hi,
  Rereads-below t u v.tx_idx os (λ j hi. same j (omega arith)) more,
)
Rereads-below t u bound (storage ∷ os) same (gap, more) = (
  λ j lo hi. sym (same j hi) ∙ gap j lo hi,
  Rereads-below t u 0 os (λ j hi. same j (omega arith)) more,
)

pub AllReread-below :
    (d e : ℕ → Option Tree) (i : ℕ) (rs : ReadSet)
    → ((l j : ℕ) → j < i → tree_at d l j ≡ tree_at e l j)
    → AllReread d i rs
    → AllReread e i rs
AllReread-below d e i [] same h = tt
AllReread-below d e i ((l, os) ∷ rs) same (a, b) =
    (Rereads-below (tree_at d l) (tree_at e l) i os (same l) a, AllReread-below d e i rs same b)

same_truth : (a b : Bool) → (a ≡ true → b ≡ true) → (b ≡ true → a ≡ true) → a ≡ b
same_truth true b f g = sym (f refl)
same_truth false true f g = g refl
same_truth false false f g = refl

-- Memories that agree on the read set of a transaction and on all entries below it.
pub same_below :
    (m n : MvMemory) (i : ℕ)
    → AllChains (m.last_locations i).read
    → (m.last_locations i).read ≡ (n.last_locations i).read
    → ((l j : ℕ) → j < i → tree_at m.data_of l j ≡ tree_at n.data_of l j)
    → validate_read_locations n i ≡ validate_read_locations m i
same_below m n i c e same =
    let here = validate_read_locations_iff m i c in
    let there = validate_read_locations_iff n i (rw e at c) in
    same_truth (validate_read_locations n i) (validate_read_locations m i)
      (λ h. here.1 (
        rw e (
          AllReread-below n.data_of m.data_of i (n.last_locations i).read
            (λ l j lt. sym (same l j lt)) (there.0 h))))
      (λ h. there.1 (
        rw (← e) (AllReread-below m.data_of n.data_of i (m.last_locations i).read same (here.0 h))))
