-- ===== src/MvMemory/Fresh.antt =====
-- The memory at the start of a block: `MvMemory::new`, and `build_mv_memory` of the Ethereum chain
-- (crates/pevm/src/chain/ethereum.rs).
use parallel_execution.Common.{
  ℕ, zero, suc, ◌≡◌, ◌<◌, refl, ap, ◌∙◌, true, Option, none, some, List, [], ◌∷◌, ◌++◌, ◌==◌,
  update, arith, inl, inr, Bool-cases, if◌then◌else◌, update_self,
}
use parallel_execution.MvMemory.Removal.{has-append}
use parallel_execution.MvMemory.{MvMemory, estimate, Tree, tree_of, tree_at, has, LastLocations}

-- `LastLocations::default()`
abbrev pub no_locations : LastLocations
no_locations = record { read = []; write = [] }

-- `collect` of the estimates of a location.
abbrev pub estimated_tree : List ℕ → Tree
estimated_tree idxs i = if has i idxs then some estimate else none

-- The loop over the estimated locations.
unfoldable pub insert_estimates : List (ℕ × List ℕ) → (ℕ → Option Tree) → ℕ → Option Tree
insert_estimates [] d = d
insert_estimates ((l, idxs) ∷ rest) d =
    insert_estimates rest (update d l (some (estimated_tree idxs)))

-- `MvMemory::new`, without its lazy addresses.
unfoldable pub new : List (ℕ × List ℕ) → MvMemory
unfolding insert_estimates
new estimated_locations = record {
  data_of = insert_estimates estimated_locations (λ l. none);
  last_locations = λ i. no_locations;
}

-- `0..n`
unfoldable pub range : ℕ → List ℕ
range zero = []
range (suc n) = range n ++ n ∷ []

-- `build_mv_memory` of the Ethereum chain: the beneficiary is estimated in every transaction.
unfoldable pub build_mv_memory : ℕ → ℕ → MvMemory
unfolding new range
build_mv_memory beneficiary_location_hash block_size =
    new ((beneficiary_location_hash, range block_size) ∷ [])

has-range : (i n : ℕ) → i < n → has i (range n) ≡ true
unfolding range
has-range i zero lt = absurd (omega arith)
has-range i (suc n) lt = elim (Bool-cases (n == i)) [
  | inl same ↦ ground (arith, has-append i (range n) (n ∷ []))
  | inr other ↦
      let before = has-range i n (ground arith) in ground (arith, has-append i (range n) (n ∷ []))
]

-- At the start every transaction of the block is estimated to write to the beneficiary.
pub build_mv_memory_estimate :
    (l n i : ℕ) → i < n → tree_at (build_mv_memory l n).data_of l i ≡ some estimate
unfolding build_mv_memory new insert_estimates
build_mv_memory_estimate l n i lt =
    ap (λ o. tree_of o i) (update_self (λ k. none) l (some (estimated_tree (range n))))
    ∙ rw (has-range i n lt) refl
