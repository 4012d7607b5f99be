-- ===== src/Perpdex/Partition.antt =====
-- The partition of location hashes (crates/pevm/src/perpdex/state_traits.rs) and its use in
-- crates/pevm/src/perpdex/state.rs. A mask of the low bits is a remainder, a shift is a product or a
-- quotient, and an `|` of parts without a common bit is a sum.
use parallel_execution.Common.{ℕ, ◌+◌, ◌*◌, ◌/◌, ◌%◌, ◌^◌, ◌≡◌, ◌<◌, arith}
use parallel_execution.Perpdex.State.{Location}

-- `PartitionId`, a byte.
abbrev pub evm : ℕ
evm = 0

abbrev pub wasm : ℕ
wasm = 1

abbrev pub perpdex : ℕ
perpdex = 2

-- `PartitionId::mix_hash`
unfoldable pub mix_hash : ℕ → ℕ → ℕ
mix_hash partition base_hash = partition * 2 ^ 56 % 2 ^ 64 + base_hash % 2 ^ 56

-- `PartitionId::from_hash`
unfoldable pub from_hash : ℕ → ℕ
from_hash mixed_hash = mixed_hash / 2 ^ 56 % 256

-- `StateLocation::location_hash`; the hash of the fields is of a third-party crate.
unfoldable pub location_hash : (Location → ℕ) → Location → ℕ
unfolding mix_hash
location_hash hash l = mix_hash perpdex (hash l)

-- A mixed hash fits 64 bits, and says which partition and which low 56 bits it is of. The
-- partition is a byte.
pub from_hash-mix_hash :
    (p h : ℕ)
    → p < 256
    → (mix_hash p h < 2 ^ 64)
      × (from_hash (mix_hash p h) ≡ p)
      × (mix_hash p h % 2 ^ 56 ≡ h % 2 ^ 56)
unfolding mix_hash from_hash
from_hash-mix_hash p h lt = (omega arith, omega arith, omega arith)
