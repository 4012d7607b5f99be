-- ===== src/Perpdex/PartitionExamples.antt =====
-- Concrete hashes of locations.
use parallel_execution.Common.{◌+◌, ◌%◌, ◌^◌, ◌≡◌, ◌<◌, arith}
use parallel_execution.Perpdex.Partition.{wasm, mix_hash, from_hash, from_hash-mix_hash}

from_hash-mix_hash_example :
    (mix_hash wasm (2 ^ 60 + 5) < 2 ^ 64)
    × (from_hash (mix_hash wasm (2 ^ 60 + 5)) ≡ wasm)
    × (mix_hash wasm (2 ^ 60 + 5) % 2 ^ 56 ≡ (2 ^ 60 + 5) % 2 ^ 56)
from_hash-mix_hash_example = from_hash-mix_hash wasm (2 ^ 60 + 5) (omega arith)
