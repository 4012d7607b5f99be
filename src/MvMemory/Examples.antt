-- ===== src/MvMemory/Examples.antt =====
-- A block of three transactions over one location.
use parallel_execution.Common.{ℕ, ◌≡◌, ◌↔◌, refl, true, none, [], ◌∷◌, arith}
use parallel_execution.Types.{TxVersion, mv_memory, storage}
use parallel_execution.MvMemory.{
  MvMemory, stored, tree_at, has, writes_to, ReadSet, WriteSet, validate_read_locations,
  record_sets, convert_writes_to_estimates, remove_old, register, check_reads, check_location,
  check_origins, next_back,
}
use parallel_execution.MvMemory.Validation.{AllReread, validate_read_locations_iff}
use parallel_execution.MvMemory.Writes.{higher_writes}
use parallel_execution.MvMemory.Record.{record_sets_lem, Fresh, entry_of, last_write}

abbrev version : ℕ → TxVersion
version i = record { tx_idx = i; tx_incarnation = 0 }

abbrev empty : MvMemory
empty = record { data_of = λ l. none; last_locations = λ i. record { read = []; write = [] } }

abbrev writes : WriteSet
writes = (9, stored 5) ∷ []

-- Transaction 0 writes to location 9, and transaction 1 reads what it wrote.
abbrev first : MvMemory
first = (record_sets empty (version 0) ((9, storage ∷ []) ∷ []) writes).0

abbrev reads : ReadSet
reads = (9, mv_memory (version 0) ∷ []) ∷ (8, storage ∷ []) ∷ []

abbrev second : MvMemory
second = (record_sets first (version 1) reads []).0

record_sets_lem_example :
    ((l : ℕ)
      → tree_at (record_sets empty (version 0) [] writes).0.data_of l 0
        ≡ entry_of 0 (last_write l writes))
    × ((l : ℕ)
        → has l ((record_sets empty (version 0) [] writes).0.last_locations 0).write
          ≡ writes_to l writes)
    × (((record_sets empty (version 0) [] writes).1 ≡ true) ↔ Fresh [] writes)
record_sets_lem_example = record_sets_lem empty (version 0) [] writes (λ l h. refl)

validate_read_locations_iff_example : (true ≡ true) ↔ AllReread second.data_of 1 reads
unfolding record_sets remove_old register validate_read_locations check_reads check_location
    check_origins next_back
validate_read_locations_iff_example = validate_read_locations_iff second 1 (tt, (tt, tt))

higher_writes_example :
    (validate_read_locations (record_sets second (version 2) [] writes).0 1
      ≡ validate_read_locations second 1)
    × (validate_read_locations (convert_writes_to_estimates second 1) 1
        ≡ validate_read_locations second 1)
unfolding record_sets
higher_writes_example =
    higher_writes second 1 (version 2) [] writes 1 (tt, (tt, tt)) (omega arith) (omega arith)
