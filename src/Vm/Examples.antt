-- ===== src/Vm/Examples.antt =====
-- Concrete runs of the adapter.
use parallel_execution.Common.{
  ℕ, ◌+◌, ◌*◌, ◌==◌, ◌≡◌, ◌<◌, ◌≢◌, refl, true, false, Option, none, some, [], ◌∷◌, arith, inl, inr,
  Bool-cases,
}
use parallel_execution.MvMemory.{
  validate_read_locations, next_back, record_sets, register, remove_old,
}
use parallel_execution.Vm.Types.{from_read_error}
use parallel_execution.Vm.Reads.{
  new, get_code_hash, stored_code_hash, note_origin, push_origin, set_origins,
}
use parallel_execution.Vm.Account.{
  basic, read_account, hash_basic, finish_account, read_code_hash, code_for,
}
use parallel_execution.Vm.Descent.{walk, add_recipient, add_sender, apply_additions}
use parallel_execution.Vm.WriteSet.{
  deploy, write_set_of, account_writes, basic_writes, touched_writes,
}
use parallel_execution.Vm.Rewards.{L1, rewards, apply_each, apply_reward, credit, gas_price}
use parallel_execution.Vm.Execute.{
  Executed, Shared, execute, transitions, add_lazy_addresses, from_account, from_evm_error,
  record_execution,
}
use parallel_execution.Vm.Executed.{execute-validate_read_locations}
use parallel_execution.Vm.BlockedExecution.{execute_blocked}
use parallel_execution.Vm.RewardValue.{Gains, apply_reward-Gains}
use parallel_execution.Vm.Trace.{in_full, walk_trace}
use parallel_execution.MvMemory.{MemoryValue, WriteSet}
use parallel_execution.MvMemory.Record.{last_write, entry_of}
use parallel_execution.MvMemory.Origins.{Rereads}
use parallel_execution.MvMemory.Validation.{IsChain}
use parallel_execution.Finalize.Exact.{value_of}
use parallel_execution.Vm.Descent.{Walk, Walked, stopped, refused, start_walk}
use parallel_execution.Vm.Concrete.{uint, account_1, aborted, reading-Refused}
use parallel_execution.MvMemory.{tree_at, written}
use parallel_execution.MvMemory.Fresh.{build_mv_memory}
use parallel_execution.Vm.Types.{Vm, ReadError, err}
use parallel_execution.Vm.Concrete.{db_2}
use parallel_execution.Vm.Beneficiary.{basic-build_mv_memory}
use parallel_execution.Vm.Paid.{execute-beneficiary}
use parallel_execution.Vm.Tracking.{CodesReady}
use parallel_execution.Vm.Session.{SameBelow}
use parallel_execution.Vm.Concrete.{
  sharing, memory_with, later_updates, vm_with, updates, tx_9, version_2, reading, reading-Session,
}

abbrev no_l1 : L1
no_l1 = record { is_deposit = false; cost = none }

abbrev ran : Executed ℕ ℕ × Shared ℕ
ran =
    execute (vm_with updates) (λ b. b) (sharing later_updates) version_2 tx_9 no_l1
      (reading updates)

ready : CodesReady (vm_with updates) 2
unfolding next_back
ready a = let e : (4 * a + 1 == 4) ≡ false = ground arith in rw e tt

-- The tree changes, but not below transaction 2.
steady : SameBelow 2 (memory_with updates) (memory_with later_updates)
steady l j lt = elim (Bool-cases (l == 4)) [
  | inl c ↦ let no : (j == 3) ≡ false = ground arith in rw (c, no) refl
  | inr c ↦ rw c refl
]

abbrev Steady : Shared ℕ → Type 0
Steady now = SameBelow 2 now.memory (memory_with later_updates)

execute-validate_read_locations_example : validate_read_locations ran.1.memory 2 ≡ true
unfolding execute new get_code_hash next_back stored_code_hash note_origin basic read_account walk
    hash_basic finish_account read_code_hash code_for deploy rewards apply_each write_set_of
    transitions record_sets register remove_old add_recipient add_sender apply_additions
    add_lazy_addresses from_account from_evm_error record_execution push_origin set_origins
    apply_reward credit gas_price from_read_error account_writes basic_writes touched_writes
execute-validate_read_locations_example =
    execute-validate_read_locations (vm_with updates) (λ b. b) (sharing later_updates) version_2
      tx_9 no_l1 (reading updates) _ _ ready steady
      (λ db db' s h. reading-Session Steady updates db db' s steady h) refl

abbrev stopped_early : Executed ℕ ℕ × Shared ℕ
stopped_early =
    execute (vm_with aborted) (λ b. b) (sharing aborted) version_2 tx_9 no_l1 (reading aborted)

execute_blocked_example : 1 < version_2.tx_idx
unfolding execute new get_code_hash next_back stored_code_hash note_origin basic read_account walk
    hash_basic finish_account read_code_hash code_for deploy rewards apply_each write_set_of
    transitions record_sets register remove_old add_recipient add_sender apply_additions
    add_lazy_addresses from_account from_evm_error record_execution push_origin set_origins
    apply_reward credit gas_price from_read_error account_writes basic_writes touched_writes
execute_blocked_example =
    execute_blocked (vm_with aborted) (λ b. b) (sharing aborted) version_2 tx_9 no_l1
      (reading aborted) 1 stopped_early.1 (reading-Refused aborted) refl

abbrev rewarded : Option WriteSet → WriteSet
rewarded none = []
rewarded (some ws) = ws

abbrev spent : WriteSet
spent = (4, MemoryValue.lazy_sender 30) ∷ (5, MemoryValue.stored 1) ∷ []

apply_reward-Gains_example :
    Gains uint 4 10 (value_of uint (entry_of 0 (last_write 4 spent)) account_1) (
      value_of uint (entry_of 0 (last_write 4 (rewarded (apply_reward uint 4 10 spent)))) account_1)
    × ((k : ℕ)
        → k ≢ 4
        → last_write k (rewarded (apply_reward uint 4 10 spent)) ≡ last_write k spent)
unfolding apply_reward credit
apply_reward-Gains_example =
    apply_reward-Gains uint 4 10 spent (rewarded (apply_reward uint 4 10 spent)) 0 account_1
      (refl, (refl, tt)) refl (omega arith, omega arith)

abbrev walked : Walked
walked = walk uint updates [] 2 start_walk

abbrev end_of : Walked → Walk
end_of (stopped w) = w
end_of (refused e) = start_walk

walk_trace_example :
    IsChain (in_full (end_of walked).final_account (end_of walked).new_origins)
    × Rereads updates 2 (in_full (end_of walked).final_account (end_of walked).new_origins)
unfolding walk add_recipient add_sender
walk_trace_example = walk_trace uint updates [] 2 (end_of walked) refl

execute-beneficiary_example :
    (x : MemoryValue) × (tree_at ran.1.memory.data_of 32 2 ≡ some (written 0 x))
unfolding execute new get_code_hash next_back stored_code_hash note_origin basic read_account walk
    hash_basic finish_account read_code_hash code_for deploy rewards apply_each write_set_of
    transitions record_sets register remove_old add_recipient add_sender apply_additions
    add_lazy_addresses from_account from_evm_error record_execution push_origin set_origins
    apply_reward credit gas_price from_read_error account_writes basic_writes touched_writes
execute-beneficiary_example =
    execute-beneficiary (vm_with updates) refl (λ b. b) (sharing later_updates) version_2 tx_9 no_l1
      (reading updates) _ _ refl

-- The adapter at the start of a block of three transactions.
abbrev starting : Vm ℕ ℕ
starting = record (vm_with updates) { mv_memory = build_mv_memory 32 3 }

basic-build_mv_memory_example : basic starting db_2 8 ≡ err (ReadError.blocking 1)
unfolding hash_basic
basic-build_mv_memory_example =
    basic-build_mv_memory starting db_2 8 3 refl refl refl (omega arith) (omega arith)
