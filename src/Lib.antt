-- ===== src/Lib.antt =====
-- The parallel block executor of this repository (crates/pevm): the collaborative scheduler and
-- the worker threads around it, the multi-version memory and the EVM adapter that reads and writes
-- it, the evaluation of a finished block, the executor of the perpetual DEX, and the format of the
-- DEX's transactions in mixed blocks.
--
-- How the parts interact. `Pexe::execute_revm_parallel` (crates/pevm/src/pexe.rs) spawns worker
-- threads. Each asks the scheduler (crates/pevm/src/scheduler.rs) for a task, runs the virtual
-- machine on the transaction or checks its read set, and tells the scheduler the outcome, which
-- may hand it the next task. A transaction whose VM has to wait for a lower one becomes a
-- dependent of it. The adapter (crates/pevm/src/vm.rs) answers the EVM's reads from the
-- multi-version memory, notes their origins, and records what the EVM returns; accounts that many
-- transactions pay to are updated lazily, by additions that a later read or the end of the block
-- evaluates. Blocks may mix EVM transactions with those of the DEX; crates/pevm/src/hybrid.rs
-- tells them apart by the target address and decodes the latter, and
-- crates/pevm/src/perpdex/executor.rs runs the decoded operations against a storage
-- (crates/pevm/src/perpdex/storage.rs) and returns a set of writes.
--
-- The files.
-- Types: the types of crates/pevm/src/lib.rs (`TxVersion`, `IncarnationStatus`, `TxStatus`,
-- `Task`, `ReadOrigin`, `FinishExecFlags`). Flags: what `contains` says of those flags.
-- Scheduler: every method of crates/pevm/src/scheduler.rs, under its own name, as a function of
-- the state. `next_task_turn` is one round of the loop of `next_task`, given the two indices that
-- the round loaded; `next_task` is the loop, on fuel.
-- Workers: the threads of `execute_revm_parallel`, `try_execute` and `try_validate`
-- (crates/pevm/src/pexe.rs) as a step relation, with reachability. Its children: Effect and Tally
-- (what a call may do to the account of transactions), Turns, Calls and Finish (each scheduler
-- method keeps to it), Completion (what an execution leaves to validate), Ownership and
-- Preservation (the invariant), Dependents (dependents are in the block), Safety (the theorems),
-- Scenarios (concrete runs).
-- Perpdex: Types, State and Storage are crates/pevm/src/perpdex/types.rs, state.rs and storage.rs.
-- Storage has the children Laws and Index (the index of orders) and Examples; Defaults has the
-- default values and the lazy locations; Partition is the partition of hashes in
-- crates/pevm/src/perpdex/state_traits.rs, with PartitionExamples. Perpdex/Executor is
-- executor.rs: Base (context, errors, reads), Matching (matching and position arithmetic),
-- Operations (the operations and `execute`), Keeps and Yields (rules for steps), Writes, Counter
-- and Outcome (proofs), Examples (concrete runs).
-- MvMemory: the multi-version memory of crates/pevm/src/mv_memory.rs: `record_sets` is `record`,
-- `validate_read_locations` and `convert_writes_to_estimates` have their names. Its children:
-- Origins and Validation (what the check decides), Writes, Removal and Record (what the operations
-- leave), Fresh (the memory at the start of a block), Examples.
-- Vm: the adapter, crates/pevm/src/vm.rs. Types and Reads are `VmDb` with its constructor and the
-- reads of one origin, Descent and Account are `Database::basic`, WriteSet, Rewards and Execute
-- are `Vm::execute` and `apply_rewards`. Of the proofs, Rules has those of the combinators; Lazy
-- and Forward compare the two evaluations of lazy updates; Trace, ReadSet, Tracking, Accounts,
-- Session and Executed follow the noted origins; Blocking, BlockedAccounts and BlockedExecution
-- the errors; RewardValue, Beneficiary and Paid the rewards; Done is the rule for `execute`.
-- Concrete and Examples are concrete runs.
-- Finalize: the end of `execute_revm_parallel` in crates/pevm/src/pexe.rs. Entry and History are
-- the code, Sequential is `execute_revm_sequential`, Exact says what an evaluation without
-- saturation gives, Fold, Gas and Mismatch are proofs, Examples concrete runs.
-- Chains: Ethereum is the fork of a block in crates/pevm/src/chain/ethereum.rs, its child
-- Activation compares it with the table of the forks' activations, Examples is a concrete run.
-- EvmStorages: crates/pevm/src/storage.rs and crates/pevm/src/storage/in_memory.rs. Code is the
-- conversion of codes, InMemory the in-memory storage, Wrapper `StorageWrapper`; Agreement and
-- Reads compare the latter with the adapter, Examples are concrete runs.
-- Hybrid: crates/pevm/src/hybrid.rs. Bytes, Encode and Decode are the code; Total, Parts, Rounds
-- and RoundTrip the proofs; Examples concrete runs.
-- Common: numbers, lists, families of cells, and signed integers that all of these share.
--
-- How the state is represented. A vector of `Mutex` cells is a function of the index, since the
-- code indexes it without a check; an atomic `usize` is a number that wraps at 2^64. A step of
-- Workers is one round of `next_task`, or one whole call of another scheduler method, so calls
-- interleave in any order but do not overlap, except that a round of `next_task` may have loaded
-- any values of the two indices before. What the VM answers, and the outcome of the check of a
-- read set, is any that may be; a blocking transaction is lower than the one that it blocks.
-- `debug_assert_eq!` and `debug_assert!` are not compiled in a release and do not stop a step. In
-- the executor of the DEX an operation is a function over a buffer of the writes and the counter
-- of order ids; an error keeps the buffer but drops the result, as the code does. In the DEX an
-- address is the list of its bytes, in Vm and Finalize a number. In an execution of the adapter
-- other workers may change the memory, the new codes and the lazy addresses between any two reads
-- of the EVM, and before the execution records its sets; each read, and what it does after the EVM
-- has returned, is one step on what is shared then.
--
-- What is a parameter. `contains` of the bitflags crate is a parameter with its documented
-- meaning, the operators of `U256` are a record of functions with the documented laws, the
-- conversions of `U256` to bytes and revm's codes likewise, and the storages that the executor and
-- the adapter read are records of functions. The EVM's `transact` is a function of the database at
-- its start, which the theorems about executions assume to make its reads through that database;
-- hashes of locations and conversions of codes are functions.
--
-- Fuel. The rounds of `next_task` are bounded by a number of rounds, since the loop spins while
-- other threads work. The decoder's loop has the length of its input for fuel, which is enough
-- since a round takes at least a byte. The loops over write histories go down or up the
-- transactions' indices, and need no fuel.
--
-- What is not modelled: the logs and the status of a receipt, most of the chains
-- (crates/pevm/src/chain), which calls alloy and revm, the RPC storage of the EVM
-- (crates/pevm/src/storage), the map of shared values by type
-- (crates/pevm/src/perpdex/state_traits.rs), the fetch binary (bins/fetch), tests and benchmarks.
pub mod Common
pub mod Types
pub mod Flags
pub mod Scheduler
pub mod Workers
pub mod Perpdex
pub mod Hybrid
pub mod MvMemory
pub mod Vm
pub mod Finalize
pub mod EvmStorages
pub mod Chains
