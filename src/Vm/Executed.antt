-- ===== src/Vm/Executed.antt =====
-- A successful execution against the check of its reads.
use parallel_execution.Common.{◌≡◌, true}
use mathlib.Core.Path.{subst}
use parallel_execution.Types.{TxVersion}
use parallel_execution.MvMemory.{validate_read_locations}
use parallel_execution.Vm.Types.{Vm, VmDb, TxEnv}
use parallel_execution.Vm.Rewards.{L1}
use parallel_execution.Vm.Execute.{
  ResultAndState, Transacted, succeeded, Shared, VmExecutionResult, done, execute,
}
use parallel_execution.Vm.Session.{Session, SameBelow, Session-validate_read_locations}
use parallel_execution.Vm.Tracking.{CodesReady}
use parallel_execution.Vm.Done.{OnDone, OnDone-execute}

abbrev Checks : {Bytecode : Type 0} → TxVersion → Shared Bytecode → Type 0
Checks v shared = validate_read_locations shared.memory v.tx_idx ≡ true

-- If `Vm::execute` succeeds, the check of the read set that it recorded succeeds in the memory
-- that it leaves, whatever it wrote: each noted origin is what reading again finds. From its
-- first read until it records, other workers may change the memory, but no entry of a lower
-- transaction (a transaction whose reads such a change overtook is what the check is there to
-- find). The EVM reads only through the database, and below the transaction the highest entries
-- at the locations of code hashes hold code hashes or self-destructions, not estimates.
pub execute-validate_read_locations :
    {E Code Bytecode : Type 0} (vm : Vm Code Bytecode) (from_bytecode : Bytecode → Code)
    (current : Shared Bytecode) (v : TxVersion) (tx : TxEnv) (l1 : L1)
    (transact : VmDb → Transacted E Bytecode) (r : VmExecutionResult Code)
    (shared : Shared Bytecode)
    → CodesReady vm v.tx_idx
    → SameBelow v.tx_idx vm.mv_memory current.memory
    → ((db db' : VmDb) (s : ResultAndState Bytecode)
        → transact db ≡ succeeded s db'
        → Session vm (λ now. SameBelow v.tx_idx now.memory current.memory) db db')
    → execute vm from_bytecode current v tx l1 transact ≡ (done r, shared)
    → validate_read_locations shared.memory v.tx_idx ≡ true
execute-validate_read_locations {E} vm from_bytecode current v tx l1 transact r shared ready same
      reads h =
    subst (OnDone (Checks v)) h (
      OnDone-execute E vm from_bytecode current v tx l1 (Checks v) transact
        (λ start db s begun q rs ws found _ _ kept. rw kept (
          Session-validate_read_locations vm v tx current.memory ws ready same begun
            (reads start db s q))))
