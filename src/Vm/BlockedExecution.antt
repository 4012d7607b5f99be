-- ===== src/Vm/BlockedExecution.antt =====
-- An execution is only ever blocked on a lower transaction.
use parallel_execution.Common.{
  ℕ, ◌≡◌, ◌<◌, refl, ap, ◌∙◌, Bool, Option, none, some, List, ltb, arith, inl, inr, Bool-cases,
}
use mathlib.Core.Path.{subst}
use parallel_execution.Types.{TxVersion}
use parallel_execution.MvMemory.{WriteSet}
use parallel_execution.Finalize.Entry.{EvmAccount}
use parallel_execution.Vm.Types.{
  Vm, VmDb, TxEnv, TxKind, call, create, ReadError, EvmError, VmExecutionError, from_read_error,
  Read, ok, err,
}
use parallel_execution.Vm.Reads.{read_storage, code_by_hash, block_hash, prepare, new}
use parallel_execution.Vm.Account.{basic}
use parallel_execution.Vm.WriteSet.{deploy}
use parallel_execution.Vm.Rewards.{L1, rewards}
use parallel_execution.Vm.Execute.{
  ResultAndState, Transacted, succeeded, failed, Shared, Executed, done, stopped, panicked, retried,
  from_evm_error, finished_with, record_execution, after_lazy, after_rewards, reward, after_deploy,
  finish_transact, after_new, execute,
}
use parallel_execution.Vm.Session.{
  Session, Any, at, finished, reads_account, reads_slot, reads_code, reads_block_hash,
}
use parallel_execution.Vm.Blocking.{
  Below, BlocksBelow, Below-bind, read_storage-Below, get_code_hash-Below,
}
use parallel_execution.Vm.BlockedAccounts.{code_by_hash-Below, block_hash-Below, basic-Below}

-- A read of the EVM that is refused with the error, whatever the workers share by then.
pub data Refused {Code Bytecode : Type 0} (vm : Vm Code Bytecode) : VmDb → ReadError → Type 0 where
  account_refused :
      {db : VmDb} {e : ReadError} (s : Shared Bytecode) (address : ℕ)
      → basic (at vm s) db address ≡ err e
      → Refused vm db e
  slot_refused :
      {db : VmDb} {e : ReadError} (s : Shared Bytecode) (address index : ℕ)
      → read_storage (at vm s) db address index ≡ err e
      → Refused vm db e
  code_refused :
      {db : VmDb} {e : ReadError} (s : Shared Bytecode) (h : ℕ)
      → code_by_hash (at vm s) db h ≡ err e
      → Refused vm db e
  block_hash_refused :
      {db : VmDb} {e : ReadError} (s : Shared Bytecode) (number : ℕ)
      → block_hash (at vm s) db number ≡ err e
      → Refused vm db e

module _ {Code Bytecode : Type 0} (vm : Vm Code Bytecode) (i : ℕ) where
  Session-index : {db db' : VmDb} → Session vm Any db db' → db.tx_idx ≡ i → db'.tx_idx ≡ i
  Session-index finished h = h
  Session-index (reads_account {db} s any address r e rest) h =
      Session-index rest (subst (Below i) e (basic-Below (at vm s) i db address h))
  Session-index (reads_slot {db} s any address index r e rest) h =
      Session-index rest (subst (Below i) e (read_storage-Below (at vm s) i db address index h))
  Session-index (reads_code {db} s any c r e rest) h =
      Session-index rest (subst (Below i) e (code_by_hash-Below (at vm s) i db c h))
  Session-index (reads_block_hash {db} s any number r e rest) h =
      Session-index rest (subst (Below i) e (block_hash-Below (at vm s) i db number h))

  Refused-BlocksBelow :
      {db : VmDb} {e : ReadError} → Refused vm db e → db.tx_idx ≡ i → BlocksBelow i e
  Refused-BlocksBelow (account_refused {db} s address q) h =
      subst (Below i) q (basic-Below (at vm s) i db address h)
  Refused-BlocksBelow (slot_refused {db} s address index q) h =
      subst (Below i) q (read_storage-Below (at vm s) i db address index h)
  Refused-BlocksBelow (code_refused {db} s c q) h =
      subst (Below i) q (code_by_hash-Below (at vm s) i db c h)
  Refused-BlocksBelow (block_hash_refused {db} s number q) h =
      subst (Below i) q (block_hash-Below (at vm s) i db number h)

  prepare-Below : (k : TxKind) (db : VmDb) → db.tx_idx ≡ i → Below i (prepare vm k db)
  prepare-Below create db h = h
  prepare-Below (call to) db h =
      Below-bind i _ _ (get_code_hash-Below vm i db to h) (λ c db' h'. h')

  new-Below : (tx : TxEnv) → Below i (new vm i tx)
  unfolding new
  new-Below tx = prepare-Below tx.transact_to _ refl

-- The error, if it blocks, blocks on a transaction below `i`.
abbrev Lower : {E : Type 0} → ℕ → VmExecutionError E → Type 0
Lower i (VmExecutionError.blocking j) = j < i
Lower i VmExecutionError.retry = Unit {0}
Lower i VmExecutionError.fallback_to_sequential = Unit {0}
Lower i (VmExecutionError.execution_error e) = Unit {0}

abbrev Ends : {E Code Bytecode : Type 0} → ℕ → Executed E Code × Shared Bytecode → Type 0
Ends i (done r, shared) = Unit {0}
Ends i (stopped e, shared) = Lower i e
Ends i (panicked, shared) = Unit {0}

module _ (E : Type 0) (i : ℕ) where
  from_read_error-Lower : (e : ReadError) → BlocksBelow i e → Lower {E = E} i (from_read_error e)
  unfolding from_read_error
  from_read_error-Lower (ReadError.blocking j) h = h
  from_read_error-Lower (ReadError.storage_error s) h = tt
  from_read_error-Lower ReadError.inconsistent_read h = tt
  from_read_error-Lower (ReadError.invalid_nonce j) h = tt
  from_read_error-Lower ReadError.self_destructed_account h = tt
  from_read_error-Lower ReadError.invalid_bytecode h = tt
  from_read_error-Lower ReadError.invalid_memory_value_type h = tt

  retried-Lower : (e : EvmError E) → Lower i (retried i e)
  retried-Lower e = elim (Bool-cases (ltb 0 i)) [ inl c ↦ rw c (ground arith) | inr c ↦ rw c tt ]

  from_evm_error-Lower :
      (e : EvmError E)
      → ((r : ReadError) → e ≡ EvmError.database r → BlocksBelow i r)
      → Lower i (from_evm_error i e)
  unfolding from_evm_error
  from_evm_error-Lower (EvmError.database r) h = from_read_error-Lower r (h r refl)
  from_evm_error-Lower EvmError.lack_of_fund_for_max_fee h =
      retried-Lower EvmError.lack_of_fund_for_max_fee
  from_evm_error-Lower EvmError.nonce_too_high h = retried-Lower EvmError.nonce_too_high
  from_evm_error-Lower (EvmError.other e) h = tt

module _ (E : Type 0) {Code Bytecode : Type 0} (vm : Vm Code Bytecode)
    (from_bytecode : Bytecode → Code) (current : Shared Bytecode) (v : TxVersion) (tx : TxEnv) where
  module _ (r : ResultAndState Bytecode) (db : VmDb) where
    finished_with-Ends :
        (flags : ℕ) (s : Option (ℕ → Option (Option (EvmAccount Code)))) (shared : Shared Bytecode)
        → Ends v.tx_idx (finished_with {E = E} vm from_bytecode current v tx r flags s, shared)
    finished_with-Ends flags none shared = tt
    finished_with-Ends flags (some s) shared = tt

    after_lazy-Ends :
        (ws : WriteSet) (shared : Shared Bytecode) (lazy : Option (ℕ → Bool))
        → Ends v.tx_idx (after_lazy {E = E} vm from_bytecode current v tx r db ws shared lazy)
    unfolding record_execution
    after_lazy-Ends ws shared none = tt
    after_lazy-Ends ws shared (some lazy) = finished_with-Ends _ _ _

    after_rewards-Ends :
        (shared : Shared Bytecode) (ws : Option WriteSet)
        → Ends v.tx_idx (after_rewards {E = E} vm from_bytecode current v tx r db shared ws)
    after_rewards-Ends shared none =
        from_read_error-Lower E v.tx_idx ReadError.invalid_memory_value_type tt
    after_rewards-Ends shared (some ws) = after_lazy-Ends ws shared _

    reward-Ends :
        (shared : Shared Bytecode) (rs : Option (List (ℕ × ℕ)))
        → Ends v.tx_idx (reward {E = E} vm from_bytecode current v tx r db shared rs)
    reward-Ends shared none = tt
    reward-Ends shared (some rs) = after_rewards-Ends shared _

    after_deploy-Ends :
        (l1 : L1) (codes : Option (ℕ → Option Bytecode))
        → Ends v.tx_idx (after_deploy {E = E} vm from_bytecode current v tx l1 r db codes)
    after_deploy-Ends l1 none = tt
    after_deploy-Ends l1 (some codes) = reward-Ends _ (rewards vm tx l1 r.gas_used)

  module _ (l1 : L1) (transact : VmDb → Transacted E Bytecode)
      (refuses : (db : VmDb) (e : ReadError)
        → transact db ≡ failed (EvmError.database e)
        → (db' : VmDb) × Session vm Any db db' × Refused vm db' e) where
    finish_transact-Ends :
        (db : VmDb) (o : Transacted E Bytecode)
        → db.tx_idx ≡ v.tx_idx
        → transact db ≡ o
        → Ends v.tx_idx (finish_transact {E = E} vm from_bytecode current v tx l1 o)
    finish_transact-Ends db (failed e) h q = from_evm_error-Lower E v.tx_idx e (λ r same.
        let (db', s, refused) = refuses db r (q ∙ ap failed same) in
        Refused-BlocksBelow vm v.tx_idx refused (Session-index vm v.tx_idx s h))
    finish_transact-Ends db (succeeded r db') h q =
        after_deploy-Ends r db' l1 (deploy vm db' r.state current.new_bytecodes)

    after_new-Ends :
        (o : Read (Unit {0}))
        → Below v.tx_idx o
        → Ends v.tx_idx (after_new {E = E} vm from_bytecode current v tx l1 transact o)
    after_new-Ends (err e) h = from_read_error-Lower E v.tx_idx e h
    after_new-Ends (ok _ db) h = finish_transact-Ends db (transact db) h refl

    execute-Ends : Ends v.tx_idx (execute {E = E} vm from_bytecode current v tx l1 transact)
    unfolding execute
    execute-Ends = after_new-Ends (new vm v.tx_idx tx) (new-Below vm v.tx_idx tx)

-- If `Vm::execute` ends with `Blocking(j)`, then `j` is a lower transaction, whether the error
-- comes from an estimate, from the check of the sender's nonce, or from a lack of funds that is
-- retried. The database errors that the EVM returns are those of its own reads, whatever other
-- workers change between them.
pub execute_blocked :
    {E Code Bytecode : Type 0} (vm : Vm Code Bytecode) (from_bytecode : Bytecode → Code)
    (current : Shared Bytecode) (v : TxVersion) (tx : TxEnv) (l1 : L1)
    (transact : VmDb → Transacted E Bytecode) (j : ℕ) (shared : Shared Bytecode)
    → ((db : VmDb) (e : ReadError)
        → transact db ≡ failed (EvmError.database e)
        → (db' : VmDb) × Session vm Any db db' × Refused vm db' e)
    → execute vm from_bytecode current v tx l1 transact
      ≡ (stopped (VmExecutionError.blocking j), shared)
    → j < v.tx_idx
execute_blocked {E} vm from_bytecode current v tx l1 transact j shared refuses h =
    subst (Ends v.tx_idx) h (execute-Ends E vm from_bytecode current v tx l1 transact refuses)
