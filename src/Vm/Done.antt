-- ===== src/Vm/Done.antt =====
-- What an execution that is done leaves: the rule for `Vm::execute`.
use parallel_execution.Common.{ℕ, Bool, ◌≡◌, ◌∙◌, refl, Option, none, some, List}
use parallel_execution.Types.{TxVersion}
use parallel_execution.MvMemory.{WriteSet, record_sets}
use parallel_execution.Finalize.Entry.{EvmAccount}
use parallel_execution.Vm.Types.{Vm, VmDb, TxEnv, Read, ok, err}
use parallel_execution.Vm.Reads.{new}
use parallel_execution.Vm.WriteSet.{write_set_of, deploy}
use parallel_execution.Vm.Rewards.{L1, rewards, apply_each}
use parallel_execution.Vm.Execute.{
  ResultAndState, Transacted, succeeded, failed, Shared, Executed, done, stopped, panicked,
  transitions, with_lazy, first_flags, with_new, finished_with, record_execution, after_lazy,
  after_rewards, reward, after_deploy, finish_transact, after_new, execute,
}

-- An execution that is done leaves its effects with the property.
abbrev pub OnDone :
    {E Code Bytecode : Type 0}
    → (Shared Bytecode → Type 0)
    → Executed E Code × Shared Bytecode
    → Type 0
OnDone P (done r, shared) = P shared
OnDone P (stopped e, shared) = Unit {0}
OnDone P (panicked, shared) = Unit {0}

module _ (E : Type 0) {Code Bytecode : Type 0} (vm : Vm Code Bytecode)
    (from_bytecode : Bytecode → Code) (current : Shared Bytecode) (v : TxVersion) (tx : TxEnv)
    (l1 : L1) (P : Shared Bytecode → Type 0) where
  -- Recording the rewarded writes gives the property.
  abbrev pub Records : ResultAndState Bytecode → VmDb → Type 0
  Records r db =
      (rs : List (ℕ × ℕ)) (ws : WriteSet) (shared : Shared Bytecode)
      → rewards vm tx l1 r.gas_used ≡ some rs
      → apply_each vm.uint rs (write_set_of vm db r.state) ≡ some ws
      → shared.memory ≡ current.memory
      → P (record shared { memory = (record_sets shared.memory v db.read_set ws).0 })

  module _ (r : ResultAndState Bytecode) (db : VmDb) (h : Records r db) where
    OnDone-finished_with :
        (flags : ℕ) (s : Option (ℕ → Option (Option (EvmAccount Code)))) (shared : Shared Bytecode)
        → P shared
        → OnDone P (finished_with {E = E} vm from_bytecode current v tx r flags s, shared)
    OnDone-finished_with flags none shared c = tt
    OnDone-finished_with flags (some s) shared c = c

    OnDone-after_lazy :
        (ws : WriteSet) (shared : Shared Bytecode) (lazy : Option (ℕ → Bool))
        → ((shared' : Shared Bytecode)
            → shared'.memory ≡ shared.memory
            → P (record shared' { memory = (record_sets shared'.memory v db.read_set ws).0 }))
        → OnDone P (after_lazy {E = E} vm from_bytecode current v tx r db ws shared lazy)
    unfolding record_execution
    OnDone-after_lazy ws shared none k = tt
    OnDone-after_lazy ws shared (some lazy) k =
        let shared' = record shared { is_lazy_address = lazy } in
        let n = record_sets shared'.memory v db.read_set ws in
        OnDone-finished_with (with_new n.1 (first_flags v.tx_idx db.is_lazy))
          (transitions from_bytecode vm.is_eip_161_enabled r.state)
          (record shared' { memory = n.0 }) (k shared' refl)

    OnDone-after_rewards :
        (rs : List (ℕ × ℕ)) (shared : Shared Bytecode) (ws : Option WriteSet)
        → rewards vm tx l1 r.gas_used ≡ some rs
        → apply_each vm.uint rs (write_set_of vm db r.state) ≡ ws
        → shared.memory ≡ current.memory
        → OnDone P (after_rewards {E = E} vm from_bytecode current v tx r db shared ws)
    OnDone-after_rewards rs shared none q a same = tt
    OnDone-after_rewards rs shared (some ws) q a same =
        OnDone-after_lazy ws shared
          (with_lazy db.is_lazy tx.caller tx.transact_to shared.is_lazy_address)
          (λ shared' e. h rs ws shared' q a (e ∙ same))

    OnDone-reward :
        (shared : Shared Bytecode) (o : Option (List (ℕ × ℕ)))
        → rewards vm tx l1 r.gas_used ≡ o
        → shared.memory ≡ current.memory
        → OnDone P (reward {E = E} vm from_bytecode current v tx r db shared o)
    OnDone-reward shared none q same = tt
    OnDone-reward shared (some rs) q same =
        OnDone-after_rewards rs shared (apply_each vm.uint rs (write_set_of vm db r.state)) q refl
          same

    OnDone-after_deploy :
        (codes : Option (ℕ → Option Bytecode))
        → OnDone P (after_deploy {E = E} vm from_bytecode current v tx l1 r db codes)
    OnDone-after_deploy none = tt
    OnDone-after_deploy (some codes) =
        OnDone-reward (record current { new_bytecodes = codes }) (rewards vm tx l1 r.gas_used) refl
          refl

  module _ (transact : VmDb → Transacted E Bytecode)
      (h : (start db : VmDb) (r : ResultAndState Bytecode)
        → new vm v.tx_idx tx ≡ ok tt start
        → transact start ≡ succeeded r db
        → Records r db) where
    OnDone-finish_transact :
        (start : VmDb) (o : Transacted E Bytecode)
        → new vm v.tx_idx tx ≡ ok tt start
        → transact start ≡ o
        → OnDone P (finish_transact {E = E} vm from_bytecode current v tx l1 o)
    OnDone-finish_transact start (failed e) begun q = tt
    OnDone-finish_transact start (succeeded r db) begun q =
        OnDone-after_deploy r db (h start db r begun q) (deploy vm db r.state current.new_bytecodes)

    OnDone-after_new :
        (o : Read (Unit {0}))
        → new vm v.tx_idx tx ≡ o
        → OnDone P (after_new {E = E} vm from_bytecode current v tx l1 transact o)
    OnDone-after_new (err e) q = tt
    OnDone-after_new (ok _ db) q = OnDone-finish_transact db (transact db) q refl

    -- An execution that is done leaves the property, if recording its rewarded writes gives it.
    pub OnDone-execute : OnDone P (execute {E = E} vm from_bytecode current v tx l1 transact)
    unfolding execute
    OnDone-execute = OnDone-after_new (new vm v.tx_idx tx) refl
