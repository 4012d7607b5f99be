-- ===== src/Vm/Paid.antt =====
-- The beneficiary of an Ethereum block is written to by every transaction that is done.
use parallel_execution.Common.{
  ℕ, ◌≡◌, refl, ap, ◌∙◌, Option, none, some, List, [], ◌∷◌, ◌==◌, ==_iff, ==_refl, if◌then◌else◌,
  inl, inr, Bool-cases,
}
use mathlib.Core.Path.{subst}
use parallel_execution.Types.{TxVersion}
use parallel_execution.MvMemory.{MemoryValue, written, WriteSet, tree_at}
use parallel_execution.MvMemory.Record.{or_else, last_write, record_sets-written}
use parallel_execution.Vm.Types.{Vm, VmDb, TxEnv, Saturating, ethereum}
use parallel_execution.Vm.WriteSet.{write_set_of}
use parallel_execution.Vm.Rewards.{
  L1, credit, with_value, with_write, then_apply, apply_reward, apply_each, rewards, gas_price,
}
use parallel_execution.Vm.Execute.{Transacted, Shared, VmExecutionResult, done, execute}
use parallel_execution.Vm.Done.{OnDone, OnDone-execute}

-- The write set writes to the location.
abbrev Writes : ℕ → WriteSet → Type 0
Writes l ws = (x : MemoryValue) × (last_write l ws ≡ some x)

or_else-some :
    (o : Option MemoryValue) (x : MemoryValue) → (y : MemoryValue) × (or_else o (some x) ≡ some y)
or_else-some none x = (x, refl)
or_else-some (some y) x = (y, refl)

Writes-here : (l : ℕ) (x : MemoryValue) (ws : WriteSet) → Writes l ((l, x) ∷ ws)
Writes-here l x ws =
    let (y, e) = or_else-some (last_write l ws) x in
    (y, ap (λ b. or_else (last_write l ws) (if b then some x else none)) (==_refl l) ∙ e)

Writes-there : (l j : ℕ) (x : MemoryValue) (ws : WriteSet) → Writes l ws → Writes l ((j, x) ∷ ws)
Writes-there l j x ws (y, e) = (y, ap (λ o. or_else o (if j == l then some x else none)) e)

module _ (u : Saturating) (l amount : ℕ) where
  with_value-Writes :
      (ws ws' : WriteSet) (o : Option MemoryValue) → with_value u l ws o ≡ some ws' → Writes l ws'
  with_value-Writes ws ws' none h = absurd cc
  with_value-Writes ws ws' (some y) h =
      let same : (l, y) ∷ ws ≡ ws' = cc in subst (Writes l) same (Writes-here l y ws)

  with_write-Writes :
      (j : ℕ) (x : MemoryValue) (ws' : WriteSet) (o : Option WriteSet)
      → with_write u (j, x) o ≡ some ws'
      → ((rest : WriteSet) → o ≡ some rest → Writes l rest)
      → Writes l ws'
  with_write-Writes j x ws' none h next = absurd cc
  with_write-Writes j x ws' (some rest) h next =
      let same : (j, x) ∷ rest ≡ ws' = cc in
      subst (Writes l) same (Writes-there l j x rest (next rest refl))

  apply_reward-Writes : (ws ws' : WriteSet) → apply_reward u l amount ws ≡ some ws' → Writes l ws'
  unfolding apply_reward
  apply_reward-Writes [] ws' h =
      let same : (l, MemoryValue.lazy_recipient amount) ∷ [] ≡ ws' = cc in
      subst (Writes l) same (Writes-here l (MemoryValue.lazy_recipient amount) [])
  apply_reward-Writes ((j, x) ∷ ws) ws' h = elim (Bool-cases (j == l)) [
    | inl same ↦
        let e : j ≡ l = (==_iff j l).0 same in
        let h' = rw same at h in
        with_value-Writes ws ws' (credit u amount x)
          (subst (λ z. with_value u z ws (credit u amount x) ≡ some ws') e h')
    | inr other ↦
        with_write-Writes j x ws' (apply_reward u l amount ws) (rw other at h)
          (λ rest q. apply_reward-Writes ws rest q)
  ]

  then_apply-Writes :
      (o : Option WriteSet) (ws' : WriteSet)
      → ((ws : WriteSet) → o ≡ some ws → Writes l ws)
      → then_apply u o (λ ws. some ws) ≡ some ws'
      → Writes l ws'
  then_apply-Writes none ws' k h = absurd cc
  then_apply-Writes (some ws) ws' k h =
      let same : ws ≡ ws' = cc in subst (Writes l) same (k ws refl)

module _ {Code Bytecode : Type 0} (vm : Vm Code Bytecode)
    (policy : vm.reward_policy ≡ ethereum) where
  rewarded-Writes :
      (tx : TxEnv) (l1 : L1) (gas_used : ℕ) (rs : List (ℕ × ℕ)) (ws ws' : WriteSet)
      → rewards vm tx l1 gas_used ≡ some rs
      → apply_each vm.uint rs ws ≡ some ws'
      → Writes vm.beneficiary_location_hash ws'
  unfolding rewards apply_each
  rewarded-Writes tx l1 gas_used rs ws ws' q h =
      let l = vm.beneficiary_location_hash in
      let amount = vm.uint.mul (gas_price vm tx) gas_used in
      let q' = rw policy at q in
      let one : (l, amount) ∷ [] ≡ rs = cc in
      let h' = rw (← one) at h in
      then_apply-Writes vm.uint l amount (apply_reward vm.uint l amount ws) ws'
        (λ z e. apply_reward-Writes vm.uint l amount ws z e) h'

  -- On Ethereum, an execution that is done leaves at the beneficiary's location data of its
  -- own incarnation, so that the estimate that the block starts with is gone.
  pub execute-beneficiary :
      {E : Type 0} (from_bytecode : Bytecode → Code) (current : Shared Bytecode) (v : TxVersion)
      (tx : TxEnv) (l1 : L1) (transact : VmDb → Transacted E Bytecode) (r : VmExecutionResult Code)
      (shared : Shared Bytecode)
      → execute vm from_bytecode current v tx l1 transact ≡ (done r, shared)
      → (x : MemoryValue) × (tree_at shared.memory.data_of vm.beneficiary_location_hash v.tx_idx
          ≡ some (written v.tx_incarnation x))
  execute-beneficiary {E} from_bytecode current v tx l1 transact r shared h =
      let l = vm.beneficiary_location_hash in
      let P : Shared Bytecode → Type 0 = λ s.
        (x : MemoryValue) × (tree_at s.memory.data_of l v.tx_idx
          ≡ some (written v.tx_incarnation x)) in
      subst (OnDone P) h (
        OnDone-execute E vm from_bytecode current v tx l1 P transact
          (λ start db s begun q rs ws found paid applied same.
            let (x, e) =
              rewarded-Writes tx l1 s.gas_used rs (write_set_of vm db s.state) ws paid applied in
            (x, record_sets-written found.memory v db.read_set ws l x e)))
