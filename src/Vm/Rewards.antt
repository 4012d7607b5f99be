-- ===== src/Vm/Rewards.antt =====
-- `Vm::apply_rewards`. The first layer's cost of a transaction is of a third-party crate.
use parallel_execution.Common.{ℕ, Bool, Option, none, some, List, [], ◌∷◌, ◌==◌, if◌then◌else◌, min}
use parallel_execution.MvMemory.{MemoryValue, WriteSet}
use parallel_execution.Vm.Types.{Vm, TxEnv, Saturating, RewardPolicy, ethereum, optimism}

-- What an Optimism transaction has: whether it is a deposit, and the cost, if the transaction and the
-- block of the first layer are there.
pub record L1 : Type 0 where
  pub is_deposit : Bool
  pub cost : Option ℕ

module _ (u : Saturating) where
  abbrev pub capped_price : TxEnv → ℕ → Option ℕ → ℕ
  capped_price tx basefee none = tx.gas_price
  capped_price tx basefee (some fee) = min tx.gas_price (u.add fee basefee)

  -- `none` is the error `InvalidMemoryValueType`.
  unfoldable pub credit : ℕ → MemoryValue → Option MemoryValue
  credit amount (MemoryValue.basic x) =
      some (MemoryValue.basic (record x { balance = u.add x.balance amount }))
  credit amount (MemoryValue.lazy_sender x) = some (MemoryValue.lazy_sender (u.sub x amount))
  credit amount (MemoryValue.lazy_recipient x) = some (MemoryValue.lazy_recipient (u.add x amount))
  credit amount (MemoryValue.code_hash h) = none
  credit amount (MemoryValue.stored x) = none
  credit amount MemoryValue.self_destructed = none

  abbrev pub with_value : ℕ → WriteSet → Option MemoryValue → Option WriteSet
  with_value l ws none = none
  with_value l ws (some x) = some ((l, x) ∷ ws)

  abbrev pub with_write : ℕ × MemoryValue → Option WriteSet → Option WriteSet
  with_write w none = none
  with_write w (some ws) = some (w ∷ ws)

  -- One reward: the first write to the recipient is credited, or a write is added.
  unfoldable pub apply_reward : ℕ → ℕ → WriteSet → Option WriteSet
  unfolding credit
  apply_reward recipient amount [] = some ((recipient, MemoryValue.lazy_recipient amount) ∷ [])
  apply_reward recipient amount ((l, x) ∷ ws) =
      let rest = apply_reward recipient amount ws in
      if l == recipient then with_value l ws (credit amount x) else with_write (l, x) rest

  abbrev pub then_apply : Option WriteSet → (WriteSet → Option WriteSet) → Option WriteSet
  then_apply none f = none
  then_apply (some ws) f = f ws

  unfoldable pub apply_each : List (ℕ × ℕ) → WriteSet → Option WriteSet
  unfolding apply_reward
  apply_each [] ws = some ws
  apply_each ((recipient, amount) ∷ rewards) ws =
      then_apply (apply_reward recipient amount ws) (λ ws'. apply_each rewards ws')

module _ {Code Bytecode : Type 0} (vm : Vm Code Bytecode) where
  unfoldable pub gas_price : TxEnv → ℕ
  gas_price tx =
      let price = capped_price vm.uint tx vm.basefee tx.gas_priority_fee in
      if vm.is_eip_1559_enabled then vm.uint.sub price vm.basefee else price

  abbrev pub optimism_rewards : ℕ → ℕ → ℕ → ℕ → Option ℕ → Option (List (ℕ × ℕ))
  optimism_rewards price gas_used l1_fee_recipient base_fee_vault none = none
  optimism_rewards price gas_used l1_fee_recipient base_fee_vault (some cost) = some (
      (vm.beneficiary_location_hash, vm.uint.mul price gas_used)
      ∷ (l1_fee_recipient, cost)
      ∷ (base_fee_vault, vm.uint.mul vm.basefee gas_used)
      ∷ [])

  abbrev pub rewards_of : RewardPolicy → L1 → ℕ → ℕ → Option (List (ℕ × ℕ))
  rewards_of ethereum l1 price gas_used =
      some ((vm.beneficiary_location_hash, vm.uint.mul price gas_used) ∷ [])
  rewards_of (optimism l1_fee_recipient base_fee_vault) l1 price gas_used =
      if l1.is_deposit
      then some []
      else optimism_rewards price gas_used l1_fee_recipient base_fee_vault l1.cost

  -- The rewards of a transaction; `none` is a panic.
  unfoldable pub rewards : TxEnv → L1 → ℕ → Option (List (ℕ × ℕ))
  unfolding gas_price
  rewards tx l1 gas_used = rewards_of vm.reward_policy l1 (gas_price tx) gas_used
