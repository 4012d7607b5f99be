-- ===== src/Finalize/Sequential.antt =====
-- `execute_revm_sequential` (crates/pevm/src/pexe.rs). The EVM over its cached storage is of third-party
-- crates: its `transact` and `commit` are parameters.
use Prim.Native.String.{String}
use parallel_execution.Common.{
  ℕ, ◌≡◌, ◌↔◌, refl, ap, ◌∙◌, Bool, Option, none, some, List, [], ◌∷◌, map,
}
use parallel_execution.Vm.Types.{TxEnv}
use parallel_execution.Vm.WriteSet.{Account}
use parallel_execution.Vm.Execute.{ResultAndState, transitions}
use parallel_execution.Finalize.Entry.{
  EvmAccount, TxResult, execution_error, Outcome, ok, err, panicked, ◌>>=◌, add_gas, push_result,
  collect_results,
}
use parallel_execution.Finalize.Fold.{ok-bind}
use parallel_execution.Finalize.Gas.{with_gas}

-- What `transact` gives, with the database after its reads, or the text of its error.
pub data Run (D Bytecode : Type 0) : Type 0 where
  ran : ResultAndState Bytecode → D → Run D Bytecode
  refused : String → Run D Bytecode

abbrev pub with_state :
    {Code : Type 0} → ℕ → Option (ℕ → Option (Option (EvmAccount Code))) → Outcome (TxResult Code)
with_state gas none = panicked
with_state gas (some state) = ok (record { cumulative_gas_used = gas; state = state })

module _ {Code Bytecode : Type 0} where
  -- `PexeTxExecutionResult::from_revm`
  abbrev pub from_revm :
      (Bytecode → Code) → Bool → ResultAndState Bytecode → Outcome (TxResult Code)
  from_revm from_bytecode eip_161 r =
      with_state r.gas_used (transitions from_bytecode eip_161 r.state)

module _ {D Code Bytecode : Type 0} (from_bytecode : Bytecode → Code) (eip_161 : Bool)
    (transact : D → TxEnv → Run D Bytecode) (commit : D → List (ℕ × Account Bytecode) → D) where
  -- The rest of the loop, from the gas and the database after a transaction.
  abbrev pub after_result :
      ℕ → (ℕ → Outcome (List (TxResult Code))) → TxResult Code → Outcome (List (TxResult Code))
  after_result gas rest r =
      let gas' = add_gas gas r.cumulative_gas_used in push_result (with_gas gas' r) (rest gas')

  abbrev pub after_run :
      ℕ → Run D Bytecode → (D → ℕ → Outcome (List (TxResult Code))) → Outcome (List (TxResult Code))
  after_run gas (refused s) rest = err (execution_error s)
  after_run gas (ran r db) rest =
      from_revm from_bytecode eip_161 r >>= after_result gas (rest (commit db r.state))

  unfoldable pub execute_from : ℕ → D → List TxEnv → Outcome (List (TxResult Code))
  execute_from gas db [] = ok []
  execute_from gas db (tx ∷ txs) =
      after_run gas (transact db tx) (λ db' gas'. execute_from gas' db' txs)

  unfoldable pub execute_revm_sequential : D → List TxEnv → Outcome (List (TxResult Code))
  unfolding execute_from
  execute_revm_sequential db txs = execute_from 0 db txs

  -- The results of the transactions before their gas is added up: each is run where the last left
  -- the database.
  abbrev pub Runs : D → List TxEnv → List (TxResult Code) → Type 0
  Runs db [] [] = Unit {0}
  Runs db [] (r ∷ rs) = ⊥
  Runs db (tx ∷ txs) [] = ⊥
  Runs db (tx ∷ txs) (r ∷ rs) =
      (s : ResultAndState Bytecode) × (db' : D) × (transact db tx ≡ ran s db')
      × (from_revm from_bytecode eip_161 s ≡ ok r)
      × Runs (commit db' s.state) txs rs

  abbrev Collects : ℕ → D → List TxEnv → List (TxResult Code) → Type 0
  Collects gas db txs rs' =
      (rs : List (TxResult Code)) × Runs db txs rs × (collect_results gas (map some rs) ≡ ok rs')

  push_result-ok :
      (r : TxResult Code) (o : Outcome (List (TxResult Code))) (rs' : List (TxResult Code))
      → push_result r o ≡ ok rs'
      → (rest : List (TxResult Code)) × (o ≡ ok rest) × (r ∷ rest ≡ rs')
  push_result-ok r (ok rest) rs' h = (rest, refl, cc)
  push_result-ok r (err e) rs' h = absurd cc
  push_result-ok r panicked rs' h = absurd cc

  run-Collects :
      (gas : ℕ) (db : D) (tx : TxEnv) (txs : List TxEnv) (rs' : List (TxResult Code))
      (o : Run D Bytecode) (k : D → ℕ → Outcome (List (TxResult Code)))
      → transact db tx ≡ o
      → after_run gas o k ≡ ok rs'
      → ((db' : D) (gas' : ℕ) (rest : List (TxResult Code))
          → k db' gas' ≡ ok rest
          → Collects gas' db' txs rest)
      → Collects gas db (tx ∷ txs) rs'
  unfolding collect_results
  run-Collects gas db tx txs rs' (refused s) k t h next = absurd cc
  run-Collects gas db tx txs rs' (ran r db') k t h next =
      let (r1, made, pushed) = ok-bind (from_revm from_bytecode eip_161 r) _ rs' h in
      let gas' = add_gas gas r1.cumulative_gas_used in
      let (rest, q, e) =
        push_result-ok (with_gas gas' r1) (k (commit db' r.state) gas') rs' pushed in
      let (rs, n, c) = next (commit db' r.state) gas' rest q in
      (
        r1 ∷ rs,
        (r, db', t, made, n),
        ap (push_result (with_gas gas' r1)) c ∙ ap (λ z. Outcome.ok z) e,
      )

  execute_from-Collects :
      (gas : ℕ) (db : D) (txs : List TxEnv) (rs' : List (TxResult Code))
      → execute_from gas db txs ≡ ok rs'
      → Collects gas db txs rs'
  unfolding execute_from collect_results
  execute_from-Collects gas db [] rs' h = ([], tt, h)
  execute_from-Collects gas db (tx ∷ txs) rs' h =
      run-Collects gas db tx txs rs' (transact db tx) (λ db' gas'. execute_from gas' db' txs) refl h
        (λ db' gas' rest q. execute_from-Collects gas' db' txs rest q)

  made-with :
      (gas : ℕ) (db : D) (tx : TxEnv) (r : TxResult Code) (s : ResultAndState Bytecode) (db' : D)
      (k : D → ℕ → Outcome (List (TxResult Code)))
      → transact db tx ≡ ran s db'
      → from_revm from_bytecode eip_161 s ≡ ok r
      → after_run gas (transact db tx) k ≡ after_result gas (k (commit db' s.state)) r
  made-with gas db tx r s db' k t made =
      ap (λ o. after_run gas o k) t ∙ ap (λ o. o >>= after_result gas (k (commit db' s.state))) made

  -- The loop over transactions whose results are known is the loop over the results.
  execute_from-Runs :
      (gas : ℕ) (db : D) (txs : List TxEnv) (rs : List (TxResult Code))
      → Runs db txs rs
      → execute_from gas db txs ≡ collect_results gas (map some rs)
  unfolding execute_from collect_results
  execute_from-Runs gas db [] [] h = refl
  execute_from-Runs gas db [] (r ∷ rs) h = absurd h
  execute_from-Runs gas db (tx ∷ txs) [] h = absurd h
  execute_from-Runs gas db (tx ∷ txs) (r ∷ rs) (s, db', t, made, rest) =
      made-with gas db tx r s db' (λ db' gas'. execute_from gas' db' txs) t made
      ∙ (let gas' = add_gas gas r.cumulative_gas_used in
          ap (push_result (with_gas gas' r))
            (execute_from-Runs gas' (commit db' s.state) txs rs rest))

  -- The sequential executor succeeds with some results if and only if its transactions all
  -- succeed, each run on the database that the last one left, and the parallel executor's loop
  -- over the results makes these results of them: both add the gas up in the same way. This is
  -- the loop alone, before the parallel executor evaluates lazy accounts.
  pub execute_revm_sequential-collect_results :
      (db : D) (txs : List TxEnv) (rs' : List (TxResult Code))
      → (execute_revm_sequential db txs ≡ ok rs')
        ↔ (rs : List (TxResult Code)) × Runs db txs rs × (collect_results 0 (map some rs) ≡ ok rs')
  unfolding execute_revm_sequential
  execute_revm_sequential-collect_results db txs rs' = (
    λ h. execute_from-Collects 0 db txs rs' h,
    λ c. let (rs, n, e) = c in execute_from-Runs 0 db txs rs n ∙ e,
  )
