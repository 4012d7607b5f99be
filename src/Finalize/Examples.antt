-- ===== src/Finalize/Examples.antt =====
-- Concrete runs of the evaluation of lazy accounts.
use parallel_execution.Common.{
  ℕ, suc, ◌+◌, ◌<◌, ◌≡◌, ◌↔◌, refl, true, Option, none, some, List, [], ◌∷◌, map, min, arith,
  length, get_elem?, ◌==◌, if◌then◌else◌,
}
use parallel_execution.MvMemory.{AccountBasic, next_back}
use parallel_execution.Vm.Types.{TxEnv, AccountInfo, Read, ok, err}
use parallel_execution.Vm.Reads.{
  get_code_hash, stored_code_hash, note_origin, push_origin, set_origins,
}
use parallel_execution.Vm.Account.{read_account, finish_account, read_code_hash, code_for}
use parallel_execution.Vm.Descent.{walk, add_recipient, add_sender, apply_additions}
use parallel_execution.Vm.Concrete.{uint, account_1, updates, vm_with, tx_9, db_2}
use parallel_execution.Vm.Forward.{read_account-evaluate_history}
use parallel_execution.Finalize.Entry.{
  TxResult, Outcome, u64_max, apply_value, max_fee, evaluate_entry, check_nonce, collect_results,
}
use parallel_execution.Finalize.History.{
  Evaluation, evaluate_history, evaluate_round, write_account, modify,
}
use parallel_execution.Finalize.Exact.{value_at}
use parallel_execution.Vm.WriteSet.{Account}
use parallel_execution.Vm.Execute.{transitions}
use parallel_execution.Finalize.Sequential.{
  Run, ran, Runs, execute_from, execute_revm_sequential, execute_revm_sequential-collect_results,
}
use parallel_execution.Finalize.Mismatch.{Right, evaluate_history-nonce_mismatch}
use parallel_execution.Finalize.Gas.{gas_of_first, with_gas, collect_results_lem}

-- Account 1 sends transaction 1, account 9 the others.
abbrev txs : ℕ → TxEnv
txs i = if i == 1 then record tx_9 { caller = 1; gas_limit = 1 } else tx_9

abbrev result : ℕ → TxResult ℕ
result gas = record { cumulative_gas_used = gas; state = λ a. none }

abbrev start : Evaluation ℕ
start = record { account = account_1; results = result 7 ∷ result 8 ∷ [] }

abbrev evaluated : Outcome (Evaluation ℕ)
evaluated = evaluate_history uint true txs 1 none none updates 2 start

abbrev account_after : Outcome (Evaluation ℕ) → AccountBasic
account_after (Outcome.ok s) = s.account
account_after (Outcome.err e) = account_1
account_after Outcome.panicked = account_1

abbrev seen : Read (Option (AccountInfo ℕ))
seen = read_account (vm_with updates) db_2 1 4

abbrev balance_seen : Read (Option (AccountInfo ℕ)) → ℕ
balance_seen (ok (some info) db) = info.balance
balance_seen (ok none db) = 0
balance_seen (err e) = 0

abbrev nonce_seen : Read (Option (AccountInfo ℕ)) → ℕ
nonce_seen (ok (some info) db) = info.nonce
nonce_seen (ok none db) = 0
nonce_seen (err e) = 0

read_account-evaluate_history_example :
    (balance_seen seen ≡ (account_after evaluated).balance)
    × (nonce_seen seen ≡ (account_after evaluated).nonce)
unfolding evaluate_history evaluate_round evaluate_entry check_nonce max_fee apply_value
    write_account modify read_account walk finish_account read_code_hash code_for add_recipient
    add_sender apply_additions get_code_hash stored_code_hash note_origin push_origin set_origins
    next_back
read_account-evaluate_history_example =
    read_account-evaluate_history (vm_with updates) 1 4 account_1 refl db_2 _ _ true txs none none
      start _ (((omega arith, omega arith), omega arith), (omega arith, omega arith)) refl refl refl

abbrev gases : List (TxResult ℕ)
gases = result 21000 ∷ result u64_max ∷ []

collect_results_lem_example :
    (rs' : List (TxResult ℕ)) × (collect_results 0 (map some gases) ≡ Outcome.ok rs')
    × (length rs' ≡ length gases)
    × ((i : ℕ) (r : TxResult ℕ)
        → get_elem? gases i ≡ some r
        → get_elem? rs' i ≡ some (with_gas (min (gas_of_first (suc i) gases) u64_max) r))
collect_results_lem_example = collect_results_lem gases

abbrev run : ℕ → TxEnv → Run ℕ ℕ
run db tx = ran (record { gas_used = tx.gas_limit; state = [] }) (db + 1)

abbrev commit : ℕ → List (ℕ × Account ℕ) → ℕ
commit db state = db

abbrev pair : List TxEnv
pair = tx_9 ∷ record tx_9 { gas_limit = u64_max } ∷ []

abbrev results_in : Outcome (List (TxResult ℕ)) → List (TxResult ℕ)
results_in (Outcome.ok rs) = rs
results_in (Outcome.err e) = []
results_in Outcome.panicked = []

abbrev sequential : List (TxResult ℕ)
sequential = results_in (execute_revm_sequential (λ b. b) true run commit 0 pair)

execute_revm_sequential-collect_results_example :
    (execute_revm_sequential (λ b. b) true run commit 0 pair ≡ Outcome.ok sequential)
    ↔ (rs : List (TxResult ℕ)) × Runs (λ b. b) true run commit 0 pair rs
      × (collect_results 0 (map some rs) ≡ Outcome.ok sequential)
unfolding execute_revm_sequential execute_from transitions
execute_revm_sequential-collect_results_example =
    execute_revm_sequential-collect_results (λ b. b) true run commit 0 pair sequential

-- Account 1 sends with a nonce that it has not reached.
abbrev hasty : ℕ → TxEnv
hasty i = if i == 1 then record tx_9 { caller = 1; gas_limit = 1; nonce = some 4 } else tx_9

evaluate_history-nonce_mismatch_example :
    (1 < 2) × Right {Code = ℕ} uint true hasty 1 none none 1 4 0 (value_at uint updates account_1 2)
unfolding evaluate_history evaluate_round evaluate_entry check_nonce max_fee apply_value
    write_account modify
evaluate_history-nonce_mismatch_example =
    evaluate_history-nonce_mismatch uint true hasty 1 none none 1 4 0 updates 2 start refl
