-- ===== src/Finalize/History.antt =====
-- The evaluation of an account over its write history, and of all lazy accounts.
use parallel_execution.Common.{
  ℕ, zero, suc, Bool, true, false, Option, none, some, List, [], ◌∷◌, ◌==◌, ◌&&◌, if◌then◌else◌,
  update,
}
use parallel_execution.MvMemory.{MemoryEntry, Tree, MvMemory, AccountBasic}
use parallel_execution.Vm.Types.{Saturating, TxEnv, EvmStorage, MemoryLocation}
use parallel_execution.Finalize.Entry.{
  EvmAccount, TxResult, Outcome, ok, err, panicked, ◌>>=◌, collect_results, first_entry,
  initial_account, from_fetched, evaluate_entry, check_nonce,
}

abbrev pub is_none : Option ℕ → Bool
is_none none = true
is_none (some h) = false

abbrev pub no_storage : ℕ → Option ℕ
no_storage k = none

-- The variables of the loop over the write history.
pub record Evaluation (Code : Type 0) : Type 0 where
  pub account : AccountBasic
  pub results : List (TxResult Code)

module _ {Code : Type 0} where
  abbrev pub overwrite :
      AccountBasic → Option ℕ → Option Code → Option (Option (EvmAccount Code)) → EvmAccount Code
  overwrite v h c (some (some a)) = record a { balance = v.balance; nonce = v.nonce }
  overwrite v h c (some none) = record {
    balance = v.balance;
    nonce = v.nonce;
    code_hash = h;
    code = c;
    storage = no_storage;
  }
  overwrite v h c none = record {
    balance = v.balance;
    nonce = v.nonce;
    code_hash = h;
    code = c;
    storage = no_storage;
  }

  -- The update of `tx_result.state`.
  unfoldable pub write_account :
      Bool → ℕ → Option ℕ → Option Code → AccountBasic → TxResult Code → TxResult Code
  write_account eip_161 address h c v r = record r {
    state = update r.state address (
        some (
          if eip_161 && is_none h && v.nonce == 0 && v.balance == 0
          then none
          else some (overwrite v h c (r.state address))));
  }

  -- `get_unchecked_mut(tx_idx)` and a change; the index is in range.
  unfoldable pub modify :
      ℕ → (TxResult Code → TxResult Code) → List (TxResult Code) → List (TxResult Code)
  modify i f [] = []
  modify zero f (r ∷ rs) = f r ∷ rs
  modify (suc i) f (r ∷ rs) = r ∷ modify i f rs

  module _ (u : Saturating) (eip_161 : Bool) (txs : ℕ → TxEnv) (address : ℕ) (h : Option ℕ)
      (c : Option Code) where
    -- One round of the loop.
    unfoldable pub evaluate_round : ℕ → MemoryEntry → Evaluation Code → Outcome (Evaluation Code)
    evaluate_round i e s = evaluate_entry u (txs i) e s.account >>= λ v.
        check_nonce u i (txs i) address v >>= λ _.
        ok (record {
          account = v;
          results = modify i (write_account eip_161 address h c v) s.results;
        })

    abbrev pub round_of : ℕ → Option MemoryEntry → Evaluation Code → Outcome (Evaluation Code)
    round_of i none s = ok s
    round_of i (some e) s = evaluate_round i e s

    -- The entries below `bound`, the lowest first.
    unfoldable pub evaluate_history : Tree → ℕ → Evaluation Code → Outcome (Evaluation Code)
    evaluate_history t zero s = ok s
    evaluate_history t (suc i) s = evaluate_history t i s >>= round_of i (t i)

  abbrev pub code_of : EvmStorage Code → Option ℕ → Outcome (Option Code)
  code_of storage none = ok none
  code_of storage (some h) = from_fetched (storage.code_by_hash_of h)

  abbrev pub results_of : Outcome (Evaluation Code) → Outcome (List (TxResult Code))
  results_of (ok s) = ok s.results
  results_of (err e) = err e
  results_of panicked = panicked

  -- One lazy address, of a block of `block_size` transactions.
  abbrev pub evaluate_tree :
      Saturating
      → Bool
      → EvmStorage Code
      → (ℕ → TxEnv)
      → ℕ
      → ℕ
      → List (TxResult Code)
      → Option Tree
      → Outcome (List (TxResult Code))
  evaluate_tree u eip_161 storage txs block_size address results none = ok results
  evaluate_tree u eip_161 storage txs block_size address results (some t) =
      from_fetched (storage.code_hash_of address) >>= λ h. code_of storage h >>= λ c. results_of (
        evaluate_history u eip_161 txs address h c t block_size (record {
          account = initial_account (first_entry t block_size) (storage.basic_of address);
          results = results;
        }))

  -- The loop over the lazy addresses.
  unfoldable pub evaluate_addresses :
      Saturating
      → Bool
      → EvmStorage Code
      → (ℕ → TxEnv)
      → ℕ
      → (MemoryLocation → ℕ)
      → MvMemory
      → List ℕ
      → List (TxResult Code)
      → Outcome (List (TxResult Code))
  evaluate_addresses u eip_161 storage txs n hash m [] results = ok results
  evaluate_addresses u eip_161 storage txs n hash m (a ∷ addresses) results =
      evaluate_tree u eip_161 storage txs n a results (m.data_of (hash (MemoryLocation.basic a)))
      >>= evaluate_addresses u eip_161 storage txs n hash m addresses

  unfoldable pub finalize :
      Saturating
      → Bool
      → EvmStorage Code
      → (ℕ → TxEnv)
      → ℕ
      → (MemoryLocation → ℕ)
      → MvMemory
      → List ℕ
      → List (Option (TxResult Code))
      → Outcome (List (TxResult Code))
  finalize u eip_161 storage txs n hash m addresses results =
      collect_results 0 results >>= evaluate_addresses u eip_161 storage txs n hash m addresses
