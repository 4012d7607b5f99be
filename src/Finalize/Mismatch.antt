-- ===== src/Finalize/Mismatch.antt =====
-- When the end of a block reports a wrong nonce.
use parallel_execution.Common.{
  ℕ, zero, suc, ◌+◌, ◌-◌, ◌≡◌, ◌≢◌, ◌<◌, ◌⊎◌, refl, ap, Bool, true, false, not, Option, none, some,
  ◌==◌, ==_iff, ltb, inl, inr, Bool-cases, arith,
}
use mathlib.Core.Path.{subst}
use parallel_execution.MvMemory.{MemoryEntry, MemoryValue, written, estimate, Tree, AccountBasic}
use parallel_execution.Vm.Types.{Saturating, TxEnv}
use parallel_execution.Finalize.Entry.{
  Outcome, ok, err, panicked, ◌>>=◌, PexeError, nonce_mismatch, max_fee, evaluate_entry,
  nonce_checked, check_sender, check_nonce,
}
use parallel_execution.Finalize.History.{Evaluation, evaluate_round, evaluate_history, round_of}
use parallel_execution.Finalize.Exact.{value_of, value_at}
use parallel_execution.Finalize.Fold.{evaluate_entry-value_of, evaluate_history-value_at}

err-bind :
    {A B : Type 0} (r : Outcome A) (f : A → Outcome B) (e : PexeError)
    → (r >>= f) ≡ err e
    → (r ≡ err e) ⊎ ((a : A) × (r ≡ ok a) × (f a ≡ err e))
err-bind (ok a) f e h = inr (a, refl, h)
err-bind (err e') f e h = inl (let same : e' ≡ e = cc in ap err same)
err-bind panicked f e h = absurd cc

-- A wrong nonce: the transaction has one, and the account's is that of another execution.
abbrev pub Wrong : Option ℕ → ℕ → ℕ → AccountBasic → Type 0
Wrong tx_nonce n executed v = (tx_nonce ≡ some n) × (v.nonce ≡ executed + 1) × (n ≢ executed)

entry_no_mismatch :
    (u : Saturating) (tx : TxEnv) (x : MemoryEntry) (v : AccountBasic) (j n executed : ℕ)
    → evaluate_entry u tx x v ≢ err (nonce_mismatch j n executed)
unfolding evaluate_entry
entry_no_mismatch u tx (written k (MemoryValue.basic x)) v j n executed h = absurd cc
entry_no_mismatch u tx (written k (MemoryValue.lazy_recipient x)) v j n executed h = absurd cc
entry_no_mismatch u tx (written k (MemoryValue.lazy_sender x)) v j n executed h =
    elim (Bool-cases (ltb v.balance (max_fee u tx))) [
      | inl c ↦ absurd (let h' = rw c at h in cc)
      | inr c ↦ absurd (let h' = rw c at h in cc)
    ]
entry_no_mismatch u tx (written k (MemoryValue.code_hash c)) v j n executed h = absurd cc
entry_no_mismatch u tx (written k (MemoryValue.stored x)) v j n executed h = absurd cc
entry_no_mismatch u tx (written k MemoryValue.self_destructed) v j n executed h = absurd cc
entry_no_mismatch u tx estimate v j n executed h = absurd cc

checked_mismatch :
    (u : Saturating) (i m : ℕ) (v : AccountBasic) (j n executed : ℕ)
    → nonce_checked u i m v ≡ err (nonce_mismatch j n executed)
    → (i ≡ j) × Wrong (some m) n executed v
checked_mismatch u i m v j n executed h = elim (Bool-cases (v.nonce == 0)) [
  | inl c ↦ absurd (let h' = rw c at h in cc)
  | inr c ↦
      let h' = rw c at h in
      elim (Bool-cases (not (m == v.nonce - 1))) [
        | inl d ↦
            let h'' = rw d at h' in
            let index : i ≡ j = cc in
            let own : m ≡ n = cc in
            let other : v.nonce - 1 ≡ executed = cc in
            (index, (ap some own, ground arith, λ e. ground arith))
        | inr d ↦ absurd (let h'' = rw d at h' in cc)
      ]
]

sender_mismatch :
    (u : Saturating) (i : ℕ) (is_sender : Bool) (tx_nonce : Option ℕ) (v : AccountBasic)
    (j n executed : ℕ)
    → check_sender u i is_sender tx_nonce v ≡ err (nonce_mismatch j n executed)
    → (i ≡ j) × (is_sender ≡ true) × Wrong tx_nonce n executed v
sender_mismatch u i true (some m) v j n executed h =
    let (index, wrong) = checked_mismatch u i m v j n executed h in (index, refl, wrong)
sender_mismatch u i true none v j n executed h = absurd cc
sender_mismatch u i false tx_nonce v j n executed h = absurd cc

module _ {Code : Type 0} (u : Saturating) (eip_161 : Bool) (txs : ℕ → TxEnv) (address : ℕ)
    (h : Option ℕ) (c : Option Code) (j n executed : ℕ) where
  -- The report is right, of the account after transaction `j`.
  abbrev pub Right : AccountBasic → Type 0
  Right v = ((txs j).caller ≡ address) × Wrong (txs j).nonce n executed v

  round-Right :
      (i : ℕ) (o : Option MemoryEntry) (s : Evaluation Code)
      → round_of u eip_161 txs address h c i o s ≡ err (nonce_mismatch j n executed)
      → (i ≡ j) × Right (value_of u o s.account)
  unfolding evaluate_round check_nonce
  round-Right i none s e = absurd cc
  round-Right i (some x) s e =
      elim (err-bind (evaluate_entry u (txs i) x s.account) _ (nonce_mismatch j n executed) e) [
        | inl bad ↦ absurd (entry_no_mismatch u (txs i) x s.account j n executed bad)
        | inr (v, q, rest) ↦
            elim (err-bind (check_sender u i ((txs i).caller == address) (txs i).nonce v) _
              (nonce_mismatch j n executed) rest) [
                | inl bad ↦
                    let (index, sender, wrong) =
                      sender_mismatch u i ((txs i).caller == address) (txs i).nonce v j n executed
                        bad in
                    let value : v ≡ value_of u (some x) s.account =
                      evaluate_entry-value_of u (txs i) x s.account v q in
                    (index, rw (← value, ← index) ((==_iff (txs i).caller address).0 sender, wrong))
                | inr (_, _, last) ↦ absurd cc
              ]
      ]

  -- A `NonceMismatch` at the end of a block is right: the index is that of a transaction of
  -- the block that the account sent with the reported nonce; the account that the entries up
  -- to it give has the reported executed nonce and one more; and the two nonces differ.
  pub evaluate_history-nonce_mismatch :
      (t : Tree) (bound : ℕ) (s : Evaluation Code)
      → evaluate_history u eip_161 txs address h c t bound s ≡ err (nonce_mismatch j n executed)
      → (j < bound) × Right (value_at u t s.account (suc j))
  unfolding evaluate_history
  evaluate_history-nonce_mismatch t zero s e = absurd cc
  evaluate_history-nonce_mismatch t (suc i) s e =
      elim (err-bind (evaluate_history u eip_161 txs address h c t i s) _
        (nonce_mismatch j n executed) e) [
          | inl before ↦
              let (lt, right) = evaluate_history-nonce_mismatch t i s before in (omega arith, right)
          | inr (r, q, rest) ↦
              let (index, right) = round-Right i (t i) r rest in
              let start : r.account ≡ value_at u t s.account i =
                evaluate_history-value_at u eip_161 txs address h c t i s r q in
              let right' : Right (value_of u (t i) (value_at u t s.account i)) =
                rw (← start) right in
              (omega arith, subst (λ z. Right (value_at u t s.account (suc z))) index right')
        ]
