-- ===== src/Finalize/Fold.antt =====
-- A successful evaluation against the plain fold of the entries.
use parallel_execution.Common.{
  ℕ, zero, suc, ◌≡◌, refl, ap, sym, ◌∙◌, Option, none, some, Bool, ltb, inl, inr, Bool-cases,
}
use parallel_execution.MvMemory.{MemoryEntry, MemoryValue, written, estimate, Tree, AccountBasic}
use parallel_execution.Vm.Types.{Saturating, TxEnv}
use parallel_execution.Finalize.Entry.{
  Outcome, ok, err, panicked, ◌>>=◌, max_fee, evaluate_entry, check_nonce,
}
use parallel_execution.Finalize.History.{Evaluation, evaluate_round, evaluate_history, round_of}
use parallel_execution.Finalize.Exact.{value_of, value_at}

pub ok-bind :
    {A B : Type 0} (r : Outcome A) (f : A → Outcome B) (b : B)
    → (r >>= f) ≡ ok b
    → (a : A) × (r ≡ ok a) × (f a ≡ ok b)
ok-bind (ok a) f b h = (a, refl, h)
ok-bind (err e) f b h = absurd cc
ok-bind panicked f b h = absurd cc

ok_injective : {A : Type 0} (a b : A) → Outcome.ok a ≡ ok b → a ≡ b
ok_injective a b h = cc

pub evaluate_entry-value_of :
    (u : Saturating) (tx : TxEnv) (e : MemoryEntry) (v v' : AccountBasic)
    → evaluate_entry u tx e v ≡ ok v'
    → v' ≡ value_of u (some e) v
unfolding evaluate_entry
evaluate_entry-value_of u tx (written k (MemoryValue.basic x)) v v' h = cc
evaluate_entry-value_of u tx (written k (MemoryValue.lazy_recipient x)) v v' h = cc
evaluate_entry-value_of u tx (written k (MemoryValue.lazy_sender x)) v v' h =
    elim (Bool-cases (ltb v.balance (max_fee u tx))) [
      | inl c ↦ absurd (let h' = rw c at h in cc)
      | inr c ↦ let h' = rw c at h in cc
    ]
evaluate_entry-value_of u tx (written k (MemoryValue.code_hash c)) v v' h = absurd cc
evaluate_entry-value_of u tx (written k (MemoryValue.stored x)) v v' h = absurd cc
evaluate_entry-value_of u tx (written k MemoryValue.self_destructed) v v' h = absurd cc
evaluate_entry-value_of u tx estimate v v' h = absurd cc

module _ {Code : Type 0} (u : Saturating) (eip_161 : Bool) (txs : ℕ → TxEnv) (address : ℕ)
    (h : Option ℕ) (c : Option Code) where
  round-value_of :
      (i : ℕ) (o : Option MemoryEntry) (s s' : Evaluation Code)
      → round_of u eip_161 txs address h c i o s ≡ ok s'
      → s'.account ≡ value_of u o s.account
  unfolding evaluate_round
  round-value_of i none s s' e = let same : s ≡ s' = cc in ap (λ z. z.account) (sym same)
  round-value_of i (some x) s s' e =
      let (v, q, rest) = ok-bind (evaluate_entry u (txs i) x s.account) _ s' e in
      let (_, _, last) = ok-bind (check_nonce u i (txs i) address v) _ s' rest in
      ap (λ z. z.account) (sym (ok_injective _ s' last))
      ∙ evaluate_entry-value_of u (txs i) x s.account v q

  -- A successful evaluation of an account's entries leaves the account that the entries give
  -- when they are applied one after the other, so the checks of funds and nonces and the
  -- writes to the results only decide whether there is an outcome.
  pub evaluate_history-value_at :
      (t : Tree) (n : ℕ) (s s' : Evaluation Code)
      → evaluate_history u eip_161 txs address h c t n s ≡ ok s'
      → s'.account ≡ value_at u t s.account n
  unfolding evaluate_history
  evaluate_history-value_at t zero s s' e = let same : s ≡ s' = cc in ap (λ z. z.account) (sym same)
  evaluate_history-value_at t (suc i) s s' e =
      let (r, q, rest) = ok-bind (evaluate_history u eip_161 txs address h c t i s) _ s' e in
      round-value_of i (t i) r s' rest ∙ ap (value_of u (t i)) (evaluate_history-value_at t i s r q)
