-- ===== src/Perpdex/Executor/Outcome.antt =====
-- What a transaction that succeeds reports.
use mathlib.Core.Path.{subst}
use mathlib.Core.List.{append_assoc, append-nil}
use parallel_execution.Common.{
  ℕ, ◌+◌, ◌*◌, ◌%◌, ◌≡◌, ◌<◌, refl, sym, ap, ◌∙◌, List, [], ◌∷◌, ◌++◌, length, usize_mod,
  usize_succ, ◌==◌, ==_iff, arith,
}
use parallel_execution.Perpdex.Types.{Operation, OperationResult, PerpDexTx, PerpDexResult}
use parallel_execution.Perpdex.State.{Location, user_nonce, Value, nonce_of, WriteSet, push}
use parallel_execution.Perpdex.Executor.Base.{
  Executor, Buffer, Result, ok, err, ◌>>=◌, ◌>>◌, done, write, read_nonce,
}
use parallel_execution.Perpdex.Executor.Operations.{
  execute_operations, execute_from, execute, as_result, VmExecutionResult, success, estimate_gas,
}
use parallel_execution.Perpdex.Executor.Yields.{
  OnOk, Yields, bind-Yields, lift-Yields, guard-Yields, done-Yields, weaken-Yields,
}
use parallel_execution.Perpdex.Executor.Counter.{Counted, Numbered, Numbered-cons, operation-Counts}

push-append : (w : WriteSet) (l : Location) (v : Value) → push w l v ≡ w ++ (l, v) ∷ []
unfolding push
push-append w l v = refl

module _ (x : Executor) (tx : PerpDexTx) where
  -- What the loop over the operations adds to the results, the gas and the counter.
  abbrev Ran : ℕ → List OperationResult → List Operation → ℕ → PerpDexResult → Buffer → Type 0
  Ran gas results ops k r c =
      (rs : List OperationResult) × (r.operations_executed ≡ results ++ rs)
      × (length rs ≡ length ops)
      × Numbered k rs c.next_order_id
      × (r.gas_used ≡ (gas + estimate_gas * length ops) % usize_mod)

  more-Ran :
      (gas k : ℕ) (results : List OperationResult) (o : Operation) (ops : List Operation)
      (r : OperationResult) (k' : ℕ) (y : PerpDexResult) (d : Buffer)
      → Counted k r k'
      → Ran ((gas + estimate_gas) % usize_mod) (results ++ r ∷ []) ops k' y d
      → Ran gas results (o ∷ ops) k y d
  more-Ran gas k results o ops r k' y d n (rs, e, l, m, g) = (
    r ∷ rs,
    e ∙ append_assoc results (r ∷ []) rs,
    omega arith,
    Numbered-cons k k' d.next_order_id r rs n m,
    omega arith,
  )

  operations-Ran :
      (ops : List Operation) (gas : ℕ) (results : List OperationResult) (b : Buffer)
      → gas < usize_mod
      → Yields (Ran gas results ops b.next_order_id) (execute_operations x tx ops gas results) b
  unfolding execute_operations
  operations-Ran [] gas results b h =
      done-Yields _ ([], sym (append-nil results), refl, refl, omega arith)
  operations-Ran (o ∷ ops) gas results b h =
      bind-Yields (λ r c. Counted b.next_order_id r c.next_order_id) (operation-Counts x tx o b)
        (λ r c n.
          weaken-Yields
            (Ran ((gas + estimate_gas) % usize_mod) (results ++ r ∷ []) ops c.next_order_id)
            (Ran gas results (o ∷ ops) b.next_order_id)
            (operations-Ran ops ((gas + estimate_gas) % usize_mod) (results ++ r ∷ []) c
              (omega arith))
            (λ y d q. more-Ran gas b.next_order_id results o ops r c.next_order_id y d n q))

  -- What a transaction whose nonce is `n` has done, when it succeeds from the counter `k`.
  abbrev Reported : ℕ → ℕ → PerpDexResult → WriteSet → ℕ → Type 0
  Reported n k r ws k' =
      (n ≡ tx.nonce)
      × (length r.operations_executed ≡ length tx.operations)
      × Numbered k r.operations_executed k'
      × (r.gas_used ≡ (estimate_gas * length tx.operations) % usize_mod)
      × ((w : WriteSet) × (ws ≡ w ++ (user_nonce tx.user, nonce_of (usize_succ n)) ∷ []))

  write_last :
      (l : Location) (v : Value) (b : Buffer) (r : PerpDexResult)
      (R : PerpDexResult → Buffer → Type 0)
      → R r (record b { write_set = push b.write_set l v })
      → Yields R (write l v >> done r) b
  unfolding write done ◌>>◌ ◌>>=◌
  write_last l v b r R h = record { run = h }

  execute_from_reports :
      (n : ℕ) (b : Buffer)
      → Yields
          (λ r c. Reported n b.next_order_id r c.write_set c.next_order_id)
          (execute_from x tx n)
          b
  unfolding execute_from
  execute_from_reports n b = guard-Yields (n == tx.nonce) _ (λ same.
      bind-Yields (Ran 0 [] tx.operations b.next_order_id)
        (operations-Ran tx.operations 0 [] b (omega arith))
        (λ r c (rs, e, l, m, g).
          write_last _ _ c r (λ r c. Reported n b.next_order_id r c.write_set c.next_order_id)
            (
              (==_iff n tx.nonce).0 same,
              rw e l,
              rw e m,
              omega arith,
              (c.write_set, push-append c.write_set _ _),
            )))

  -- A success of `execute`, with the counter after it.
  abbrev OnSuccess : (PerpDexResult → WriteSet → ℕ → Type 0) → VmExecutionResult × ℕ → Type 0
  OnSuccess P (success rs ws r fl, k') = P r ws k'
  OnSuccess P _ = Unit {0}

  as_result_reports :
      (k : ℕ) (z : Result PerpDexResult × Buffer)
      → OnOk
          (λ r c.
            read_nonce x tx.user ≡ ok tx.nonce × Reported tx.nonce k r c.write_set c.next_order_id)
          z
      → OnSuccess
          (λ r ws k'. (read_nonce x tx.user ≡ ok tx.nonce) × Reported tx.nonce k r ws k')
          (as_result z)
  as_result_reports k (ok r, b) h = h
  as_result_reports k (err e, b) h = tt

  -- A transaction succeeds only if its nonce is the stored one, and then it reports one result for
  -- each operation and 21000 gas for each; its orders are numbered from the counter on, which ends
  -- after the last; and its last write takes the nonce on by one.
  pub execute_reports :
      (next_order_id : ℕ)
      → OnSuccess
          (λ r ws k'.
            (read_nonce x tx.user ≡ ok tx.nonce) × Reported tx.nonce next_order_id r ws k')
          (execute x tx next_order_id)
  unfolding execute
  execute_reports k =
      as_result_reports k _
        (lift-Yields (λ n e.
          weaken-Yields (λ r c. Reported n k r c.write_set c.next_order_id)
            (λ r c.
              (read_nonce x tx.user ≡ ok tx.nonce)
              × Reported tx.nonce k r c.write_set c.next_order_id)
            (execute_from_reports n (record { write_set = []; next_order_id = k }))
            (λ r c h.
              (e ∙ ap ok h.0, subst (λ z. Reported z k r c.write_set c.next_order_id) h.0 h)))).run
