-- ===== src/Perpdex/Executor/Counter.antt =====
-- How the operations number their orders.
use parallel_execution.Common.{ℕ, ◌≡◌, refl, Option, none, some, List, [], ◌∷◌, usize_succ, ltb}
use parallel_execution.Perpdex.Types.{PlaceOrder, Operation, OperationResult, PerpDexTx}
use parallel_execution.Perpdex.State.{Location, Value, PositionData}
use parallel_execution.Perpdex.Executor.Base.{
  Executor, Buffer, Exec, ◌>>=◌, ◌>>◌, lift, done, write, generate_order_id,
}
use parallel_execution.Perpdex.Executor.Keeps.{Keeps, then-Keeps, lift-Keeps, done-Keeps, if-Keeps}
use parallel_execution.Perpdex.Executor.Operations.{
  execute_set_leverage, delete_orders, execute_cancel_order, execute_cancel_all, add_margin,
  execute_adjust_margin, rest_on_book, settle_fill, execute_place_order, execute_operation,
  market_or_zero,
}
use parallel_execution.Perpdex.Executor.Yields.{
  Yields, bind-Yields, lift-Yields, guard-Yields, kept-Yields, done-Yields,
}

-- An operation's result, if it is an order, has the counter for its id and takes the counter on.
abbrev pub Counted : ℕ → OperationResult → ℕ → Type 0
Counted k (OperationResult.order_placed i f) k' = (i ≡ k) × (k' ≡ usize_succ k)
Counted k (OperationResult.orders_cancelled ids) k' = k' ≡ k
Counted k (OperationResult.leverage_updated m l) k' = k' ≡ k
Counted k (OperationResult.margin_adjusted m a) k' = k' ≡ k

-- The orders among the results are numbered from `k` on, and `k'` is the number after the last.
abbrev pub Numbered : ℕ → List OperationResult → ℕ → Type 0
Numbered k [] k' = k' ≡ k
Numbered k (OperationResult.order_placed i f ∷ rs) k' = (i ≡ k) × Numbered (usize_succ k) rs k'
Numbered k (OperationResult.orders_cancelled ids ∷ rs) k' = Numbered k rs k'
Numbered k (OperationResult.leverage_updated m l ∷ rs) k' = Numbered k rs k'
Numbered k (OperationResult.margin_adjusted m a ∷ rs) k' = Numbered k rs k'

pub Numbered-cons :
    (k k1 k' : ℕ) (r : OperationResult) (rs : List OperationResult)
    → Counted k r k1
    → Numbered k1 rs k'
    → Numbered k (r ∷ rs) k'
Numbered-cons k k1 k' (OperationResult.order_placed i f) rs (e, f') n = (e, rw (← f') n)
Numbered-cons k k1 k' (OperationResult.orders_cancelled ids) rs e n = rw (← e) n
Numbered-cons k k1 k' (OperationResult.leverage_updated m l) rs e n = rw (← e) n
Numbered-cons k k1 k' (OperationResult.margin_adjusted m a) rs e n = rw (← e) n

-- The counter stands at `k`.
abbrev pub At : ℕ → Buffer → Type 0
At k b = b.next_order_id ≡ k

module _ {k : ℕ} where
  write-At : (l : Location) (v : Value) → Keeps (At k) (write l v)
  unfolding write
  write-At l v = record { run = λ b h. h }

  delete_orders-At :
      (user : List ℕ) (m : ℕ) (ids : List ℕ) → Keeps (At k) (delete_orders user m ids)
  unfolding delete_orders
  delete_orders-At user m [] = done-Keeps tt
  delete_orders-At user m (i ∷ ids) = then-Keeps (write-At _ _) (delete_orders-At user m ids)

module _ (x : Executor) (tx : PerpDexTx) where
  rest_on_book-At : {k : ℕ} (o : PlaceOrder) (i f : ℕ) → Keeps (At k) (rest_on_book x tx o i f)
  unfolding rest_on_book
  rest_on_book-At o i f =
      if-Keeps (ltb 0 (x.uint.sub o.size f)) (λ _. write-At _ _) (λ _. done-Keeps tt)

  settle_fill-At :
      {k : ℕ} (o : PlaceOrder) (p : Option PositionData) (bal margin f price : ℕ)
      → Keeps (At k) (settle_fill x tx o p bal margin f price)
  unfolding settle_fill
  settle_fill-At o p bal margin f price =
      if-Keeps (ltb 0 f) (λ _. lift-Keeps (λ q _. then-Keeps (write-At _ _) (write-At _ _)))
        (λ _. done-Keeps tt)

  abbrev pub Counts : Exec OperationResult → Type 0
  Counts m = (b : Buffer) → Yields (λ r c. Counted b.next_order_id r c.next_order_id) m b

  generate-Counts :
      (b : Buffer)
      → Yields
          (λ i c. (i ≡ b.next_order_id) × At (usize_succ b.next_order_id) c)
          generate_order_id
          b
  unfolding generate_order_id
  generate-Counts b = record { run = (refl, refl) }

  numbered-Counts :
      (o : PlaceOrder) (p : Option PositionData) (bal margin f price : ℕ)
      → Counts (do
        order_id ← generate_order_id
        rest_on_book x tx o order_id f
        settle_fill x tx o p bal margin f price
        done (OperationResult.order_placed order_id f))
  numbered-Counts o p bal margin f price b =
      let now = At (usize_succ b.next_order_id) in
      bind-Yields (λ i c. (i ≡ b.next_order_id) × now c) (generate-Counts b)
        (λ i c h. kept-Yields now (rest_on_book-At o i f) h.1 (λ d g.
          kept-Yields now (settle_fill-At o p bal margin f price) g
            (λ e q. done-Yields _ (h.0, q))))

  place-Counts : (o : PlaceOrder) → Counts (execute_place_order x tx o)
  unfolding execute_place_order
  place-Counts o b = guard-Yields _ _ (λ _. lift-Yields (λ bal _. lift-Yields (λ p _.
      lift-Yields (λ m _. lift-Yields (λ margin _.
        guard-Yields _ _
          (λ _. lift-Yields (λ fill _. numbered-Counts o p bal margin fill.0 fill.1 b)))))))

  add_margin-Counts :
      (m amount bal : ℕ) (p : Option PositionData) → Counts (add_margin x tx m amount bal p)
  unfolding add_margin lift
  add_margin-Counts m amount bal none b = record { run = tt }
  add_margin-Counts m amount bal (some p) b =
      kept-Yields (At b.next_order_id) (write-At _ _) refl
        (λ c h. kept-Yields (At b.next_order_id) (write-At _ _) h (λ d g. done-Yields _ g))

  pub operation-Counts : (o : Operation) → Counts (execute_operation x tx o)
  unfolding execute_operation execute_cancel_order execute_cancel_all execute_set_leverage
      execute_adjust_margin
  operation-Counts (Operation.place_order o) b = place-Counts o b
  operation-Counts (Operation.cancel_order m ids) b =
      kept-Yields (At b.next_order_id) (delete_orders-At tx.user m ids) refl
        (λ c h. done-Yields _ h)
  operation-Counts (Operation.cancel_all m) b = lift-Yields (λ ids _.
      kept-Yields (At b.next_order_id) (delete_orders-At tx.user (market_or_zero x m) ids) refl
        (λ c h. done-Yields _ h))
  operation-Counts (Operation.set_leverage m l) b = guard-Yields _ _ (λ _. done-Yields _ refl)
  operation-Counts (Operation.adjust_margin m a) b =
      lift-Yields
        (λ bal _. guard-Yields _ _ (λ _. lift-Yields (λ p _. add_margin-Counts m a bal p b)))
