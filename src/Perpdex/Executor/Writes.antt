-- ===== src/Perpdex/Executor/Writes.antt =====
-- What a transaction may write.
use parallel_execution.Common.{
  ℕ, ◌^◌, ◌≡◌, ◌≤◌, ◌<◌, refl, Option, none, some, List, [], ◌∷◌, ltb, leb→le, arith,
}
use mathlib.Core.Path.{subst}
use parallel_execution.Perpdex.Types.{
  PlaceOrder, Operation, OperationResult, PerpDexTx, PerpDexResult,
}
use parallel_execution.Perpdex.State.{
  Location, balance, position, order, market_state, user_nonce, Value, balance_of, position_of,
  order_of, nonce_of, deleted, WriteSet, push, PositionData,
}
use parallel_execution.Perpdex.Executor.Base.{
  Executor, Uint, Buffer, Result, ok, err, Exec, ◌>>=◌, lift, write, generate_order_id,
  usdc_asset_id, read_balance, read_nonce,
}
use parallel_execution.Perpdex.Executor.Keeps.{
  Keeps, bind-Keeps, then-Keeps, lift-Keeps, guard-Keeps, done-Keeps, fail-Keeps, if-Keeps,
}
use parallel_execution.Perpdex.Executor.Operations.{
  execute_set_leverage, delete_orders, execute_cancel_order, execute_cancel_all, add_margin,
  execute_adjust_margin, rest_on_book, settle_fill, execute_place_order, execute_operation,
  execute_operations, execute_from, execute, as_result, VmExecutionResult, success, market_or_zero,
}

-- A write of `user`, who has `funds`: to a location of the user's own, and, if it is a balance, the
-- one in USDC and at most the funds.
abbrev pub Allowed : List ℕ → ℕ → Location → Value → Type 0
Allowed user funds (balance u a) (balance_of n) = (u ≡ user) × (a ≡ 0) × (n ≤ funds)
Allowed user funds (balance u a) _ = ⊥
Allowed user funds (position u m) (position_of p) = u ≡ user
Allowed user funds (position u m) _ = ⊥
Allowed user funds (order u m i) (order_of o) = u ≡ user
Allowed user funds (order u m i) deleted = u ≡ user
Allowed user funds (order u m i) _ = ⊥
Allowed user funds (user_nonce u) (nonce_of n) = u ≡ user
Allowed user funds (user_nonce u) _ = ⊥
Allowed user funds (market_state m) v = ⊥

abbrev pub AllAllowed : List ℕ → ℕ → WriteSet → Type 0
AllAllowed user funds [] = Unit {0}
AllAllowed user funds ((l, v) ∷ w) = Allowed user funds l v × AllAllowed user funds w

push-AllAllowed :
    (user : List ℕ) (funds : ℕ) (w : WriteSet) (l : Location) (v : Value)
    → AllAllowed user funds w
    → Allowed user funds l v
    → AllAllowed user funds (push w l v)
unfolding push
push-AllAllowed user funds [] l v h a = (a, tt)
push-AllAllowed user funds ((k, w) ∷ ws) l v h a = (h.0, push-AllAllowed user funds ws l v h.1 a)

-- The writes so far are allowed.
abbrev pub Safe : List ℕ → ℕ → Buffer → Type 0
Safe user funds b = AllAllowed user funds b.write_set

module _ {user : List ℕ} {funds : ℕ} where
  write-Safe :
      (l : Location) (v : Value) → Allowed user funds l v → Keeps (Safe user funds) (write l v)
  unfolding write
  write-Safe l v a = record { run = λ b h. push-AllAllowed user funds b.write_set l v h a }

  delete_orders-Safe : (m : ℕ) (ids : List ℕ) → Keeps (Safe user funds) (delete_orders user m ids)
  unfolding delete_orders
  delete_orders-Safe m [] = done-Keeps tt
  delete_orders-Safe m (i ∷ ids) =
      then-Keeps (write-Safe (order user m i) deleted refl) (delete_orders-Safe m ids)

-- What holds of the writes of a success.
abbrev pub OnSuccess : (WriteSet → Type 0) → VmExecutionResult → Type 0
OnSuccess P (success rs ws r fl) = P ws
OnSuccess P _ = Unit {0}

sub_le : (u : Uint) (a b : ℕ) → a < 2 ^ 256 → b ≤ a → u.sub a b ≤ a
sub_le u a b h le = omega (arith, u.sub_lem a b h (omega arith))

module _ (x : Executor) (tx : PerpDexTx) (funds : ℕ) (small : funds < 2 ^ 256)
    (has : read_balance x tx.user usdc_asset_id ≡ ok funds) where
  abbrev Good : {A : Type 0} → Exec A → Type 0
  Good m = Keeps (Safe tx.user funds) m

  -- A balance after taking from the funds.
  spend-Safe :
      (taken : ℕ)
      → taken ≤ funds
      → Good (write (balance tx.user usdc_asset_id) (balance_of (x.uint.sub funds taken)))
  spend-Safe taken le = write-Safe _ _ (refl, refl, sub_le x.uint funds taken small le)

  add_margin-Safe :
      (m amount : ℕ) (p : Option PositionData)
      → amount ≤ funds
      → Good (add_margin x tx m amount funds p)
  unfolding add_margin
  add_margin-Safe m amount none le = fail-Keeps _
  add_margin-Safe m amount (some p) le =
      then-Keeps (write-Safe _ _ refl) (then-Keeps (spend-Safe amount le) (done-Keeps _))

  funds_same : (bal : ℕ) → read_balance x tx.user usdc_asset_id ≡ ok bal → funds ≡ bal
  funds_same bal e = cc

  -- What was read as the balance is the funds.
  funds-Safe :
      {A : Type 0} (f : ℕ → Exec A)
      → Good (f funds)
      → Good (lift (read_balance x tx.user usdc_asset_id) >>= f)
  funds-Safe f h =
      lift-Keeps
        (λ bal e. let same : funds ≡ bal = funds_same bal e in subst (λ z. Good (f z)) same h)

  execute_adjust_margin-Safe : (m amount : ℕ) → Good (execute_adjust_margin x tx m amount)
  unfolding execute_adjust_margin
  execute_adjust_margin-Safe m amount =
      funds-Safe _
        (guard-Keeps _ _ (λ e. lift-Keeps (λ p _. add_margin-Safe m amount p (leb→le _ _ e))))

  rest_on_book-Safe : (o : PlaceOrder) (i f : ℕ) → Good (rest_on_book x tx o i f)
  unfolding rest_on_book
  rest_on_book-Safe o i f =
      if-Keeps (ltb 0 (x.uint.sub o.size f)) (λ _. write-Safe _ _ refl) (λ _. done-Keeps tt)

  settle_fill-Safe :
      (o : PlaceOrder) (p : Option PositionData) (margin f price : ℕ)
      → margin ≤ funds
      → Good (settle_fill x tx o p funds margin f price)
  unfolding settle_fill
  settle_fill-Safe o p margin f price le =
      if-Keeps (ltb 0 f)
        (λ _. lift-Keeps (λ q _. then-Keeps (write-Safe _ _ refl) (spend-Safe margin le)))
        (λ _. done-Keeps tt)

  generate-Safe : Good generate_order_id
  unfolding generate_order_id
  generate-Safe = record { run = λ b h. h }

  execute_place_order-Safe : (o : PlaceOrder) → Good (execute_place_order x tx o)
  unfolding execute_place_order
  execute_place_order-Safe o = guard-Keeps _ _ (λ _. funds-Safe _ (
      lift-Keeps (λ p _. lift-Keeps (λ m _. lift-Keeps (λ margin _. guard-Keeps _ _ (λ le.
        lift-Keeps (λ fill _. bind-Keeps generate-Safe (λ i.
          then-Keeps (rest_on_book-Safe o i fill.0) (
            then-Keeps (settle_fill-Safe o p margin fill.0 fill.1 (leb→le _ _ le))
              (done-Keeps _))))))))))

  execute_cancel_order-Safe : (m : ℕ) (ids : List ℕ) → Good (execute_cancel_order tx m ids)
  unfolding execute_cancel_order
  execute_cancel_order-Safe m ids = then-Keeps (delete_orders-Safe m ids) (done-Keeps _)

  execute_cancel_all-Safe : (m : Option ℕ) → Good (execute_cancel_all x tx m)
  unfolding execute_cancel_all
  execute_cancel_all-Safe m =
      lift-Keeps (λ ids _. then-Keeps (delete_orders-Safe (market_or_zero x m) ids) (done-Keeps _))

  execute_set_leverage-Safe : (m l : ℕ) → Good (execute_set_leverage m l)
  unfolding execute_set_leverage
  execute_set_leverage-Safe m l = guard-Keeps _ _ (λ _. done-Keeps _)

  execute_operation-Safe : (o : Operation) → Good (execute_operation x tx o)
  unfolding execute_operation
  execute_operation-Safe (Operation.place_order o) = execute_place_order-Safe o
  execute_operation-Safe (Operation.cancel_order m ids) = execute_cancel_order-Safe m ids
  execute_operation-Safe (Operation.cancel_all m) = execute_cancel_all-Safe m
  execute_operation-Safe (Operation.set_leverage m l) = execute_set_leverage-Safe m l
  execute_operation-Safe (Operation.adjust_margin m a) = execute_adjust_margin-Safe m a

  execute_operations-Safe :
      (ops : List Operation) (gas : ℕ) (results : List OperationResult)
      → Good (execute_operations x tx ops gas results)
  unfolding execute_operations
  execute_operations-Safe [] gas results = done-Keeps _
  execute_operations-Safe (o ∷ ops) gas results =
      bind-Keeps (execute_operation-Safe o) (λ r. execute_operations-Safe ops _ _)

  execute_from-Safe : (n : ℕ) → Good (execute_from x tx n)
  unfolding execute_from
  execute_from-Safe n = guard-Keeps _ _ (λ _.
      bind-Keeps (execute_operations-Safe tx.operations 0 [])
        (λ r. then-Keeps (write-Safe _ _ refl) (done-Keeps _)))

  as_result-Allowed :
      (r : Result PerpDexResult × Buffer)
      → Safe tx.user funds r.1
      → OnSuccess (AllAllowed tx.user funds) (as_result r).0
  as_result-Allowed (ok r, b) h = h
  as_result-Allowed (err e, b) h = tt

  -- A transaction whose user has `funds` USDC in storage writes, if it succeeds, only to the user's
  -- own balance, positions, orders and nonce, each with a value of its kind; and every balance that
  -- it writes is one in USDC of at most `funds`, so that no subtraction has wrapped around.
  pub execute-Allowed :
      (next_order_id : ℕ) → OnSuccess (AllAllowed tx.user funds) (execute x tx next_order_id).0
  unfolding execute
  execute-Allowed next_order_id =
      as_result-Allowed
        ((lift (read_nonce x tx.user) >>= execute_from x tx)
          (record { write_set = []; next_order_id = next_order_id }))
        ((lift-Keeps (λ n _. execute_from-Safe n)).run _ tt)
