-- ===== src/Perpdex/Executor/Operations.antt =====
-- The operations of a transaction, and `execute`.
use parallel_execution.Common.{
  ℕ, ◌+◌, ◌%◌, Bool, Option, none, some, List, [], ◌∷◌, ◌++◌, ltb, leb, ◌==◌, if◌then◌else◌, ◌&&◌,
  usize_mod, usize_succ,
}
use parallel_execution.Types.{need_validation, no_flags}
use parallel_execution.Perpdex.Types.{
  OrderType, limit, market, stop_limit, stop_market, OrderStatus, open_order, partially_filled,
  PlaceOrder, Operation, OperationResult, PerpDexTx, PerpDexResult,
}
use parallel_execution.Perpdex.State.{
  Location, balance, position, order, user_nonce, balance_of, position_of, order_of, nonce_of,
  deleted, PositionData, MarketData, WriteSet,
}
use parallel_execution.Perpdex.Executor.Base.{
  Executor, ExecutionError, nonce_mismatch, insufficient_balance, invalid_leverage,
  invalid_position, Buffer, Result, ok, err, Exec, ◌>>=◌, ◌>>◌, lift, done, guard, write,
  generate_order_id, usdc_asset_id, from_stored, read_nonce, read_balance, read_position,
  read_market,
}
use parallel_execution.Perpdex.Executor.Matching.{
  execute_market_order, execute_limit_order, calculate_required_margin, update_position,
}

abbrev pub valid_leverage : ℕ → Bool
valid_leverage leverage = leb 1 leverage && leb leverage 100

unfoldable pub execute_set_leverage : ℕ → ℕ → Exec OperationResult
execute_set_leverage market_id leverage = do
  guard (valid_leverage leverage) (invalid_leverage leverage)
  done (OperationResult.leverage_updated market_id leverage)

-- The loop of both cancellations.
unfoldable pub delete_orders : List ℕ → ℕ → List ℕ → Exec (Unit {0})
delete_orders user market_id [] = done tt
delete_orders user market_id (i ∷ ids) =
    write (order user market_id i) deleted >> delete_orders user market_id ids

unfoldable pub execute_cancel_order : PerpDexTx → ℕ → List ℕ → Exec OperationResult
execute_cancel_order tx market_id order_ids = do
  delete_orders tx.user market_id order_ids
  done (OperationResult.orders_cancelled order_ids)

abbrev pub status_of : ℕ → OrderStatus
status_of filled_size = if ltb 0 filled_size then partially_filled else open_order

-- `VmExecutionResult`
pub data VmExecutionResult : Type 0 where
  success :
      (read_set : List Location) (write_set : WriteSet) (result : PerpDexResult) (flags : ℕ)
      → VmExecutionResult
  blocked : (blocking_tx_idx : ℕ) → VmExecutionResult
  retry fallback_to_sequential : VmExecutionResult
  error : ExecutionError → VmExecutionResult

abbrev pub flags_for : List Location → ℕ
flags_for [] = no_flags
flags_for (l ∷ ls) = need_validation

-- Nothing is ever put in the read set.
abbrev pub as_result : Result PerpDexResult × Buffer → VmExecutionResult × ℕ
as_result (ok r, b) = (success [] b.write_set r (flags_for []), b.next_order_id)
as_result (err e, b) = (error e, b.next_order_id)

abbrev pub estimate_gas : ℕ
estimate_gas = 21000

module _ (x : Executor) where
  -- The orders that `CancelAll` reads.
  unfoldable pub orders_of : List ℕ → Option ℕ → Result (List ℕ)
  orders_of user (some mid) = from_stored (x.storage.get_user_orders user mid)
  orders_of user none = from_stored (x.storage.get_all_user_orders user)

  abbrev pub market_or_zero : Option ℕ → ℕ
  market_or_zero (some mid) = mid
  market_or_zero none = 0

  unfoldable pub execute_cancel_all : PerpDexTx → Option ℕ → Exec OperationResult
  execute_cancel_all tx market_id = do
    order_ids ← lift (orders_of tx.user market_id)
    delete_orders tx.user (market_or_zero market_id) order_ids
    done (OperationResult.orders_cancelled order_ids)

  -- With the position in hand.
  unfoldable pub add_margin : PerpDexTx → ℕ → ℕ → ℕ → Option PositionData → Exec OperationResult
  add_margin tx market_id amount bal none =
      lift (err (invalid_position "No position to adjust margin"))
  add_margin tx market_id amount bal (some p) = do
    write (position tx.user market_id)
        (position_of (record p { margin = x.uint.add p.margin amount }))
    write (balance tx.user usdc_asset_id) (balance_of (x.uint.sub bal amount))
    done (OperationResult.margin_adjusted market_id amount)

  unfoldable pub execute_adjust_margin : PerpDexTx → ℕ → ℕ → Exec OperationResult
  execute_adjust_margin tx market_id amount = do
    bal ← lift (read_balance x tx.user usdc_asset_id)
    guard (leb amount bal) (insufficient_balance amount bal)
    pos' ← lift (read_position x tx.user market_id)
    add_margin tx market_id amount bal pos'

  -- "5. Match order based on type"
  unfoldable pub match_order :
      PlaceOrder → MarketData → Option PositionData → OrderType → Result (ℕ × ℕ)
  match_order o m p market = execute_market_order x.uint o.side o.size m p o.reduce_only
  match_order o m p limit =
      if o.post_only
      then ok (0, 0)
      else execute_limit_order x.uint o.side o.price o.size m p o.reduce_only
  match_order o m p stop_limit = ok (0, 0)
  match_order o m p stop_market = ok (0, 0)

  -- "7. Place remaining size on orderbook"
  unfoldable pub rest_on_book : PerpDexTx → PlaceOrder → ℕ → ℕ → Exec (Unit {0})
  rest_on_book tx o order_id filled_size =
      let remaining = x.uint.sub o.size filled_size in
      if ltb 0 remaining
      then write (order tx.user o.market_id order_id) (
          order_of (record {
            order_type = o.order_type;
            side = o.side;
            price = o.price;
            size = remaining;
            filled = filled_size;
            status = status_of filled_size;
            post_only = o.post_only;
            reduce_only = o.reduce_only;
            created_at = x.block_config.timestamp;
            expires_at = o.expires_at;
          }))
      else done tt

  -- "8. Update position if filled"
  unfoldable pub settle_fill :
      PerpDexTx → PlaceOrder → Option PositionData → ℕ → ℕ → ℕ → ℕ → Exec (Unit {0})
  settle_fill tx o p bal required_margin filled_size avg_fill_price =
      if ltb 0 filled_size
      then (do
        new_position ← lift (update_position x.uint p o.side filled_size avg_fill_price o.leverage)
        write (position tx.user o.market_id) (position_of new_position)
        write (balance tx.user usdc_asset_id) (balance_of (x.uint.sub bal required_margin)))
      else done tt

  unfoldable pub execute_place_order : PerpDexTx → PlaceOrder → Exec OperationResult
  execute_place_order tx o = do
    guard (valid_leverage o.leverage) (invalid_leverage o.leverage)
    bal ← lift (read_balance x tx.user usdc_asset_id)
    p ← lift (read_position x tx.user o.market_id)
    m ← lift (read_market x o.market_id)
    required_margin ← lift (calculate_required_margin x.uint o.price o.size o.leverage)
    guard (leb required_margin bal) (insufficient_balance required_margin bal)
    fill ← lift (match_order o m p o.order_type)
    order_id ← generate_order_id
    rest_on_book tx o order_id fill.0
    settle_fill tx o p bal required_margin fill.0 fill.1
    done (OperationResult.order_placed order_id fill.0)

  unfoldable pub execute_operation : PerpDexTx → Operation → Exec OperationResult
  execute_operation tx (Operation.place_order o) = execute_place_order tx o
  execute_operation tx (Operation.cancel_order m ids) = execute_cancel_order tx m ids
  execute_operation tx (Operation.cancel_all m) = execute_cancel_all tx m
  execute_operation tx (Operation.set_leverage m l) = execute_set_leverage m l
  execute_operation tx (Operation.adjust_margin m a) = execute_adjust_margin tx m a

  -- "2. Execute each operation", from the gas and the results so far.
  unfoldable pub execute_operations :
      PerpDexTx → List Operation → ℕ → List OperationResult → Exec PerpDexResult
  execute_operations tx [] gas results =
      done (record { gas_used = gas; operations_executed = results })
  execute_operations tx (op ∷ ops) gas results = execute_operation tx op >>= λ r.
      execute_operations tx ops ((gas + estimate_gas) % usize_mod) (results ++ r ∷ [])

  -- From the nonce that was read.
  unfoldable pub execute_from : PerpDexTx → ℕ → Exec PerpDexResult
  execute_from tx current_nonce = do
    guard (current_nonce == tx.nonce) (nonce_mismatch current_nonce tx.nonce)
    result ← execute_operations tx tx.operations 0 []
    write (user_nonce tx.user) (nonce_of (usize_succ current_nonce))
    done result

  -- The result, and the order counter after the call.
  unfoldable pub execute : PerpDexTx → ℕ → VmExecutionResult × ℕ
  execute tx next_order_id = as_result (
      (lift (read_nonce x tx.user) >>= execute_from tx)
        (record { write_set = []; next_order_id = next_order_id }))
