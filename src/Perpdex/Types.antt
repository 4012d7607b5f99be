-- ===== src/Perpdex/Types.antt =====
-- Transactions of the perpetual DEX (crates/pevm/src/perpdex/types.rs). An `Address` is the list of its
-- 20 bytes; a `u8`, `u64` or `U256` is a number, with its range stated where it matters.
use parallel_execution.Common.{ℕ, Bool, List, Option}

-- `OrderType`
pub data OrderType : Type 0 where
  limit market stop_limit stop_market : OrderType

-- `Side`
pub data Side : Type 0 where
  long short : Side

-- `OrderStatus`
pub data OrderStatus : Type 0 where
  open_order partially_filled filled_order cancelled expired : OrderStatus

-- `Operation::PlaceOrder`
pub record PlaceOrder : Type 0 where
  pub market_id : ℕ
  pub order_type : OrderType
  pub side : Side
  pub price : ℕ
  pub size : ℕ
  pub leverage : ℕ
  pub post_only : Bool
  pub reduce_only : Bool
  pub expires_at : Option ℕ

-- `Operation`
pub data Operation : Type 0 where
  place_order : PlaceOrder → Operation
  cancel_order : (market_id : ℕ) (order_ids : List ℕ) → Operation
  cancel_all : (market_id : Option ℕ) → Operation
  set_leverage : (market_id leverage : ℕ) → Operation
  adjust_margin : (market_id amount : ℕ) → Operation

-- `PerpDexTx`; the signature is its 65 bytes.
pub record PerpDexTx : Type 0 where
  pub user : List ℕ
  pub operations : List Operation
  pub gas_limit : ℕ
  pub gas_price : ℕ
  pub nonce : ℕ
  pub signature : Option (List ℕ)

-- `OperationResult`
pub data OperationResult : Type 0 where
  order_placed : (order_id filled_size : ℕ) → OperationResult
  orders_cancelled : (order_ids : List ℕ) → OperationResult
  leverage_updated : (market_id leverage : ℕ) → OperationResult
  margin_adjusted : (market_id amount : ℕ) → OperationResult

-- `PerpDexResult`
pub record PerpDexResult : Type 0 where
  pub gas_used : ℕ
  pub operations_executed : List OperationResult
