-- ===== src/Perpdex/State.antt =====
-- State locations and values (crates/pevm/src/perpdex/state.rs), and the sets of reads and writes of
-- a transaction (crates/pevm/src/perpdex/executor_traits.rs).
use parallel_execution.Common.{ℕ, Bool, true, false, List, [], ◌∷◌, ◌++◌, Option, ℤ}
use parallel_execution.Perpdex.Types.{OrderType, Side, OrderStatus}

-- `PerpDexLocation`; an address is the list of its bytes.
pub data Location : Type 0 where
  balance : (user : List ℕ) (asset_id : ℕ) → Location
  position : (user : List ℕ) (market_id : ℕ) → Location
  order : (user : List ℕ) (market_id order_id : ℕ) → Location
  market_state : (market_id : ℕ) → Location
  user_nonce : (user : List ℕ) → Location

-- The fields of `PerpDexValue::Position`, and the struct `PositionData`.
pub record PositionData : Type 0 where
  pub size : ℤ
  pub entry_price : ℕ
  pub leverage : ℕ
  pub margin : ℕ
  pub unrealized_pnl : ℤ
  pub last_funding_index : ℕ

-- The fields of `PerpDexValue::Order`
pub record OrderData : Type 0 where
  pub order_type : OrderType
  pub side : Side
  pub price : ℕ
  pub size : ℕ
  pub filled : ℕ
  pub status : OrderStatus
  pub post_only : Bool
  pub reduce_only : Bool
  pub created_at : ℕ
  pub expires_at : Option ℕ

-- The fields of `PerpDexValue::MarketState`, and the struct `MarketData`.
pub record MarketData : Type 0 where
  pub index_price : ℕ
  pub mark_price : ℕ
  pub funding_rate : ℤ
  pub funding_index : ℕ
  pub open_interest_long : ℕ
  pub open_interest_short : ℕ
  pub last_update : ℕ

-- `PerpDexValue`
pub data Value : Type 0 where
  balance_of : ℕ → Value
  position_of : PositionData → Value
  order_of : OrderData → Value
  market_of : MarketData → Value
  nonce_of : ℕ → Value
  lazy_funding : (market_id : ℕ) (position_size : ℤ) → Value
  deleted : Value

unfoldable pub is_lazy : Value → Bool
is_lazy (lazy_funding m s) = true
is_lazy (balance_of b) = false
is_lazy (position_of p) = false
is_lazy (order_of o) = false
is_lazy (market_of m) = false
is_lazy (nonce_of n) = false
is_lazy deleted = false

unfoldable pub is_deleted : Value → Bool
is_deleted deleted = true
is_deleted (lazy_funding m s) = false
is_deleted (balance_of b) = false
is_deleted (position_of p) = false
is_deleted (order_of o) = false
is_deleted (market_of m) = false
is_deleted (nonce_of n) = false

-- `WriteSet`; the hash that the code stores beside each location is a function of it.
abbrev pub WriteSet : Type 0
WriteSet = List (Location × Value)

unfoldable pub push : WriteSet → Location → Value → WriteSet
push w l v = w ++ (l, v) ∷ []
