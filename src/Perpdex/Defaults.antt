-- ===== src/Perpdex/Defaults.antt =====
-- The default values of crates/pevm/src/perpdex/state.rs, and the lazy locations of a transaction
-- (crates/pevm/src/perpdex/executor.rs).
use parallel_execution.Common.{ℕ, List, [], ◌∷◌, pos}
use parallel_execution.Perpdex.Types.{
  PerpDexTx, Operation, place_order, cancel_order, cancel_all, set_leverage, adjust_margin,
}
use parallel_execution.Perpdex.State.{Location, Value, position_of, market_of}

-- `PerpDexValue::empty_position`
abbrev pub empty_position : Value
empty_position = position_of (record {
  size = pos 0;
  entry_price = 0;
  leverage = 1;
  margin = 0;
  unrealized_pnl = pos 0;
  last_funding_index = 0;
})

-- `PerpDexValue::default_market_state`
abbrev pub default_market_state : ℕ → Value
default_market_state timestamp = market_of (record {
  index_price = 0;
  mark_price = 0;
  funding_rate = pos 0;
  funding_index = 0;
  open_interest_long = 0;
  open_interest_short = 0;
  last_update = timestamp;
})

abbrev pub lazy_positions : List ℕ → List Operation → List Location
lazy_positions user [] = []
lazy_positions user (place_order o ∷ ops) =
    Location.position user o.market_id ∷ lazy_positions user ops
lazy_positions user (cancel_order market_id order_ids ∷ ops) = lazy_positions user ops
lazy_positions user (cancel_all market_id ∷ ops) = lazy_positions user ops
lazy_positions user (set_leverage market_id leverage ∷ ops) = lazy_positions user ops
lazy_positions user (adjust_margin market_id amount ∷ ops) = lazy_positions user ops

-- `get_lazy_locations`
unfoldable pub get_lazy_locations : PerpDexTx → List Location
get_lazy_locations tx = lazy_positions tx.user tx.operations
