-- ===== src/Hybrid/Encode.antt =====
-- `encode_perpdex_tx`.
use parallel_execution.Common.{
  ℕ, Bool, true, false, Option, none, some, List, [], ◌∷◌, ◌++◌, drop, length,
}
use parallel_execution.Perpdex.Types.{
  OrderType, limit, market, stop_limit, stop_market, Side, long, short, PlaceOrder, Operation,
  PerpDexTx,
}
use parallel_execution.Hybrid.Bytes.{to_be_bytes, U256Bytes}

abbrev pub order_type_byte : OrderType → ℕ
order_type_byte limit = 0
order_type_byte market = 1
order_type_byte stop_limit = 2
order_type_byte stop_market = 3

abbrev pub side_byte : Side → ℕ
side_byte long = 0
side_byte short = 1

abbrev pub flag_byte : Bool → ℕ
flag_byte true = 1
flag_byte false = 0

abbrev pub unwrap_or_zero : Option ℕ → ℕ
unwrap_or_zero none = 0
unwrap_or_zero (some n) = n

unfoldable pub encode_ids : List ℕ → List ℕ
encode_ids [] = []
encode_ids (i ∷ ids) = to_be_bytes 8 i ++ encode_ids ids

module _ (u : U256Bytes) where
  open u use {to_bytes}

  -- The bytes of a `PlaceOrder` after its type.
  unfoldable pub encode_place_order : PlaceOrder → List ℕ
  encode_place_order o =
      to_be_bytes 8 o.market_id
      ++ order_type_byte o.order_type
        ∷ (side_byte o.side
            ∷ (to_bytes o.price
                ++ (to_bytes o.size
                    ++ (o.leverage
                        ∷ (flag_byte o.post_only
                            ∷ (flag_byte o.reduce_only
                                ∷ to_be_bytes 8 (unwrap_or_zero o.expires_at)))))))

  unfoldable pub encode_operation : Operation → List ℕ
  unfolding encode_place_order encode_ids
  encode_operation (Operation.place_order o) = 0 ∷ encode_place_order o
  encode_operation (Operation.cancel_order m ids) =
      1 ∷ (to_be_bytes 8 m ++ (to_be_bytes 8 (length ids) ++ encode_ids ids))
  encode_operation (Operation.cancel_all m) = 2 ∷ to_be_bytes 8 (unwrap_or_zero m)
  encode_operation (Operation.set_leverage m l) = 3 ∷ (to_be_bytes 8 m ++ l ∷ [])
  encode_operation (Operation.adjust_margin m a) = 4 ∷ (to_be_bytes 8 m ++ to_bytes a)

  unfoldable pub encode_operations : List Operation → List ℕ
  unfolding encode_operation
  encode_operations [] = []
  encode_operations (op ∷ ops) = encode_operation op ++ encode_operations ops

  unfoldable pub encode_perpdex_tx : PerpDexTx → List ℕ
  encode_perpdex_tx tx =
      tx.user
      ++ (to_be_bytes 8 tx.nonce
          ++ (to_be_bytes 8 tx.gas_limit
              ++ (drop 24 (to_bytes tx.gas_price) ++ encode_operations tx.operations)))
