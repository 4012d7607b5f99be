-- ===== src/Hybrid/Examples.antt =====
-- Encoding and decoding of small transactions.
use parallel_execution.Common.{◌≡◌, refl, false, none, some, List, [], ◌∷◌, arith}
use parallel_execution.Perpdex.Types.{market, long, PlaceOrder, Operation, PerpDexTx}
use parallel_execution.Hybrid.Bytes.{
  to_be_bytes, from_be_bytes, length-to_be_bytes, from-to_be_bytes, U256Bytes,
}
use parallel_execution.Hybrid.Encode.{
  encode_ids, encode_operation, encode_operations, encode_place_order, encode_perpdex_tx,
}
use parallel_execution.Hybrid.Decode.{Decoded, ok, decode_operations, decode_perpdex_tx}
use parallel_execution.Hybrid.Total.{decode_operations_total}
use parallel_execution.Hybrid.RoundTrip.{decode-encode_operations, decode-encode_perpdex_tx}

abbrev u256 : U256Bytes
u256 = record {
  to_bytes = to_be_bytes 32;
  from_slice = from_be_bytes;
  length-to_bytes = length-to_be_bytes 32;
  from_slice-to_bytes = from-to_be_bytes 32;
}

abbrev two : List Operation
two = Operation.cancel_order 3 (5 ∷ 600 ∷ []) ∷ Operation.adjust_margin 1 70000 ∷ []

abbrev buy : PlaceOrder
buy = record {
  market_id = 3;
  order_type = market;
  side = long;
  price = 1000;
  size = 2;
  leverage = 10;
  post_only = false;
  reduce_only = false;
  expires_at = some 9;
}

abbrev tx : PerpDexTx
tx = record {
  user =
      1 ∷ 2 ∷ 3 ∷ 4 ∷ 5 ∷ 6 ∷ 7 ∷ 8 ∷ 9 ∷ 10 ∷ 11 ∷ 12 ∷ 13 ∷ 14 ∷ 15 ∷ 16 ∷ 17 ∷ 18 ∷ 19 ∷ 20 ∷ [];
  operations = Operation.place_order buy ∷ Operation.cancel_all (some 2) ∷ [];
  gas_limit = 100000;
  gas_price = 1;
  nonce = 4;
  signature = none;
}

-- A cancellation that is cut short.
decode_operations_total_example :
    (r : Decoded (List Operation)) × (decode_operations u256 (1 ∷ 0 ∷ []) ≡ some r)
decode_operations_total_example = decode_operations_total u256 (1 ∷ 0 ∷ [])

decode-encode_operations_example :
    decode_operations u256 (encode_operations u256 two) ≡ some (ok two)
unfolding encode_operations encode_operation encode_ids to_be_bytes
decode-encode_operations_example =
    decode-encode_operations u256 two
      (
        (omega arith, omega arith, (omega arith, (omega arith, tt))),
        ((omega arith, omega arith), tt),
      )
      (omega arith)

decode-encode_perpdex_tx_example :
    decode_perpdex_tx u256 (encode_perpdex_tx u256 tx) 30
    ≡ some (ok (record tx { gas_price = 30; signature = none }))
unfolding encode_operations encode_operation encode_place_order to_be_bytes
decode-encode_perpdex_tx_example =
    decode-encode_perpdex_tx u256 tx 30 refl (omega arith) (omega arith)
      (
        (omega arith, omega arith, omega arith, (omega arith, omega arith)),
        ((omega arith, omega arith), tt),
      )
      (omega arith)
