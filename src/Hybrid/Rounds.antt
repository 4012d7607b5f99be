-- ===== src/Hybrid/Rounds.antt =====
-- One round of the decoder on the encoding of an operation.
use parallel_execution.Common.{
  ℕ, suc, ◌+◌, ◌-◌, ◌^◌, ◌≡◌, ◌≤◌, ◌<◌, refl, ap, Bool, true, false, some, List, [], ◌∷◌, ◌++◌,
  drop, length, length-append, arith, ltb, if◌then◌else◌, if_intro, Bool-cases, inl, inr,
}
use mathlib.Core.List.{append_assoc}
use parallel_execution.Perpdex.Types.{
  OrderType, limit, market, stop_limit, stop_market, PlaceOrder, Operation,
}
use parallel_execution.Hybrid.Bytes.{to_be_bytes, length-to_be_bytes, U256Bytes}
use parallel_execution.Hybrid.Encode.{
  order_type_byte, side_byte, flag_byte, unwrap_or_zero, encode_ids, encode_place_order,
  encode_operation,
}
use parallel_execution.Hybrid.Decode.{
  invalid_format, Decoded, ok, err, decode_order_type, decode_place_order, decode_operation,
  decode_loop, push_operation,
}
use parallel_execution.Hybrid.Parts.{
  Canonical, u64_at-append, drop_u64, decode_order_body_lem, decode_cancel_all_lem,
  decode_cancel_order_lem, decode_set_leverage_lem, decode_adjust_margin_lem, length-two_u64,
  length-u64_byte, length-u64_word,
}

drop_u64_byte : (m b : ℕ) (l : List ℕ) → drop 9 (to_be_bytes 8 m ++ b ∷ l) ≡ l
unfolding to_be_bytes
drop_u64_byte m b l = refl

decode_order_type_lem : (t : OrderType) → decode_order_type (order_type_byte t) ≡ ok t
unfolding decode_order_type
decode_order_type_lem limit = refl
decode_order_type_lem market = refl
decode_order_type_lem stop_limit = refl
decode_order_type_lem stop_market = refl

abbrev pub is_order : Operation → Bool
is_order (Operation.place_order o) = true
is_order (Operation.cancel_order m ids) = false
is_order (Operation.cancel_all m) = false
is_order (Operation.set_leverage m l) = false
is_order (Operation.adjust_margin m a) = false

module _ (u : U256Bytes) where
  open u use {to_bytes, length-to_bytes}

  -- The encoding of an order and the bytes behind it, with the brackets to the right.
  place_bytes :
      (o : PlaceOrder) (rest : List ℕ)
      → encode_place_order u o ++ rest
        ≡ to_be_bytes 8 o.market_id
          ++ order_type_byte o.order_type
            ∷ (side_byte o.side
                ∷ (to_bytes o.price
                    ++ (to_bytes o.size
                        ++ (o.leverage
                            ∷ (flag_byte o.post_only
                                ∷ (flag_byte o.reduce_only
                                    ∷ (to_be_bytes 8 (unwrap_or_zero o.expires_at) ++ rest)))))))
  unfolding encode_place_order
  place_bytes o rest = simp append_assoc

  length-encode_place_order : (o : PlaceOrder) → length (encode_place_order u o) ≡ 85
  unfolding encode_place_order
  length-encode_place_order o =
      let e = to_be_bytes 8 (unwrap_or_zero o.expires_at) in
      let z = o.leverage ∷ (flag_byte o.post_only ∷ (flag_byte o.reduce_only ∷ e)) in
      let y = to_bytes o.price ++ (to_bytes o.size ++ z) in
      omega (
        arith,
        length-append (to_be_bytes 8 o.market_id)
            (order_type_byte o.order_type ∷ (side_byte o.side ∷ y)),
        length-to_be_bytes 8 o.market_id,
        length-append (to_bytes o.price) (to_bytes o.size ++ z),
        length-to_bytes o.price,
        length-append (to_bytes o.size) z,
        length-to_bytes o.size,
        length-to_be_bytes 8 (unwrap_or_zero o.expires_at),
      )

  -- The check asks for 89 bytes where 85 were written.
  decode_place_order_lem :
      (o : PlaceOrder) (rest : List ℕ)
      → Canonical (Operation.place_order o)
      → decode_place_order u (encode_place_order u o ++ rest)
        ≡ (if ltb (length rest) 4 then err invalid_format else ok (Operation.place_order o, rest))
  unfolding decode_place_order
  decode_place_order_lem o rest c = elim (Bool-cases (ltb (length rest) 4)) [
    | inl e ↦
        ground (arith, length-append (encode_place_order u o) rest, length-encode_place_order o)
    | inr e ↦ rw e (
        if_intro (λ r. r ≡ ok (Operation.place_order o, rest))
          (ltb (length (encode_place_order u o ++ rest)) 89)
          (λ s. absurd (
            ground
              (arith, length-append (encode_place_order u o) rest, length-encode_place_order o)))
          (λ _.
            rw
              (
                place_bytes o rest,
                u64_at-append o.market_id _ c.0,
                drop_u64 o.market_id _,
                drop_u64_byte o.market_id _ _,
                decode_order_type_lem o.order_type,
              )
              (ap ok (decode_order_body_lem u o rest c.1 c.2 c.3))))
  ]

  place_ok :
      (offset : ℕ) (o : PlaceOrder) (rest : List ℕ)
      → Canonical (Operation.place_order o)
      → 4 ≤ length rest
      → decode_operation u 0 (offset + 1) (encode_place_order u o ++ rest)
        ≡ ok (Operation.place_order o, rest)
  unfolding decode_operation
  place_ok offset o rest c room = ground (arith, decode_place_order_lem o rest c)

  place_short :
      (offset : ℕ) (o : PlaceOrder) (rest : List ℕ)
      → Canonical (Operation.place_order o)
      → length rest < 4
      → decode_operation u 0 (offset + 1) (encode_place_order u o ++ rest) ≡ err invalid_format
  unfolding decode_operation
  place_short offset o rest c few = ground (arith, decode_place_order_lem o rest c)

  -- One round of the loop, from what the decoder makes of the operation's bytes.
  round_ok :
      (fuel offset b : ℕ) (bytes after : List ℕ) (op : Operation) (r : Decoded (List Operation))
      → decode_operation u b (offset + 1) bytes ≡ ok (op, after)
      → decode_loop u fuel (offset + 1 + (length bytes - length after)) after ≡ some r
      → decode_loop u (suc fuel) offset (b ∷ bytes) ≡ some (push_operation u op r)
  unfolding decode_loop
  round_ok fuel offset b bytes after op r e f = rw (e, decode_loop) (rw (f, decode_loop) refl)

  -- An operation that is no order, or an order with four bytes behind it, is read back.
  pub loop_operation :
      (fuel offset : ℕ) (op : Operation) (rest : List ℕ) (r : Decoded (List Operation))
      → Canonical op
      → offset + length (encode_operation u op ++ rest) < 2 ^ 63
      → (is_order op ≡ true → 4 ≤ length rest)
      → ((o : ℕ)
          → o + length rest ≡ offset + length (encode_operation u op ++ rest)
          → decode_loop u fuel o rest ≡ some r)
      → decode_loop u (suc fuel) offset (encode_operation u op ++ rest)
        ≡ some (push_operation u op r)
  unfolding encode_operation decode_operation
  loop_operation fuel offset (Operation.place_order o) rest r c fits room ih =
      round_ok fuel offset 0 (encode_place_order u o ++ rest) rest (Operation.place_order o) r
        (place_ok offset o rest c (room refl))
        (ih _ (omega (arith, length-append (encode_place_order u o) rest)))
  loop_operation fuel offset (Operation.cancel_order m ids) rest r c fits room ih =
      round_ok fuel offset 1
        ((to_be_bytes 8 m ++ (to_be_bytes 8 (length ids) ++ encode_ids ids)) ++ rest) rest _ r
        (decode_cancel_order_lem m (offset + 1) ids rest c.0 c.1 c.2 (omega arith))
        (ih _ (
          omega (
            arith,
            length-append (to_be_bytes 8 m ++ (to_be_bytes 8 (length ids) ++ encode_ids ids)) rest,
          )))
  loop_operation fuel offset (Operation.cancel_all m) rest r c fits room ih =
      round_ok fuel offset 2 (to_be_bytes 8 (unwrap_or_zero m) ++ rest) rest _ r
        (decode_cancel_all_lem m rest c)
        (ih _ (omega (arith, length-append (to_be_bytes 8 (unwrap_or_zero m)) rest)))
  loop_operation fuel offset (Operation.set_leverage m l) rest r c fits room ih =
      round_ok fuel offset 3 ((to_be_bytes 8 m ++ l ∷ []) ++ rest) rest _ r
        (decode_set_leverage_lem m l rest c)
        (ih _ (omega (arith, length-append (to_be_bytes 8 m ++ l ∷ []) rest)))
  loop_operation fuel offset (Operation.adjust_margin m a) rest r c fits room ih =
      round_ok fuel offset 4 ((to_be_bytes 8 m ++ to_bytes a) ++ rest) rest _ r
        (decode_adjust_margin_lem u m a rest c.0 c.1)
        (ih _ (omega (arith, length-append (to_be_bytes 8 m ++ to_bytes a) rest)))

  -- An order with fewer bytes behind it is refused.
  pub loop_short :
      (fuel offset : ℕ) (o : PlaceOrder) (rest : List ℕ)
      → Canonical (Operation.place_order o)
      → length rest < 4
      → decode_loop u (suc fuel) offset (encode_operation u (Operation.place_order o) ++ rest)
        ≡ some (err invalid_format)
  unfolding encode_operation decode_loop
  loop_short fuel offset o rest c few = rw (place_short offset o rest c few, decode_loop) refl

  pub length-encode_operation :
      (op : Operation) (rest : List ℕ) → 4 + length rest ≤ length (encode_operation u op ++ rest)
  unfolding encode_operation
  length-encode_operation (Operation.place_order o) rest =
      omega (arith, length-append (encode_place_order u o) rest, length-encode_place_order o)
  length-encode_operation (Operation.cancel_order m ids) rest = omega (
    arith,
    length-append (to_be_bytes 8 m ++ (to_be_bytes 8 (length ids) ++ encode_ids ids)) rest,
    length-two_u64 m (length ids) (encode_ids ids),
  )
  length-encode_operation (Operation.cancel_all m) rest = omega (
    arith,
    length-append (to_be_bytes 8 (unwrap_or_zero m)) rest,
    length-to_be_bytes 8 (unwrap_or_zero m),
  )
  length-encode_operation (Operation.set_leverage m l) rest =
      omega (arith, length-append (to_be_bytes 8 m ++ l ∷ []) rest, length-u64_byte m l)
  length-encode_operation (Operation.adjust_margin m a) rest = omega (
    arith,
    length-append (to_be_bytes 8 m ++ to_bytes a) rest,
    length-u64_word m (to_bytes a) (length-to_bytes a),
  )
