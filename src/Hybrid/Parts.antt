-- ===== src/Hybrid/Parts.antt =====
-- What the decoder makes of the encoding of one operation, with more bytes behind it.
use parallel_execution.Common.{
  ℕ, ◌+◌, ◌*◌, ◌^◌, ◌≡◌, ◌<◌, refl, ap, Option, none, some, List, [], ◌∷◌, ◌++◌, drop, length,
  length-append, take-append, drop-append, arith, ltb, if_intro,
}
use mathlib.Core.List.{append_assoc}
use parallel_execution.Perpdex.Types.{PlaceOrder, Operation}
use parallel_execution.Hybrid.Bytes.{to_be_bytes, from-to_be_bytes, length-to_be_bytes, U256Bytes}
use parallel_execution.Hybrid.Encode.{side_byte, flag_byte, unwrap_or_zero, encode_ids}
use parallel_execution.Hybrid.Decode.{
  ok, nonzero, read_ids, decode_ids, decode_cancel_order, decode_cancel_all, decode_set_leverage,
  decode_order_body, decode_adjust_margin, u64_at,
}

-- The values that a `u64`, and an `Option<u64>` written as a `u64`, can hold.
abbrev pub U64 : ℕ → Type 0
U64 n = n < 256 ^ 8

abbrev pub NonzeroU64 : Option ℕ → Type 0
NonzeroU64 none = Unit {0}
NonzeroU64 (some n) = (0 < n) × U64 n

abbrev pub AllU64 : List ℕ → Type 0
AllU64 [] = Unit {0}
AllU64 (i ∷ ids) = U64 i × AllU64 ids

-- Operations whose fields are in range. `Some(0)` is written like `None`; a vector of ids has at most
-- `isize::MAX` bytes.
abbrev pub Canonical : Operation → Type 0
Canonical (Operation.place_order o) =
    U64 o.market_id × (o.price < 2 ^ 256) × (o.size < 2 ^ 256) × NonzeroU64 o.expires_at
Canonical (Operation.cancel_order m ids) = U64 m × (length ids < 2 ^ 60) × AllU64 ids
Canonical (Operation.cancel_all m) = NonzeroU64 m
Canonical (Operation.set_leverage m l) = U64 m
Canonical (Operation.adjust_margin m a) = U64 m × (a < 2 ^ 256)

pub u64_at-append : (n : ℕ) (rest : List ℕ) → U64 n → u64_at (to_be_bytes 8 n ++ rest) ≡ n
unfolding u64_at
u64_at-append n rest h =
    rw (take-append 8 (to_be_bytes 8 n) rest (length-to_be_bytes 8 n)) (from-to_be_bytes 8 n h)

pub drop_u64 : (n : ℕ) (rest : List ℕ) → drop 8 (to_be_bytes 8 n ++ rest) ≡ rest
drop_u64 n rest = drop-append 8 (to_be_bytes 8 n) rest (length-to_be_bytes 8 n)

nonzero-unwrap : (m : Option ℕ) → NonzeroU64 m → nonzero (unwrap_or_zero m) ≡ m
nonzero-unwrap none h = refl
nonzero-unwrap (some n) h = ground arith

unwrap-U64 : (m : Option ℕ) → NonzeroU64 m → U64 (unwrap_or_zero m)
unwrap-U64 none h = omega arith
unwrap-U64 (some n) h = h.1

pub length-encode_ids : (ids : List ℕ) → length (encode_ids ids) ≡ length ids * 8
unfolding encode_ids
length-encode_ids [] = refl
length-encode_ids (i ∷ ids) = omega (
  arith,
  length-append (to_be_bytes 8 i) (encode_ids ids),
  length-to_be_bytes 8 i,
  length-encode_ids ids,
)

read-encode_ids :
    (ids rest : List ℕ) → AllU64 ids → read_ids (length ids) (encode_ids ids ++ rest) ≡ ids
unfolding read_ids encode_ids
read-encode_ids [] rest h = refl
read-encode_ids (i ∷ ids) rest h =
    rw
      (
        append_assoc (to_be_bytes 8 i) (encode_ids ids) rest,
        u64_at-append i (encode_ids ids ++ rest) h.0,
        drop_u64 i (encode_ids ids ++ rest),
      )
      (ap (◌∷◌ i) (read-encode_ids ids rest h.1))

pub decode_cancel_all_lem :
    (m : Option ℕ) (rest : List ℕ)
    → NonzeroU64 m
    → decode_cancel_all (to_be_bytes 8 (unwrap_or_zero m) ++ rest)
      ≡ ok (Operation.cancel_all m, rest)
unfolding decode_cancel_all
decode_cancel_all_lem m rest h = ground (
  arith,
  u64_at-append (unwrap_or_zero m) rest (unwrap-U64 m h),
  drop_u64 (unwrap_or_zero m) rest,
  nonzero-unwrap m h,
  length-append (to_be_bytes 8 (unwrap_or_zero m)) rest,
  length-to_be_bytes 8 (unwrap_or_zero m),
)

pub length-u64_byte : (m l : ℕ) → length (to_be_bytes 8 m ++ l ∷ []) ≡ 9
length-u64_byte m l =
    omega (arith, length-append (to_be_bytes 8 m) (l ∷ []), length-to_be_bytes 8 m)

pub length-u64_word :
    (m : ℕ) (bytes : List ℕ) → length bytes ≡ 32 → length (to_be_bytes 8 m ++ bytes) ≡ 40
length-u64_word m bytes h =
    omega (arith, length-append (to_be_bytes 8 m) bytes, length-to_be_bytes 8 m)

pub decode_set_leverage_lem :
    (m l : ℕ) (rest : List ℕ)
    → U64 m
    → decode_set_leverage ((to_be_bytes 8 m ++ l ∷ []) ++ rest)
      ≡ ok (Operation.set_leverage m l, rest)
unfolding decode_set_leverage
decode_set_leverage_lem m l rest h = ground (
  arith,
  append_assoc (to_be_bytes 8 m) (l ∷ []) rest,
  u64_at-append m (l ∷ rest) h,
  drop_u64 m (l ∷ rest),
  drop-append 9 (to_be_bytes 8 m ++ l ∷ []) rest (length-u64_byte m l),
  length-append (to_be_bytes 8 m ++ l ∷ []) rest,
  length-u64_byte m l,
)

-- Where the number of ids is read, at an offset that the input's length bounds.
decode_ids_lem :
    (m offset : ℕ) (ids rest : List ℕ)
    → length ids < 2 ^ 60
    → AllU64 ids
    → offset + length (encode_ids ids ++ rest) < 2 ^ 63
    → decode_ids m (length ids) offset (encode_ids ids ++ rest)
      ≡ ok (Operation.cancel_order m ids, rest)
unfolding decode_ids
decode_ids_lem m offset ids rest few h fits =
    rw
      (
        read-encode_ids ids rest h,
        drop-append (length ids * 8) (encode_ids ids) rest (length-encode_ids ids),
      )
      (ground (arith, length-append (encode_ids ids) rest, length-encode_ids ids))

two_u64 :
    (m n : ℕ) (xs ys : List ℕ)
    → (to_be_bytes 8 m ++ (to_be_bytes 8 n ++ xs)) ++ ys
      ≡ to_be_bytes 8 m ++ (to_be_bytes 8 n ++ (xs ++ ys))
two_u64 m n xs ys = simp append_assoc

drop_two_u64 : (m n : ℕ) (xs : List ℕ) → drop 16 (to_be_bytes 8 m ++ (to_be_bytes 8 n ++ xs)) ≡ xs
unfolding to_be_bytes
drop_two_u64 m n xs = refl

pub length-two_u64 :
    (m n : ℕ) (xs : List ℕ) → length (to_be_bytes 8 m ++ (to_be_bytes 8 n ++ xs)) ≡ 16 + length xs
unfolding to_be_bytes
length-two_u64 m n xs = omega arith

pub decode_cancel_order_lem :
    (m offset : ℕ) (ids rest : List ℕ)
    → U64 m
    → length ids < 2 ^ 60
    → AllU64 ids
    → offset + length ((to_be_bytes 8 m ++ (to_be_bytes 8 (length ids) ++ encode_ids ids)) ++ rest)
      < 2 ^ 63
    → decode_cancel_order offset
        ((to_be_bytes 8 m ++ (to_be_bytes 8 (length ids) ++ encode_ids ids)) ++ rest)
      ≡ ok (Operation.cancel_order m ids, rest)
unfolding decode_cancel_order
decode_cancel_order_lem m offset ids rest hm few h fits =
    rw (two_u64 m (length ids) (encode_ids ids) rest) (
      if_intro (λ r. r ≡ ok (Operation.cancel_order m ids, rest))
        (ltb (length (to_be_bytes 8 m ++ (to_be_bytes 8 (length ids) ++ (encode_ids ids ++ rest))))
          16)
        (λ short_. absurd (ground (arith, length-two_u64 m (length ids) (encode_ids ids ++ rest))))
        (λ _.
          rw
            (
              drop_two_u64 m (length ids) (encode_ids ids ++ rest),
              u64_at-append m (to_be_bytes 8 (length ids) ++ (encode_ids ids ++ rest)) hm,
              drop_u64 m (to_be_bytes 8 (length ids) ++ (encode_ids ids ++ rest)),
              u64_at-append (length ids) (encode_ids ids ++ rest) (omega arith),
            )
            (decode_ids_lem m (offset + 16) ids rest few h (
              omega (
                arith,
                ap length (two_u64 m (length ids) (encode_ids ids) rest),
                length-two_u64 m (length ids) (encode_ids ids ++ rest),
              )))))

module _ (u : U256Bytes) where
  open u use {to_bytes, from_slice, length-to_bytes, from_slice-to_bytes}

  pub decode_adjust_margin_lem :
      (m a : ℕ) (rest : List ℕ)
      → U64 m
      → a < 2 ^ 256
      → decode_adjust_margin u ((to_be_bytes 8 m ++ to_bytes a) ++ rest)
        ≡ ok (Operation.adjust_margin m a, rest)
  unfolding decode_adjust_margin
  decode_adjust_margin_lem m a rest hm ha = ground (
    arith,
    append_assoc (to_be_bytes 8 m) (to_bytes a) rest,
    u64_at-append m (to_bytes a ++ rest) hm,
    drop_u64 m (to_bytes a ++ rest),
    take-append 32 (to_bytes a) rest (length-to_bytes a),
    from_slice-to_bytes a ha,
    drop-append 40 (to_be_bytes 8 m ++ to_bytes a) rest
        (length-u64_word m (to_bytes a) (length-to_bytes a)),
    length-append (to_be_bytes 8 m ++ to_bytes a) rest,
    length-u64_word m (to_bytes a) (length-to_bytes a),
  )

  pub decode_order_body_lem :
      (o : PlaceOrder) (rest : List ℕ)
      → o.price < 2 ^ 256
      → o.size < 2 ^ 256
      → NonzeroU64 o.expires_at
      → decode_order_body u o.market_id o.order_type (
          side_byte o.side
          ∷ (to_bytes o.price
              ++ (to_bytes o.size
                  ++ (o.leverage
                      ∷ (flag_byte o.post_only
                          ∷ (flag_byte o.reduce_only
                              ∷ (to_be_bytes 8 (unwrap_or_zero o.expires_at) ++ rest)))))))
        ≡ (Operation.place_order o, rest)
  unfolding decode_order_body
  decode_order_body_lem o rest hp hs he =
      rw
        (
          drop-append 32 (to_bytes o.price) _ (length-to_bytes o.price),
          take-append 32 (to_bytes o.price) _ (length-to_bytes o.price),
          drop-append 32 (to_bytes o.size) _ (length-to_bytes o.size),
          take-append 32 (to_bytes o.size) _ (length-to_bytes o.size),
        )
        (ground (
          arith,
          from_slice-to_bytes o.price hp,
          from_slice-to_bytes o.size hs,
          u64_at-append (unwrap_or_zero o.expires_at) rest (unwrap-U64 o.expires_at he),
          drop_u64 (unwrap_or_zero o.expires_at) rest,
          nonzero-unwrap o.expires_at he,
        ))
