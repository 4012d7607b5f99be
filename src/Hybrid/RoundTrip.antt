-- ===== src/Hybrid/RoundTrip.antt =====
-- Decoding what `encode_perpdex_tx` wrote.
use parallel_execution.Common.{
  ℕ, zero, suc, ◌+◌, ◌^◌, ◌≡◌, ◌≤◌, ◌<◌, refl, ap, ◌∙◌, Bool, false, none, some, List, [], ◌∷◌,
  ◌++◌, drop, length, length-append, take-append, drop-append, length-drop, arith, if◌then◌else◌,
}
use mathlib.Core.List.{append_assoc}
use parallel_execution.Perpdex.Types.{Operation, PerpDexTx}
use parallel_execution.Hybrid.Bytes.{to_be_bytes, length-to_be_bytes, U256Bytes}
use parallel_execution.Hybrid.Encode.{encode_operation, encode_operations, encode_perpdex_tx}
use parallel_execution.Hybrid.Decode.{
  invalid_format, Decoded, ok, err, decode_loop, decode_operations, decode_perpdex_tx,
  push_operation, u64_at,
}
use parallel_execution.Hybrid.Parts.{U64, Canonical, u64_at-append}
use parallel_execution.Hybrid.Rounds.{loop_operation, loop_short, length-encode_operation, is_order}

abbrev pub AllCanonical : List Operation → Type 0
AllCanonical [] = Unit {0}
AllCanonical (op ∷ ops) = Canonical op × AllCanonical ops

-- Whether the last operation is a `PlaceOrder`.
abbrev pub ends_in_order : List Operation → Bool
ends_in_order [] = false
ends_in_order (op ∷ []) = is_order op
ends_in_order (op ∷ op' ∷ ops) = ends_in_order (op' ∷ ops)

abbrev pub verdict : List Operation → Decoded (List Operation)
verdict ops = if ends_in_order ops then err invalid_format else ok ops

module _ (u : U256Bytes) where
  -- The verdict on a list with one more operation in front.
  push-verdict :
      (op op' : Operation) (ops : List Operation)
      → push_operation u op (verdict (op' ∷ ops)) ≡ verdict (op ∷ op' ∷ ops)
  push-verdict op op' ops = ground arith

  loop_last :
      (fuel offset : ℕ) (op : Operation)
      → Canonical op
      → offset + length (encode_operation u op ++ []) < 2 ^ 63
      → decode_loop u (suc fuel) offset (encode_operation u op ++ []) ≡ some (verdict (op ∷ []))
  unfolding decode_loop
  loop_last fuel offset (Operation.place_order o) c fits =
      loop_short u fuel offset o [] c (omega arith)
  loop_last fuel offset op c fits =
      loop_operation u fuel offset op [] (ok []) c fits (λ h. cc) (λ o e. refl)

  decode_loop_lem :
      (ops : List Operation) (fuel offset : ℕ)
      → AllCanonical ops
      → length (encode_operations u ops) ≤ fuel
      → offset + length (encode_operations u ops) < 2 ^ 63
      → decode_loop u fuel offset (encode_operations u ops) ≡ some (verdict ops)
  unfolding encode_operations decode_loop
  decode_loop_lem [] fuel offset c enough fits = refl
  decode_loop_lem (op ∷ []) zero offset c enough fits =
      absurd (omega (arith, length-encode_operation u op []))
  decode_loop_lem (op ∷ []) (suc fuel) offset c enough fits = loop_last fuel offset op c.0 fits
  decode_loop_lem (op ∷ op' ∷ ops) zero offset c enough fits =
      absurd (omega (arith, length-encode_operation u op (encode_operations u (op' ∷ ops))))
  decode_loop_lem (op ∷ op' ∷ ops) (suc fuel) offset c enough fits =
      loop_operation u fuel offset op (encode_operations u (op' ∷ ops)) (verdict (op' ∷ ops)) c.0
        fits (λ _. omega (arith, length-encode_operation u op' (encode_operations u ops)))
        (λ o e.
          decode_loop_lem (op' ∷ ops) fuel o c.1
            (omega (arith, length-encode_operation u op (encode_operations u (op' ∷ ops))))
            (omega arith))
      ∙ ap some (push-verdict op op' ops)

  -- Decoding what was encoded gives the operations back, provided that the last is no `PlaceOrder`:
  -- a list that ends in one is refused as an invalid format. The operations' fields are in range, no
  -- optional field is `Some(0)`, and the bytes fit in a slice.
  pub decode-encode_operations :
      (ops : List Operation)
      → AllCanonical ops
      → length (encode_operations u ops) < 2 ^ 63
      → decode_operations u (encode_operations u ops)
        ≡ some (if ends_in_order ops then err invalid_format else ok ops)
  unfolding decode_operations
  decode-encode_operations ops c fits =
      decode_loop_lem ops (length (encode_operations u ops)) 0 c (omega arith) (omega arith)

drop_parts :
    (n : ℕ) (xs ys zs : List ℕ) → length xs + length ys ≡ n → drop n (xs ++ (ys ++ zs)) ≡ zs
drop_parts n xs ys zs h =
    rw (← append_assoc xs ys zs) (drop-append n (xs ++ ys) zs (omega (arith, length-append xs ys)))

module _ (u : U256Bytes) (tx : PerpDexTx) where
  abbrev nonce_bytes : List ℕ
  nonce_bytes = to_be_bytes 8 tx.nonce

  abbrev gas_bytes : List ℕ
  gas_bytes = to_be_bytes 8 tx.gas_limit

  abbrev price_bytes : List ℕ
  price_bytes = drop 24 (u.to_bytes tx.gas_price)

  abbrev ops_bytes : List ℕ
  ops_bytes = encode_operations u tx.operations

  length-price_bytes : length price_bytes ≡ 8
  length-price_bytes =
      omega (arith, length-drop 24 (u.to_bytes tx.gas_price), u.length-to_bytes tx.gas_price)

  module _ (hu : length tx.user ≡ 20) where
    abbrev input : List ℕ
    input = tx.user ++ (nonce_bytes ++ (gas_bytes ++ (price_bytes ++ ops_bytes)))

    input_parts : input ≡ (tx.user ++ nonce_bytes) ++ ((gas_bytes ++ price_bytes) ++ ops_bytes)
    input_parts = simp append_assoc

    length-front : length (tx.user ++ nonce_bytes) ≡ 28
    length-front =
        omega (arith, length-append tx.user nonce_bytes, length-to_be_bytes 8 tx.nonce, hu)

    length-middle : length (gas_bytes ++ price_bytes) ≡ 16
    length-middle = omega (
      arith,
      length-append gas_bytes price_bytes,
      length-to_be_bytes 8 tx.gas_limit,
      length-price_bytes,
    )

    length-input : length input ≡ 44 + length ops_bytes
    length-input = omega (
      arith,
      ap length input_parts,
      length-append (tx.user ++ nonce_bytes) ((gas_bytes ++ price_bytes) ++ ops_bytes),
      length-append (gas_bytes ++ price_bytes) ops_bytes,
      length-front,
      length-middle,
    )

    operations_part : drop 44 input ≡ ops_bytes
    operations_part = rw input_parts (
        drop_parts 44 (tx.user ++ nonce_bytes) (gas_bytes ++ price_bytes) ops_bytes
          (omega (arith, length-front, length-middle)))

    gas_part : U64 tx.gas_limit → u64_at (drop 28 input) ≡ tx.gas_limit
    gas_part h =
        rw
          (drop_parts 28 tx.user nonce_bytes (gas_bytes ++ (price_bytes ++ ops_bytes))
            (omega (arith, hu, length-to_be_bytes 8 tx.nonce)))
          (u64_at-append tx.gas_limit (price_bytes ++ ops_bytes) h)

    nonce_part : U64 tx.nonce → u64_at (drop 20 input) ≡ tx.nonce
    nonce_part h =
        rw (drop-append 20 tx.user (nonce_bytes ++ (gas_bytes ++ (price_bytes ++ ops_bytes))) hu)
          (u64_at-append tx.nonce (gas_bytes ++ (price_bytes ++ ops_bytes)) h)

  -- A transaction of the perpetual DEX comes back from its encoding, with the fee of the enclosing
  -- transaction for its gas price and without a signature, if its last operation is no `PlaceOrder`;
  -- if it is one, decoding fails. The user is 20 bytes, numbers are in range, no optional field is
  -- `Some(0)`, and the operations' bytes fit in a slice.
  pub decode-encode_perpdex_tx :
      (max_fee_per_gas : ℕ)
      → length tx.user ≡ 20
      → U64 tx.nonce
      → U64 tx.gas_limit
      → AllCanonical tx.operations
      → length (encode_operations u tx.operations) < 2 ^ 63
      → decode_perpdex_tx u (encode_perpdex_tx u tx) max_fee_per_gas
        ≡ some (
            if ends_in_order tx.operations
            then err invalid_format
            else ok (record tx { gas_price = max_fee_per_gas; signature = none }))
  unfolding decode_perpdex_tx encode_perpdex_tx
  decode-encode_perpdex_tx fee hu hn hg c fits = ground (
    arith,
    length-input hu,
    operations_part hu,
    gas_part hu hg,
    nonce_part hu hn,
    take-append 20 tx.user (nonce_bytes ++ (gas_bytes ++ (price_bytes ++ ops_bytes))) hu,
    decode-encode_operations u tx.operations c fits,
  )
