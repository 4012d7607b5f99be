-- ===== src/Hybrid/Total.antt =====
-- The decoder's loop ends: each round takes a byte at least.
use parallel_execution.Common.{
  ℕ, zero, suc, ◌+◌, ◌-◌, ◌*◌, ◌≡◌, ◌≤◌, refl, Option, some, List, [], ◌∷◌, drop, length,
  length-drop, arith, ltb, if_intro,
}
use parallel_execution.Perpdex.Types.{Operation, OrderType}
use parallel_execution.Hybrid.Bytes.{U256Bytes}
use parallel_execution.Hybrid.Decode.{
  Decoded, ok, err, panicked, Parsed, decode_order_type, decode_ids, decode_cancel_order,
  decode_order_body, decode_place_order, decode_operation, decode_loop, decode_operations,
  push_operation, u64_at, byte_at, ◌>>=◌,
}

-- What an operation leaves is no longer than what it was given.
abbrev Within : ℕ → Parsed → Type 0
Within n (ok (op, after)) = length after ≤ n
Within n (err e) = Unit {0}
Within n panicked = Unit {0}

decode_ids-Within :
    (m count offset n : ℕ) (rest : List ℕ)
    → length rest ≤ n
    → Within n (decode_ids m count offset rest)
unfolding decode_ids
decode_ids-Within m count offset n rest h = ground (arith, length-drop (count * 8) rest)

decode_cancel_order-Within :
    (offset : ℕ) (rest : List ℕ) → Within (length rest) (decode_cancel_order offset rest)
unfolding decode_cancel_order
decode_cancel_order-Within offset rest =
    if_intro (Within (length rest)) (ltb (length rest) 16) (λ _. tt)
      (λ _.
        decode_ids-Within (u64_at rest) (u64_at (drop 8 rest)) (offset + 16) (length rest)
          (drop 16 rest) (omega (arith, length-drop 16 rest)))

module _ (u : U256Bytes) where
  decode_order_body-Within :
      (m n : ℕ) (t : OrderType) (d2 : List ℕ)
      → length d2 ≤ n
      → Within n (ok (decode_order_body u m t d2))
  unfolding decode_order_body
  decode_order_body-Within m n t d2 h =
      let d3 = drop 1 d2 in
      let d4 = drop 32 d3 in
      let d5 = drop 32 d4 in
      let d8 = drop 1 (drop 1 (drop 1 d5)) in
      omega (
        arith,
        length-drop 1 d2,
        length-drop 32 d3,
        length-drop 32 d4,
        length-drop 1 d5,
        length-drop 1 (drop 1 d5),
        length-drop 1 (drop 1 (drop 1 d5)),
        length-drop 8 d8,
      )

  bind-Within :
      (n : ℕ) (d : Decoded OrderType) (f : OrderType → Parsed)
      → ((t : OrderType) → Within n (f t))
      → Within n (d >>= f)
  bind-Within n (ok t) f h = h t
  bind-Within n (err e) f h = tt
  bind-Within n panicked f h = tt

  decode_place_order-Within : (rest : List ℕ) → Within (length rest) (decode_place_order u rest)
  unfolding decode_place_order
  decode_place_order-Within rest =
      if_intro (Within (length rest)) (ltb (length rest) 89) (λ _. tt)
        (λ _. bind-Within (length rest) (decode_order_type (byte_at (drop 8 rest))) _ (λ t.
          decode_order_body-Within (u64_at rest) (length rest) t (drop 9 rest)
            (omega (arith, length-drop 9 rest))))

  decode_operation-Within :
      (b offset : ℕ) (rest : List ℕ) → Within (length rest) (decode_operation u b offset rest)
  unfolding decode_operation
  decode_operation-Within zero offset rest = decode_place_order-Within rest
  decode_operation-Within (suc zero) offset rest = decode_cancel_order-Within offset rest
  decode_operation-Within (suc (suc zero)) offset rest = ground (arith, length-drop 8 rest)
  decode_operation-Within (suc (suc (suc zero))) offset rest = ground (arith, length-drop 9 rest)
  decode_operation-Within (suc (suc (suc (suc zero)))) offset rest =
      ground (arith, length-drop 40 rest)
  decode_operation-Within (suc (suc (suc (suc (suc b))))) offset rest = tt

  abbrev Result : Option (Decoded (List Operation)) → Type 0
  Result o = (r : Decoded (List Operation)) × (o ≡ some r)

  decode_round_total :
      (fuel offset b : ℕ) (rest : List ℕ) (p : Parsed)
      → ((o : ℕ) (l : List ℕ) → length l ≤ fuel → Result (decode_loop u fuel o l))
      → length rest ≤ fuel
      → Within (length rest) p
      → decode_operation u b (offset + 1) rest ≡ p
      → Result (decode_loop u (suc fuel) offset (b ∷ rest))
  unfolding decode_loop
  decode_round_total fuel offset b rest (ok (op, after)) ih h w e =
      let (r, q) = ih (offset + 1 + (length rest - length after)) after (omega arith) in
      (push_operation u op r, rw (e, decode_loop) (rw (q, decode_loop) refl))
  decode_round_total fuel offset b rest (err x) ih h w e = (err x, rw (e, decode_loop) refl)
  decode_round_total fuel offset b rest panicked ih h w e = (panicked, rw (e, decode_loop) refl)

  decode_loop_total :
      (fuel offset : ℕ) (bytes : List ℕ)
      → length bytes ≤ fuel
      → Result (decode_loop u fuel offset bytes)
  unfolding decode_loop
  decode_loop_total fuel offset [] h = (ok [], refl)
  decode_loop_total zero offset (b ∷ rest) h = absurd (omega arith)
  decode_loop_total (suc fuel) offset (b ∷ rest) h =
      decode_round_total fuel offset b rest (decode_operation u b (offset + 1) rest)
        (decode_loop_total fuel) (omega arith) (decode_operation-Within b (offset + 1) rest) refl

  -- On every input the decoder ends with operations, an error or a panic: the fuel never runs out.
  pub decode_operations_total :
      (bytes : List ℕ) → (r : Decoded (List Operation)) × (decode_operations u bytes ≡ some r)
  unfolding decode_operations
  decode_operations_total bytes = decode_loop_total (length bytes) 0 bytes (omega arith)
