-- ===== src/Hybrid/Decode.antt =====
-- `identify_vm_type`, `decode_operations` and `decode_perpdex_tx`. The bytes from `offset` on are the
-- list `rest`; a slice that the length check covers is `take` and `drop`.
use parallel_execution.Common.{
  ℕ, zero, suc, ◌+◌, ◌-◌, ◌*◌, ◌%◌, ◌^◌, Bool, true, false, not, Option, none, some, List, [], ◌∷◌,
  take, drop, length, if◌then◌else◌, ltb, ◌==◌, usize_mod,
}
use parallel_execution.Perpdex.Types.{
  OrderType, limit, market, stop_limit, stop_market, long, short, Operation, PerpDexTx,
}
use parallel_execution.Hybrid.Bytes.{from_be_bytes, U256Bytes}

-- `VmType`
pub data VmType : Type 0 where
  evm perp_dex : VmType

unfoldable pub replicate : ℕ → ℕ → List ℕ
replicate zero b = []
replicate (suc n) b = b ∷ replicate n b

unfoldable pub list_eq : List ℕ → List ℕ → Bool
list_eq [] [] = true
list_eq (x ∷ xs) (y ∷ ys) = if x == y then list_eq xs ys else false
list_eq xs ys = false

unfoldable pub perpdex_contract_address : List ℕ
unfolding replicate
perpdex_contract_address = replicate 20 0xff

unfoldable pub identify_vm_type : Option (List ℕ) → VmType
unfolding list_eq
identify_vm_type none = evm
identify_vm_type (some to) = if list_eq to perpdex_contract_address then perp_dex else evm

-- `DecodeError`; a slice or an allocation that cannot be made panics.
pub data DecodeError : Type 0 where
  invalid_length invalid_format invalid_signature : DecodeError

pub data Decoded {ℓ} (A : Type ℓ) : Type ℓ where
  ok : A → Decoded A
  err : DecodeError → Decoded A
  panicked : Decoded A

infixl 5 ◌>>=◌
abbrev pub ◌>>=◌ {ℓ κ} : {A : Type ℓ} {B : Type κ} → Decoded A → (A → Decoded B) → Decoded B
ok a >>= f = f a
err e >>= f = err e
panicked >>= f = panicked

abbrev pub nonzero : ℕ → Option ℕ
nonzero n = if n == 0 then none else some n

-- `data[offset]`, in range by the length check.
abbrev pub byte_at : List ℕ → ℕ
byte_at [] = 0
byte_at (b ∷ bs) = b

unfoldable pub u64_at : List ℕ → ℕ
u64_at rest = from_be_bytes (take 8 rest)

unfoldable pub decode_order_type : ℕ → Decoded OrderType
decode_order_type zero = ok limit
decode_order_type (suc zero) = ok market
decode_order_type (suc (suc zero)) = ok stop_limit
decode_order_type (suc (suc (suc zero))) = ok stop_market
decode_order_type (suc (suc (suc (suc _)))) = err invalid_format

-- An operation and the bytes after it.
abbrev pub Parsed : Type 0
Parsed = Decoded (Operation × List ℕ)

abbrev isize_max : ℕ
isize_max = 2 ^ 63 - 1

-- The loop over the order ids.
unfoldable pub read_ids : ℕ → List ℕ → List ℕ
read_ids zero rest = []
read_ids (suc n) rest = u64_at rest ∷ read_ids n (drop 8 rest)

-- With the lengths in hand: `offset + count * 8` wraps, and `Vec::with_capacity` panics above
-- `isize::MAX` bytes.
unfoldable pub decode_ids : ℕ → ℕ → ℕ → List ℕ → Parsed
unfolding read_ids
decode_ids m count offset rest =
    if ltb (offset + length rest) ((offset + count * 8 % usize_mod) % usize_mod)
    then err invalid_format
    else if ltb isize_max (count * 8)
    then panicked
    else ok (Operation.cancel_order m (read_ids count rest), drop (count * 8) rest)

unfoldable pub decode_cancel_order : ℕ → List ℕ → Parsed
unfolding decode_ids
decode_cancel_order offset rest =
    if ltb (length rest) 16
    then err invalid_format
    else decode_ids (u64_at rest) (u64_at (drop 8 rest)) (offset + 16) (drop 16 rest)

unfoldable pub decode_cancel_all : List ℕ → Parsed
decode_cancel_all rest =
    if ltb (length rest) 8
    then err invalid_format
    else ok (Operation.cancel_all (nonzero (u64_at rest)), drop 8 rest)

unfoldable pub decode_set_leverage : List ℕ → Parsed
decode_set_leverage rest =
    if ltb (length rest) 9
    then err invalid_format
    else ok (Operation.set_leverage (u64_at rest) (byte_at (drop 8 rest)), drop 9 rest)

module _ (u : U256Bytes) where
  open u use {from_slice}

  -- After the market and the type of the order.
  unfoldable pub decode_order_body : ℕ → OrderType → List ℕ → Operation × List ℕ
  decode_order_body m t d2 =
      let d3 = drop 1 d2 in
      let d4 = drop 32 d3 in
      let d5 = drop 32 d4 in
      let d6 = drop 1 d5 in
      let d7 = drop 1 d6 in
      let d8 = drop 1 d7 in
      (
        Operation.place_order (record {
          market_id = m;
          order_type = t;
          side = if byte_at d2 == 0 then long else short;
          price = from_slice (take 32 d3);
          size = from_slice (take 32 d4);
          leverage = byte_at d5;
          post_only = not (byte_at d6 == 0);
          reduce_only = not (byte_at d7 == 0);
          expires_at = nonzero (u64_at d8);
        }),
        drop 8 d8,
      )

  unfoldable pub decode_place_order : List ℕ → Parsed
  unfolding decode_order_body decode_order_type
  decode_place_order rest =
      if ltb (length rest) 89
      then err invalid_format
      else (decode_order_type (byte_at (drop 8 rest)) >>= λ t.
          ok (decode_order_body (u64_at rest) t (drop 9 rest)))

  unfoldable pub decode_adjust_margin : List ℕ → Parsed
  decode_adjust_margin rest =
      if ltb (length rest) 40
      then err invalid_format
      else ok
          (Operation.adjust_margin (u64_at rest) (from_slice (take 32 (drop 8 rest))), drop 40 rest)

  -- The `match` on the type of the operation; `offset` and `rest` stand after it.
  unfoldable pub decode_operation : ℕ → ℕ → List ℕ → Parsed
  unfolding decode_place_order decode_cancel_order decode_cancel_all decode_set_leverage
      decode_adjust_margin
  decode_operation zero offset rest = decode_place_order rest
  decode_operation (suc zero) offset rest = decode_cancel_order offset rest
  decode_operation (suc (suc zero)) offset rest = decode_cancel_all rest
  decode_operation (suc (suc (suc zero))) offset rest = decode_set_leverage rest
  decode_operation (suc (suc (suc (suc zero)))) offset rest = decode_adjust_margin rest
  decode_operation (suc (suc (suc (suc (suc _))))) offset rest = err invalid_format

  abbrev pub push_operation : Operation → Decoded (List Operation) → Decoded (List Operation)
  push_operation op (ok ops) = ok (op ∷ ops)
  push_operation op (err e) = err e
  push_operation op panicked = panicked

  -- The `while` loop on fuel; `none` means that the fuel ran out.
  unfoldable pub decode_loop : ℕ → ℕ → List ℕ → Option (Decoded (List Operation))
  unfolding decode_operation
  decode_loop fuel offset [] = some (ok [])
  decode_loop zero offset (b ∷ rest) = none
  decode_loop (suc fuel) offset (b ∷ rest) = elim (decode_operation b (offset + 1) rest) [
    | ok (op, after) ↦ elim (decode_loop fuel (offset + 1 + (length rest - length after)) after) [
      | none ↦ none
      | some r ↦ some (push_operation op r)
    ]
    | err e ↦ some (err e)
    | panicked ↦ some panicked
  ]

  -- A round takes a byte at least.
  unfoldable pub decode_operations : List ℕ → Option (Decoded (List Operation))
  unfolding decode_loop
  decode_operations bytes = decode_loop (length bytes) 0 bytes

  unfoldable pub decode_perpdex_tx : List ℕ → ℕ → Option (Decoded PerpDexTx)
  decode_perpdex_tx input max_fee_per_gas =
      if ltb (length input) 44
      then some (err invalid_length)
      else elim (decode_operations (drop 44 input)) [
        | none ↦ none
        | some r ↦ some (
            r >>= λ operations. ok (record {
              user = take 20 input;
              operations = operations;
              gas_limit = u64_at (drop 28 input);
              gas_price = max_fee_per_gas;
              nonce = u64_at (drop 20 input);
              signature = none;
            }))
      ]
