-- ===== src/Perpdex/Executor/Base.antt =====
-- The executor's context, its errors, its state, and its reads.
use Prim.Native.String.{String}
use parallel_execution.Common.{
  ℕ, ◌+◌, ◌-◌, ◌*◌, ◌/◌, ◌%◌, ◌^◌, ◌<◌, ◌≤◌, ◌≡◌, Bool, true, false, List, Option, none, some, ℤ,
  pos, usize_succ,
}
use parallel_execution.Perpdex.State.{
  Location, balance, position, market_state, user_nonce, Value, balance_of, position_of, market_of,
  nonce_of, PositionData, MarketData, WriteSet, push,
}
use parallel_execution.Perpdex.Storage.{Storage, StorageError, Stored, found, failed}

-- The operators of `U256`, of a third-party crate, as documented: `+`, `-` and `*` wrap, `/` rounds
-- down, and the conversion to `i128` fails above its greatest value.
pub record Uint : Type 0 where
  pub add : ℕ → ℕ → ℕ
  pub sub : ℕ → ℕ → ℕ
  pub mul : ℕ → ℕ → ℕ
  pub div : ℕ → ℕ → ℕ
  pub try_into_i128 : ℕ → Option ℤ
  pub add_lem : (a b : ℕ) → add a b ≡ (a + b) % 2 ^ 256
  pub sub_lem : (a b : ℕ) → a < 2 ^ 256 → b < 2 ^ 256 → sub a b ≡ (a + 2 ^ 256 - b) % 2 ^ 256
  pub mul_lem : (a b : ℕ) → mul a b ≡ (a * b) % 2 ^ 256
  pub div_lem : (a b : ℕ) → 0 < b → div a b ≡ a / b
  pub try_into_i128_fits : (a : ℕ) → a < 2 ^ 127 → try_into_i128 a ≡ some (pos a)
  pub try_into_i128_fails : (a : ℕ) → 2 ^ 127 ≤ a → try_into_i128 a ≡ none

-- `BlockConfig`
pub record BlockConfig : Type 0 where
  pub timestamp : ℕ
  pub block_number : ℕ

-- `PerpDexExecutor` but for its order counter, with the arithmetic that it uses.
pub record Executor : Type 0 where
  pub uint : Uint
  pub storage : Storage
  pub block_config : BlockConfig

-- `ExecutionError`
pub data ExecutionError : Type 0 where
  nonce_mismatch : (expected actual : ℕ) → ExecutionError
  insufficient_balance : (required available : ℕ) → ExecutionError
  invalid_leverage : ℕ → ExecutionError
  reduce_only_violation : ExecutionError
  invalid_position : String → ExecutionError
  storage_error : StorageError → ExecutionError
  order_not_found : ℕ → ExecutionError

-- The write set and the order counter, which every operation may extend.
pub record Buffer : Type 0 where
  pub write_set : WriteSet
  pub next_order_id : ℕ

pub data Result (A : Type 0) : Type 0 where
  ok : A → Result A
  err : ExecutionError → Result A

-- A step over the buffer; an error keeps what the steps before it did.
abbrev pub Exec : Type 0 → Type 0
Exec A = Buffer → Result A × Buffer

abbrev pub continue_with : {A B : Type 0} → Result A × Buffer → (A → Exec B) → Result B × Buffer
continue_with (ok a, b) f = f a b
continue_with (err e, b) f = (err e, b)

infixl 5 ◌>>=◌ ◌>>◌
unfoldable pub ◌>>=◌ : {A B : Type 0} → Exec A → (A → Exec B) → Exec B
◌>>=◌ m f b = continue_with (m b) f

unfoldable pub ◌>>◌ : {B : Type 0} → Exec (Unit {0}) → Exec B → Exec B
m >> k = m >>= λ _. k

-- A read, which leaves the buffer alone; `Ok(…)`.
unfoldable pub lift : {A : Type 0} → Result A → Exec A
lift r b = (r, b)

unfoldable pub done : {A : Type 0} → A → Exec A
done a b = (ok a, b)

unfoldable pub guard : Bool → ExecutionError → Exec (Unit {0})
guard true e b = (ok tt, b)
guard false e b = (err e, b)

-- `write_set.push(location, value)`
unfoldable pub write : Location → Value → Exec (Unit {0})
unfolding push
write l v b = (ok tt, record b { write_set = push b.write_set l v })

unfoldable pub generate_order_id : Exec ℕ
generate_order_id b = (ok b.next_order_id, record b { next_order_id = usize_succ b.next_order_id })

abbrev pub usdc_asset_id : ℕ
usdc_asset_id = 0

abbrev pub price_precision : ℕ
price_precision = 10 ^ 18

-- `?` on a storage result.
abbrev pub from_stored : {A : Type 0} → Stored A → Result A
from_stored (found a) = ok a
from_stored (failed e) = err (storage_error e)

abbrev pub as_nonce : Result (Option Value) → Result ℕ
as_nonce (ok none) = ok 0
as_nonce (ok (some (nonce_of n))) = ok n
as_nonce (ok (some _)) = err (invalid_position "Invalid nonce value")
as_nonce (err e) = err e

abbrev pub as_balance : Result (Option Value) → Result ℕ
as_balance (ok none) = ok 0
as_balance (ok (some (balance_of n))) = ok n
as_balance (ok (some _)) = err (invalid_position "Invalid balance value")
as_balance (err e) = err e

abbrev pub as_position : Result (Option Value) → Result (Option PositionData)
as_position (ok none) = ok none
as_position (ok (some (position_of p))) = ok (some p)
as_position (ok (some _)) = err (invalid_position "Invalid position value")
as_position (err e) = err e

abbrev pub as_market : MarketData → Result (Option Value) → Result MarketData
as_market d (ok none) = ok d
as_market d (ok (some (market_of m))) = ok m
as_market d (ok (some _)) = err (invalid_position "Invalid market state")
as_market d (err e) = err e

module _ (x : Executor) where
  unfoldable pub read_location : Location → Result (Option Value)
  read_location l = from_stored (x.storage.get l)

  unfoldable pub read_nonce : List ℕ → Result ℕ
  unfolding read_location
  read_nonce user = as_nonce (read_location (user_nonce user))

  unfoldable pub read_balance : List ℕ → ℕ → Result ℕ
  unfolding read_location
  read_balance user asset_id = as_balance (read_location (balance user asset_id))

  unfoldable pub read_position : List ℕ → ℕ → Result (Option PositionData)
  unfolding read_location
  read_position user market_id = as_position (read_location (position user market_id))

  unfoldable pub default_market : MarketData
  default_market = record {
    index_price = x.uint.mul 1000 (10 ^ 18);
    mark_price = x.uint.mul 1000 (10 ^ 18);
    funding_rate = pos 0;
    funding_index = 0;
    open_interest_long = 0;
    open_interest_short = 0;
    last_update = x.block_config.timestamp;
  }

  unfoldable pub read_market : ℕ → Result MarketData
  unfolding read_location default_market
  read_market market_id = as_market default_market (read_location (market_state market_id))
