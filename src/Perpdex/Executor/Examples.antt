-- ===== src/Perpdex/Executor/Examples.antt =====
-- Runs of the executor over an in-memory storage.
use parallel_execution.Common.{
  ℕ, ◌+◌, ◌-◌, ◌*◌, ◌/◌, ◌%◌, ◌^◌, ◌≡◌, ◌≤◌, ◌<◌, refl, false, none, some, pos, if◌then◌else◌, List,
  [], ◌∷◌, ◌++◌, length, ltb, usize_mod, arith,
}
use parallel_execution.Perpdex.Types.{
  market, long, PlaceOrder, Operation, OperationResult, PerpDexTx,
}
use parallel_execution.Perpdex.State.{
  balance, position, order, user_nonce, balance_of, position_of, nonce_of, deleted, WriteSet,
}
use parallel_execution.Perpdex.Storage.{with_balances, as_storage}
use parallel_execution.Perpdex.Executor.Base.{
  Uint, Executor, ok, ◌>>=◌, ◌>>◌, lift, done, guard, write, generate_order_id, read_balance,
  read_nonce, read_position, read_market, read_location, default_market,
}
use parallel_execution.Perpdex.Executor.Matching.{
  execute_market_order, calculate_required_margin, update_position,
}
use parallel_execution.Perpdex.Executor.Operations.{
  execute, execute_from, execute_operations, execute_operation, execute_place_order,
  execute_cancel_order, delete_orders, match_order, rest_on_book, settle_fill,
}
use parallel_execution.Perpdex.Executor.Writes.{AllAllowed, execute-Allowed}
use parallel_execution.Perpdex.Executor.Counter.{Numbered}
use parallel_execution.Perpdex.Executor.Outcome.{execute_reports}

abbrev div : ℕ → ℕ → ℕ
div a b = a / b

fits : (a : ℕ) → a < 2 ^ 127 → (if ltb a (2 ^ 127) then some (pos a) else none) ≡ some (pos a)
fits a h = ground arith

fails : (a : ℕ) → 2 ^ 127 ≤ a → (if ltb a (2 ^ 127) then some (pos a) else none) ≡ none
fails a h = ground arith

abbrev uint : Uint
uint = record {
  add = λ a b. (a + b) % 2 ^ 256;
  sub = λ a b. (a + 2 ^ 256 - b) % 2 ^ 256;
  mul = λ a b. (a * b) % 2 ^ 256;
  div = λ a b. a / b;
  try_into_i128 = λ a. if ltb a (2 ^ 127) then some (pos a) else none;
  add_lem = λ a b. refl;
  sub_lem = λ a b _ _. refl;
  mul_lem = λ a b. refl;
  div_lem = λ a b _. refl;
  try_into_i128_fits = fits;
  try_into_i128_fails = fails;
}

-- One user with a balance of 500 dollars.
abbrev user : List ℕ
user = 7 ∷ []

abbrev funds : ℕ
funds = 500 * 10 ^ 18

abbrev executor : Executor
executor = record {
  uint = uint;
  storage = as_storage (with_balances ((user, 0, funds) ∷ []));
  block_config = record { timestamp = 0; block_number = 1 };
}

-- A market order for 2 units at 1000 dollars with 10 times leverage, and a cancellation.
abbrev buy : PlaceOrder
buy = record {
  market_id = 3;
  order_type = market;
  side = long;
  price = 1000 * 10 ^ 18;
  size = 2 * 10 ^ 18;
  leverage = 10;
  post_only = false;
  reduce_only = false;
  expires_at = none;
}

abbrev tx : PerpDexTx
tx = record {
  user = user;
  operations = Operation.place_order buy ∷ Operation.cancel_order 3 (5 ∷ []) ∷ [];
  gas_limit = 100000;
  gas_price = 1;
  nonce = 0;
  signature = none;
}

-- The run succeeds: the position, the balance less 200 dollars, the cancelled order and the nonce.
abbrev written : WriteSet
written =
    (
      position user 3,
      position_of (record {
        size = pos (2 * 10 ^ 18);
        entry_price = 1000 * 10 ^ 18;
        leverage = 10;
        margin = 200 * 10 ^ 18;
        unrealized_pnl = pos 0;
        last_funding_index = 0;
      }),
    )
    ∷ (balance user 0, balance_of (300 * 10 ^ 18))
    ∷ (order user 3 5, deleted)
    ∷ (user_nonce user, nonce_of 1)
    ∷ []

execute-Allowed_example : AllAllowed user funds written
unfolding with_balances as_storage execute execute_from execute_operations execute_operation
    execute_place_order execute_cancel_order delete_orders match_order rest_on_book settle_fill
    execute_market_order calculate_required_margin update_position read_nonce read_balance
    read_position read_market read_location default_market ◌>>=◌ ◌>>◌ lift done guard write
    generate_order_id
execute-Allowed_example = execute-Allowed executor tx funds (omega arith) refl 40

execute_reports_example :
    (read_nonce executor user ≡ ok 0)
    × ((◌≡◌ {A = ℕ} 0 0)
        × (◌≡◌ {A = ℕ} 2 (length tx.operations))
        × Numbered 40
            (OperationResult.order_placed 40 (2 * 10 ^ 18)
              ∷ OperationResult.orders_cancelled (5 ∷ [])
              ∷ [])
            41
        × (◌≡◌ {A = ℕ} 42000 ((21000 * length tx.operations) % usize_mod))
        × ((w : WriteSet) × (written ≡ w ++ (user_nonce user, nonce_of 1) ∷ [])))
unfolding with_balances as_storage execute execute_from execute_operations execute_operation
    execute_place_order execute_cancel_order delete_orders match_order rest_on_book settle_fill
    execute_market_order calculate_required_margin update_position read_nonce read_balance
    read_position read_market read_location default_market ◌>>=◌ ◌>>◌ lift done guard write
    generate_order_id
execute_reports_example = execute_reports executor tx 40
