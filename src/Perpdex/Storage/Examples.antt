-- ===== src/Perpdex/Storage/Examples.antt =====
-- An in-memory storage with an order.
use parallel_execution.Common.{◌≡◌, refl, true, false, none, [], ◌∷◌}
use parallel_execution.Perpdex.Types.{long, limit, open_order}
use parallel_execution.Perpdex.State.{order, Value, order_of, is_deleted}
use parallel_execution.Perpdex.Storage.{
  InMemoryStorage, new, get, set, delete, get_user_orders, get_all_user_orders,
}
use parallel_execution.Perpdex.Storage.Laws.{listed}
use parallel_execution.Perpdex.Storage.Index.{empty, wrote, deleted, Built-get_user_orders}

abbrev resting : Value
resting = order_of (record {
  order_type = limit;
  side = long;
  price = 100;
  size = 2;
  filled = 0;
  status = open_order;
  post_only = false;
  reduce_only = false;
  created_at = 0;
  expires_at = none;
})

-- Order 6 is deleted again.
abbrev one : InMemoryStorage
one =
    delete (set (set new (order (7 ∷ []) 3 5) resting) (order (7 ∷ []) 3 6) resting)
      (order (7 ∷ []) 3 6)

Built-get_user_orders_example :
    (listed 5 (get_user_orders one.user_orders (7 ∷ []) 3) ≡ true)
    × (listed 5 (get_all_user_orders one.user_orders (7 ∷ [])) ≡ true)
    × (listed 6 (get_user_orders one.user_orders (7 ∷ []) 3) ≡ false)
unfolding get set delete new is_deleted
Built-get_user_orders_example =
    Built-get_user_orders one (7 ∷ []) 3 5 6 resting
      (deleted (order (7 ∷ []) 3 6)
        (wrote (order (7 ∷ []) 3 6) resting (wrote (order (7 ∷ []) 3 5) resting empty)))
      refl refl refl
