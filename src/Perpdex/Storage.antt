-- ===== src/Perpdex/Storage.antt =====
-- The storage interface (crates/pevm/src/perpdex/storage.rs) and the in-memory storage.
mod Laws
mod Index
mod Examples
use Prim.Native.String.{String}
use parallel_execution.Common.{
  ℕ, Bool, true, false, List, [], ◌∷◌, ◌++◌, Option, none, some, ◌==◌, ◌&&◌, if◌then◌else◌,
}
use parallel_execution.Perpdex.State.{
  Location, balance, position, order, market_state, user_nonce, Value, balance_of, is_deleted,
}

-- `StorageError`
pub data StorageError : Type 0 where
  not_found : Location → StorageError
  invalid_state : String → StorageError

pub data Stored (A : Type 0) : Type 0 where
  found : A → Stored A
  failed : StorageError → Stored A

-- The part of `PerpDexStorage` that the executor calls.
pub record Storage : Type 0 where
  pub get : Location → Stored (Option Value)
  pub get_user_orders : List ℕ → ℕ → Stored (List ℕ)
  pub get_all_user_orders : List ℕ → Stored (List ℕ)

abbrev pub addr_eq : List ℕ → List ℕ → Bool
addr_eq [] [] = true
addr_eq (x ∷ xs) (y ∷ ys) = if x == y then addr_eq xs ys else false
addr_eq [] (y ∷ ys) = false
addr_eq (x ∷ xs) [] = false

-- The derived `==` on locations.
abbrev pub loc_eq : Location → Location → Bool
loc_eq (balance u a) (balance v b) = addr_eq u v && (a == b)
loc_eq (position u a) (position v b) = addr_eq u v && (a == b)
loc_eq (order u a i) (order v b j) = addr_eq u v && (a == b) && (i == j)
loc_eq (market_state a) (market_state b) = a == b
loc_eq (user_nonce u) (user_nonce v) = addr_eq u v
loc_eq _ _ = false

-- The orders of one user in one market.
pub record Entry : Type 0 where
  pub user : List ℕ
  pub market_id : ℕ
  pub order_ids : List ℕ

-- `InMemoryStorage`: the hash map of values as a function of the location, and the index, which is also
-- iterated over, as its entries in the order of iteration.
pub record InMemoryStorage : Type 0 where
  pub data_of : Location → Option Value
  pub user_orders : List Entry

unfoldable pub new : InMemoryStorage
new = record { data_of = λ l. none; user_orders = [] }

-- The map with another value at one location.
abbrev pub put_at : (Location → Option Value) → Location → Option Value → Location → Option Value
put_at m l o j = if loc_eq l j then o else m j

abbrev pub is_entry : List ℕ → ℕ → Entry → Bool
is_entry u m e = addr_eq e.user u && (e.market_id == m)

-- `entry((user, market_id)).or_insert_with(Vec::new).push(order_id)`
unfoldable pub add_order_index : List Entry → List ℕ → ℕ → ℕ → List Entry
add_order_index [] u m i = record { user = u; market_id = m; order_ids = i ∷ [] } ∷ []
add_order_index (e ∷ es) u m i =
    if is_entry u m e
    then record e { order_ids = e.order_ids ++ i ∷ [] } ∷ es
    else e ∷ add_order_index es u m i

-- `retain(|&id| id != order_id)`
unfoldable pub retain_others : ℕ → List ℕ → List ℕ
retain_others i [] = []
retain_others i (x ∷ xs) = let rest = retain_others i xs in if x == i then rest else x ∷ rest

unfoldable pub remove_order_index : List Entry → List ℕ → ℕ → ℕ → List Entry
unfolding retain_others
remove_order_index [] u m i = []
remove_order_index (e ∷ es) u m i =
    if is_entry u m e
    then record e { order_ids = retain_others i e.order_ids } ∷ es
    else e ∷ remove_order_index es u m i

abbrev pub indexed : InMemoryStorage → Location → Bool → InMemoryStorage
indexed s (order u m i) false = record s { user_orders = add_order_index s.user_orders u m i }
indexed s _ _ = s

unfoldable pub set : InMemoryStorage → Location → Value → InMemoryStorage
unfolding is_deleted add_order_index
set s l v =
    let s' = indexed s l (is_deleted v) in record s' { data_of = put_at s'.data_of l (some v) }

abbrev pub unindexed : InMemoryStorage → Location → InMemoryStorage
unindexed s (order u m i) = record s { user_orders = remove_order_index s.user_orders u m i }
unindexed s _ = s

unfoldable pub delete : InMemoryStorage → Location → InMemoryStorage
unfolding remove_order_index
delete s l = let s' = unindexed s l in record s' { data_of = put_at s'.data_of l none }

unfoldable pub get : InMemoryStorage → Location → Option Value
get s l = s.data_of l

unfoldable pub get_user_orders : List Entry → List ℕ → ℕ → List ℕ
get_user_orders [] u m = []
get_user_orders (e ∷ es) u m = if is_entry u m e then e.order_ids else get_user_orders es u m

unfoldable pub get_all_user_orders : List Entry → List ℕ → List ℕ
get_all_user_orders [] u = []
get_all_user_orders (e ∷ es) u =
    let rest = get_all_user_orders es u in if addr_eq e.user u then e.order_ids ++ rest else rest

unfoldable pub put_balances :
    List (List ℕ × ℕ × ℕ) → (Location → Option Value) → Location → Option Value
put_balances [] m = m
put_balances ((u, a, b) ∷ rest) m = put_balances rest (put_at m (balance u a) (some (balance_of b)))

unfoldable pub with_balances : List (List ℕ × ℕ × ℕ) → InMemoryStorage
unfolding put_balances
with_balances balances = record { data_of = put_balances balances (λ l. none); user_orders = [] }

-- The in-memory storage as the interface: its reads do not fail.
unfoldable pub as_storage : InMemoryStorage → Storage
unfolding get get_user_orders get_all_user_orders
as_storage s = record {
  get = λ l. found (get s l);
  get_user_orders = λ u m. found (get_user_orders s.user_orders u m);
  get_all_user_orders = λ u. found (get_all_user_orders s.user_orders u);
}
