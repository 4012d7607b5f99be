-- ===== src/Perpdex/Storage/Index.antt =====
-- The orders that the in-memory storage lists against the orders that it stores.
use parallel_execution.Common.{
  ℕ, ◌≡◌, refl, sym, ap, ◌∙◌, Bool, true, false, Option, none, some, List, [], ◌∷◌, ◌++◌, ◌==◌,
  ==_iff, if◌then◌else◌, ◌&&◌, arith, inl, inr, Bool-cases,
}
use mathlib.Core.Path.{subst}
use parallel_execution.Perpdex.State.{
  Location, balance, position, order, market_state, user_nonce, Value, is_deleted,
}
use parallel_execution.Perpdex.Storage.{
  Entry, retain_others, InMemoryStorage, new, with_balances, put_balances, put_at, addr_eq, indexed,
  set, delete, get, add_order_index, remove_order_index, get_user_orders, get_all_user_orders,
}
use parallel_execution.Perpdex.Storage.Laws.{
  addr_eq_sound, listed, listed-retain_others, listed-retain_others_other, listed-push,
  listed-push_other, get_user_orders-add_order_index, get_user_orders-add_order_index_other,
  get_user_orders-remove_order_index, get_user_orders-remove_order_index_other,
  listed-get_all_user_orders,
}

-- The storages that the operations make.
pub data Built : InMemoryStorage → Type 0 where
  empty : Built new
  funded : (balances : List (List ℕ × ℕ × ℕ)) → Built (with_balances balances)
  wrote : {s : InMemoryStorage} (l : Location) (v : Value) → Built s → Built (set s l v)
  deleted : {s : InMemoryStorage} (l : Location) → Built s → Built (delete s l)

-- What is stored at an order's location, against whether the order is listed.
abbrev Fits : Option Value → Bool → Type 0
Fits o b =
    ((v : Value) → o ≡ some v → is_deleted v ≡ false → b ≡ true)
    × (b ≡ true → (v : Value) × (o ≡ some v))

Fits-none : Fits none false
Fits-none = (λ v e _. absurd cc, λ e. absurd cc)

Fits-some : (v : Value) → Fits (some v) true
Fits-some v = (λ w e _. refl, λ e. (v, refl))

Fits-deleted : (v : Value) (b : Bool) → is_deleted v ≡ true → Fits (some v) b
Fits-deleted v b h =
    (λ w e k. absurd (let same : v ≡ w = cc in let yes = ap is_deleted same in cc), λ e. (v, refl))

Fits-choose :
    (hit : Bool) (o o' : Option Value) (b b' : Bool)
    → Fits o b
    → Fits o' b'
    → Fits (if hit then o else o') (if hit then b else b')
Fits-choose true o o' b b' h k = h
Fits-choose false o o' b b' h k = k

Fits-both : {o o' : Option Value} {b b' : Bool} → o ≡ o' → b ≡ b' → Fits o' b' → Fits o b
Fits-both {o' = o'} {b = b} e f h = subst (λ z. Fits z b) (sym e) (subst (λ z. Fits o' z) (sym f) h)

same_choice : (c b : Bool) → b ≡ (if c then b else b)
same_choice true b = refl
same_choice false b = refl

module _ (u : List ℕ) (m i : ℕ) where
  abbrev Indexed : InMemoryStorage → Type 0
  Indexed s = Fits (get s (order u m i)) (listed i (get_user_orders s.user_orders u m))

  put_balances-order :
      (bs : List (List ℕ × ℕ × ℕ)) (d : Location → Option Value)
      → put_balances bs d (order u m i) ≡ d (order u m i)
  unfolding put_balances
  put_balances-order [] d = refl
  put_balances-order ((w, a, b) ∷ bs) d = put_balances-order bs _

  -- Another order's location: the same, another of the same list, or of another list.
  module _ (u' : List ℕ) (m' i' : ℕ) where
    abbrev same_list : Bool
    same_list = addr_eq u' u && (m' == m)

    abbrev hit : Bool
    hit = same_list && (i' == i)

    put_at-order :
        (d : Location → Option Value) (o : Option Value)
        → put_at d (order u' m' i') o (order u m i) ≡ (if hit then o else d (order u m i))
    put_at-order d o = ground arith

    keys : same_list ≡ true → (u' ≡ u) × (m' ≡ m)
    keys h = (addr_eq_sound u' u (ground arith), (==_iff m' m).0 (ground arith))

    listed-add_order_index :
        (es : List Entry)
        → listed i (get_user_orders (add_order_index es u' m' i') u m)
          ≡ (if hit then true else listed i (get_user_orders es u m))
    listed-add_order_index es = elim (Bool-cases same_list) [
      | inr c ↦ rw (c, get_user_orders-add_order_index_other u' m' i' u m es c) refl
      | inl c ↦
          let (p, q) = keys c in
          let here : get_user_orders (add_order_index es u' m' i') u m
              ≡ get_user_orders es u m ++ i' ∷ [] =
            subst
              (λ w.
                get_user_orders (add_order_index es u' m' i') w m
                ≡ get_user_orders es w m ++ i' ∷ [])
              p
              (subst
                (λ n.
                  get_user_orders (add_order_index es u' m' i') u' n
                  ≡ get_user_orders es u' n ++ i' ∷ [])
                q (get_user_orders-add_order_index u' m' i' es)) in
          elim (Bool-cases (i' == i)) [
            | inl d ↦
                let e : i' ≡ i = (==_iff i' i).0 d in
                rw (c, d, here, e) (listed-push i (get_user_orders es u m))
            | inr d ↦ rw (c, d, here) (listed-push_other i' i (get_user_orders es u m) d)
          ]
    ]

    listed-remove_order_index :
        (es : List Entry)
        → listed i (get_user_orders (remove_order_index es u' m' i') u m)
          ≡ (if hit then false else listed i (get_user_orders es u m))
    listed-remove_order_index es = elim (Bool-cases same_list) [
      | inr c ↦ rw (c, get_user_orders-remove_order_index_other u' m' i' u m es c) refl
      | inl c ↦
          let (p, q) = keys c in
          let here : get_user_orders (remove_order_index es u' m' i') u m
              ≡ retain_others i' (get_user_orders es u m) =
            subst
              (λ w.
                get_user_orders (remove_order_index es u' m' i') w m
                ≡ retain_others i' (get_user_orders es w m))
              p
              (subst
                (λ n.
                  get_user_orders (remove_order_index es u' m' i') u' n
                  ≡ retain_others i' (get_user_orders es u' n))
                q (get_user_orders-remove_order_index u' m' i' es)) in
          elim (Bool-cases (i' == i)) [
            | inl d ↦
                let e : i' ≡ i = (==_iff i' i).0 d in
                rw (c, d, here, e) (listed-retain_others i (get_user_orders es u m))
            | inr d ↦ rw (c, d, here) (listed-retain_others_other i' i (get_user_orders es u m) d)
          ]
    ]

    indexed-Fits :
        (s : InMemoryStorage) (v : Value) (b : Bool)
        → is_deleted v ≡ b
        → Indexed s
        → let s' = indexed s (order u' m' i') b in
          Fits
            (put_at s'.data_of (order u' m' i') (some v) (order u m i))
            (listed i (get_user_orders s'.user_orders u m))
    unfolding get
    indexed-Fits s v false e h =
        Fits-both (put_at-order s.data_of (some v)) (listed-add_order_index s.user_orders)
          (Fits-choose hit _ _ _ _ (Fits-some v) h)
    indexed-Fits s v true e h =
        Fits-both (put_at-order s.data_of (some v)) (same_choice hit _)
          (Fits-choose hit _ _ _ _ (Fits-deleted v _ e) h)

    unindexed-Fits : (s : InMemoryStorage) → Indexed s → Indexed (delete s (order u' m' i'))
    unfolding get delete
    unindexed-Fits s h =
        Fits-both (put_at-order s.data_of none) (listed-remove_order_index s.user_orders)
          (Fits-choose hit _ _ _ _ Fits-none h)

  set-Indexed : (s : InMemoryStorage) (l : Location) (v : Value) → Indexed s → Indexed (set s l v)
  unfolding set get
  set-Indexed s (order u' m' i') v h = indexed-Fits u' m' i' s v (is_deleted v) refl h
  set-Indexed s (balance w a) v h = h
  set-Indexed s (position w a) v h = h
  set-Indexed s (market_state a) v h = h
  set-Indexed s (user_nonce w) v h = h

  delete-Indexed : (s : InMemoryStorage) (l : Location) → Indexed s → Indexed (delete s l)
  unfolding delete get
  delete-Indexed s (order u' m' i') h = unindexed-Fits u' m' i' s h
  delete-Indexed s (balance w a) h = h
  delete-Indexed s (position w a) h = h
  delete-Indexed s (market_state a) h = h
  delete-Indexed s (user_nonce w) h = h

  Built-Indexed : {s : InMemoryStorage} → Built s → Indexed s
  unfolding new with_balances get get_user_orders
  Built-Indexed empty = Fits-none
  Built-Indexed (funded balances) =
      Fits-both (put_balances-order balances (λ l. none)) refl Fits-none
  Built-Indexed (wrote {s} l v b) = set-Indexed s l v (Built-Indexed b)
  Built-Indexed (deleted {s} l b) = delete-Indexed s l (Built-Indexed b)

-- Of a storage that `set` and `delete` have made from one without orders, the index lists every
-- order that is stored with a value other than `Deleted`, in its market and among all orders of
-- its user, and lists no order in a market that has no value stored.
pub Built-get_user_orders :
    (s : InMemoryStorage) (u : List ℕ) (m i j : ℕ) (v : Value)
    → Built s
    → get s (order u m i) ≡ some v
    → is_deleted v ≡ false
    → get s (order u m j) ≡ none
    → (listed i (get_user_orders s.user_orders u m) ≡ true)
      × (listed i (get_all_user_orders s.user_orders u) ≡ true)
      × (listed j (get_user_orders s.user_orders u m) ≡ false)
Built-get_user_orders s u m i j v b e live gone =
    let here = (Built-Indexed u m i b).0 v e live in
    (
      here,
      listed-get_all_user_orders s.user_orders u m i here,
      elim (Bool-cases (listed j (get_user_orders s.user_orders u m))) [
        | inr c ↦ c
        | inl c ↦
            let (w, q) = (Built-Indexed u m j b).1 c in absurd (let clash = sym gone ∙ q in cc)
      ],
    )
