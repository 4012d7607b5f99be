-- ===== src/Perpdex/Storage/Laws.antt =====
-- The index of orders of the in-memory storage: what its operations do to one user's list in one market.
use parallel_execution.Common.{
  ℕ, ◌≡◌, refl, sym, ap, ◌∙◌, Bool, true, false, List, [], ◌∷◌, ◌++◌, ◌==◌, ==_iff, ==_refl, ◌&&◌,
  ◌||◌, if◌then◌else◌, arith, inl, inr, Bool-cases,
}
use parallel_execution.Perpdex.Storage.{
  addr_eq, Entry, is_entry, add_order_index, remove_order_index, retain_others, get_user_orders,
  get_all_user_orders,
}

pub addr_eq_sound : (u v : List ℕ) → addr_eq u v ≡ true → u ≡ v
addr_eq_sound [] [] h = refl
addr_eq_sound (x ∷ xs) (y ∷ ys) h =
    let head : x ≡ y = ground arith in let tail : xs ≡ ys = addr_eq_sound xs ys (ground arith) in cc
addr_eq_sound [] (y ∷ ys) h = absurd cc
addr_eq_sound (x ∷ xs) [] h = absurd cc

pub addr_eq_refl : (u : List ℕ) → addr_eq u u ≡ true
addr_eq_refl [] = refl
addr_eq_refl (x ∷ xs) = ground (arith, ==_refl x, addr_eq_refl xs)

-- The list has the number.
abbrev pub listed : ℕ → List ℕ → Bool
listed i [] = false
listed i (x ∷ xs) = (x == i) || listed i xs

or_assoc : (a b c : Bool) → ((a || b) || c) ≡ (a || (b || c))
or_assoc a b c = ground arith

listed-++ : (i : ℕ) (xs ys : List ℕ) → listed i (xs ++ ys) ≡ (listed i xs || listed i ys)
listed-++ i [] ys = refl
listed-++ i (x ∷ xs) ys =
    ap (λ b. (x == i) || b) (listed-++ i xs ys)
    ∙ sym (or_assoc (x == i) (listed i xs) (listed i ys))

pub listed-retain_others : (i : ℕ) (xs : List ℕ) → listed i (retain_others i xs) ≡ false
unfolding retain_others
listed-retain_others i [] = refl
listed-retain_others i (x ∷ xs) = elim (Bool-cases (x == i)) [
  | inl c ↦ rw c (listed-retain_others i xs)
  | inr c ↦ rw (c, c) (listed-retain_others i xs)
]

pub listed-retain_others_other :
    (k i : ℕ) (xs : List ℕ) → (k == i) ≡ false → listed i (retain_others k xs) ≡ listed i xs
unfolding retain_others
listed-retain_others_other k i [] h = refl
listed-retain_others_other k i (x ∷ xs) h = elim (Bool-cases (x == k)) [
  | inl c ↦
      let no : (x == i) ≡ false = ground arith in rw (c, no) (listed-retain_others_other k i xs h)
  | inr c ↦ rw c (ap (λ b. (x == i) || b) (listed-retain_others_other k i xs h))
]

pub listed-push : (i : ℕ) (xs : List ℕ) → listed i (xs ++ i ∷ []) ≡ true
listed-push i xs =
    listed-++ i xs (i ∷ []) ∙ (let yes : (i == i) ≡ true = ==_refl i in ground (arith, yes))

pub listed-push_other :
    (k i : ℕ) (xs : List ℕ) → (k == i) ≡ false → listed i (xs ++ k ∷ []) ≡ listed i xs
listed-push_other k i xs h = listed-++ i xs (k ∷ []) ∙ ground (arith, h)

-- An entry of one key is not of another.
other_entry :
    (u u' : List ℕ) (m m' : ℕ) (e : Entry)
    → (addr_eq u u' && (m == m')) ≡ false
    → is_entry u m e ≡ true
    → is_entry u' m' e ≡ false
other_entry u u' m m' e h c =
    let same : e.user ≡ u = addr_eq_sound e.user u (ground arith) in
    let market : e.market_id ≡ m = (==_iff e.market_id m).0 (ground arith) in
    ap (λ w. addr_eq w u' && (e.market_id == m')) same
    ∙ (ap (λ n. addr_eq u u' && (n == m')) market ∙ h)

module _ (u : List ℕ) (m i : ℕ) where
  pub get_user_orders-add_order_index :
      (es : List Entry)
      → get_user_orders (add_order_index es u m i) u m ≡ get_user_orders es u m ++ i ∷ []
  unfolding get_user_orders add_order_index
  get_user_orders-add_order_index [] = rw (addr_eq_refl u, ==_refl m) refl
  get_user_orders-add_order_index (e ∷ es) = elim (Bool-cases (is_entry u m e)) [
    | inl c ↦ rw (c, c) refl
    | inr c ↦ rw (c, c) (get_user_orders-add_order_index es)
  ]

  pub get_user_orders-add_order_index_other :
      (u' : List ℕ) (m' : ℕ) (es : List Entry)
      → (addr_eq u u' && (m == m')) ≡ false
      → get_user_orders (add_order_index es u m i) u' m' ≡ get_user_orders es u' m'
  unfolding get_user_orders add_order_index
  get_user_orders-add_order_index_other u' m' [] h = rw h refl
  get_user_orders-add_order_index_other u' m' (e ∷ es) h = elim (Bool-cases (is_entry u m e)) [
    | inl c ↦ rw (c, other_entry u u' m m' e h c) refl
    | inr c ↦ rw c (
        ap (λ z. if is_entry u' m' e then e.order_ids else z)
          (get_user_orders-add_order_index_other u' m' es h))
  ]

  pub get_user_orders-remove_order_index :
      (es : List Entry)
      → get_user_orders (remove_order_index es u m i) u m ≡ retain_others i (get_user_orders es u m)
  unfolding get_user_orders remove_order_index retain_others
  get_user_orders-remove_order_index [] = refl
  get_user_orders-remove_order_index (e ∷ es) = elim (Bool-cases (is_entry u m e)) [
    | inl c ↦ rw (c, c) refl
    | inr c ↦ rw (c, c) (get_user_orders-remove_order_index es)
  ]

  pub get_user_orders-remove_order_index_other :
      (u' : List ℕ) (m' : ℕ) (es : List Entry)
      → (addr_eq u u' && (m == m')) ≡ false
      → get_user_orders (remove_order_index es u m i) u' m' ≡ get_user_orders es u' m'
  unfolding get_user_orders remove_order_index
  get_user_orders-remove_order_index_other u' m' [] h = refl
  get_user_orders-remove_order_index_other u' m' (e ∷ es) h = elim (Bool-cases (is_entry u m e)) [
    | inl c ↦ rw (c, other_entry u u' m m' e h c) refl
    | inr c ↦ rw c (
        ap (λ z. if is_entry u' m' e then e.order_ids else z)
          (get_user_orders-remove_order_index_other u' m' es h))
  ]

or_intro : (a b c : Bool) → (a ≡ true → b ≡ true) → (c || a) ≡ true → (c || b) ≡ true
or_intro true b true h k = refl
or_intro true b false h k = h refl
or_intro false b true h k = refl
or_intro false b false h k = absurd cc

-- What a user has in one market, he has.
pub listed-get_all_user_orders :
    (es : List Entry) (u : List ℕ) (m i : ℕ)
    → listed i (get_user_orders es u m) ≡ true
    → listed i (get_all_user_orders es u) ≡ true
unfolding get_user_orders get_all_user_orders
listed-get_all_user_orders [] u m i h = h
listed-get_all_user_orders (e ∷ es) u m i h =
    let all = listed-++ i e.order_ids (get_all_user_orders es u) in
    elim (Bool-cases (addr_eq e.user u)) [
      | inl c ↦ elim (Bool-cases (e.market_id == m)) [
        | inl d ↦
            let h' = rw (c, d) at h in
            rw c (all ∙ ap (λ b. b || listed i (get_all_user_orders es u)) h')
        | inr d ↦
            let h' = listed-get_all_user_orders es u m i (rw (c, d) at h) in
            rw c (all ∙ rw h' (ground arith))
      ]
      | inr c ↦ rw c (listed-get_all_user_orders es u m i (rw c at h))
    ]
