-- ===== src/Common/Family.antt =====
-- Vectors of cells as functions of the index: one cell changed, and sums over the first `n` cells.
use Prim.Native.Nat.{ℕ, zero, suc, ◌+◌, ◌-◌, ◌<◌, ◌≤◌}
use mathlib.Core.Path.{◌≡◌, refl}
use mathlib.Core.Logic.{◌≢◌, inl, inr}
use native.Mathlib.Omega.{arith}
use parallel_execution.Common.Tests.{◌==◌, ltb, if◌then◌else◌, ==_iff, ==_refl, Bool-cases}

module _ {ℓ} {A : Type ℓ} where
  abbrev pub update : (ℕ → A) → ℕ → A → ℕ → A
  update f i a j = if j == i then a else f j

  pub update_self : (f : ℕ → A) (i : ℕ) (a : A) → update f i a i ≡ a
  update_self f i a = rw (==_refl i)

  pub update_ne : (f : ℕ → A) (i : ℕ) (a : A) (j : ℕ) → j ≢ i → update f i a j ≡ f j
  update_ne f i a j h = ground arith

-- The sum of the first `n` values.
pub total : (ℕ → ℕ) → ℕ → ℕ
total w zero = 0
total w (suc n) = w n + total w n

pub total-zero : (w : ℕ → ℕ) (n : ℕ) → ((i : ℕ) → w i ≡ 0) → total w n ≡ 0
unfolding total
total-zero w zero h = refl
total-zero w (suc n) h = omega (arith, h n, total-zero w n h)

pub total-eq : (v w : ℕ → ℕ) (n : ℕ) → ((i : ℕ) → i < n → v i ≡ w i) → total v n ≡ total w n
unfolding total
total-eq v w zero h = refl
total-eq v w (suc n) h =
    omega (arith, h n (omega arith), total-eq v w n (λ i lt. h i (omega arith)))

-- A change of one value changes the sum by as much.
pub total-change :
    (v w : ℕ → ℕ) (n i : ℕ)
    → ((j : ℕ) → j ≢ i → v j ≡ w j)
    → i < n
    → total v n + w i ≡ total w n + v i
unfolding total
total-change v w zero i h lt = elim lt [ ]
total-change v w (suc n) i h lt = elim (Bool-cases (n == i)) [
  | inl e ↦
      let same : n ≡ i = (==_iff n i).0 e in
      rw (← same) (omega (arith, total-eq v w n (λ j jn. h j (λ q. absurd (omega arith)))))
  | inr e ↦
      let other : n ≢ i = ground arith in
      omega (arith, h n other, total-change v w n i h (omega arith))
]

-- One value never exceeds the sum.
pub le-total : (w : ℕ → ℕ) (n i : ℕ) → i < n → w i ≤ total w n
unfolding total
le-total w zero i lt = elim lt [ ]
le-total w (suc n) i lt = elim (Bool-cases (n == i)) [
  | inl e ↦ let same : n ≡ i = (==_iff n i).0 e in rw (← same) (omega arith)
  | inr e ↦ let other : n ≢ i = ground arith in omega (arith, le-total w n i (omega arith))
]

-- A sum of indicators that reaches its bound has no indicator left out.
pub total-full :
    (w : ℕ → ℕ) (n : ℕ)
    → ((i : ℕ) → w i ≤ 1)
    → (total w n ≤ n) × (n ≤ total w n → (i : ℕ) → i < n → w i ≡ 1)
unfolding total
total-full w zero h = (omega arith, λ _ i lt. elim lt [ ])
total-full w (suc n) h = (
  omega (arith, h n, (total-full w n h).0),
  λ full i lt. elim (Bool-cases (n == i)) [
    | inl e ↦
        let same : n ≡ i = (==_iff n i).0 e in
        rw (← same) (omega (arith, h n, (total-full w n h).0))
    | inr e ↦
        let other : n ≢ i = ground arith in
        (total-full w n h).1 (omega (arith, h n)) i (omega arith)
  ],
)

-- A positive sum has a positive value.
pub total-pos : (w : ℕ → ℕ) (n : ℕ) → 0 < total w n → (i : ℕ) × (i < n) × (0 < w i)
unfolding total
total-pos w zero h = elim h [ ]
total-pos w (suc n) h = elim (Bool-cases (ltb 0 (w n))) [
  | inl e ↦ (n, omega arith, ground arith)
  | inr e ↦ let (i, lt, p) = total-pos w n (ground arith) in (i, omega arith, p)
]

-- Two values are at most the sum.
pub total-two : (w : ℕ → ℕ) (n i j : ℕ) → i < n → j < n → i ≢ j → w i + w j ≤ total w n
unfolding total
total-two w zero i j a b ne = elim a [ ]
total-two w (suc n) i j a b ne = elim (Bool-cases (n == i)) [
  | inl e ↦
      let same : n ≡ i = (==_iff n i).0 e in
      rw (← same) (omega (arith, le-total w n j (ground arith)))
  | inr e ↦ elim (Bool-cases (n == j)) [
    | inl f ↦
        let same : n ≡ j = (==_iff n j).0 f in
        rw (← same) (omega (arith, le-total w n i (ground arith)))
    | inr f ↦ omega (arith, total-two w n i j (ground arith) (ground arith) ne)
  ]
]

-- Values of at most 1 that are 0 below `m`: a sum that reaches `n - m` has no 0 from `m` on.
pub total-full_from :
    (w : ℕ → ℕ) (n m : ℕ)
    → ((i : ℕ) → w i ≤ 1)
    → ((i : ℕ) → i < m → w i ≡ 0)
    → (total w n ≤ n - m) × (n - m ≤ total w n → (i : ℕ) → m ≤ i → i < n → w i ≡ 1)
unfolding total
total-full_from w zero m h z = (omega arith, λ _ i le lt. elim lt [ ])
total-full_from w (suc n) m h z =
    let (bound, full) = total-full_from w n m h z in
    (
      ground (arith, h n, z n),
      λ reach i le lt. elim (Bool-cases (n == i)) [
        | inl e ↦ let same : n ≡ i = (==_iff n i).0 e in rw (← same) (omega (arith, h n))
        | inr e ↦ let other : n ≢ i = ground arith in full (omega (arith, h n)) i le (omega arith)
      ],
    )
