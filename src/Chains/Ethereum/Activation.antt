-- ===== src/Chains/Ethereum/Activation.antt =====
-- The fork of a block against the table of the forks' activations.
use parallel_execution.Common.{
  ℕ, zero, suc, ◌≡◌, ◌<◌, ◌≤◌, ◌∙◌, refl, ap, Bool, true, ◌||◌, if◌then◌else◌, leb, arith, inl, inr,
  Bool-cases, some, List, [], ◌∷◌, get_elem?,
}
use parallel_execution.Chains.Ethereum.{
  SpecId, SpecOrder, from_merge, get_block_spec, is_eip_1559_enabled, is_eip_161_enabled,
}

-- The activation of each fork is reached: its block, or the time of a later fork, or its own time.
abbrev pub activated : SpecId → ℕ → ℕ → Bool
activated SpecId.frontier number timestamp = true
activated SpecId.homestead number timestamp = leb 1150000 number || leb 1681338455 timestamp
activated SpecId.tangerine number timestamp = leb 2463000 number || leb 1681338455 timestamp
activated SpecId.spurious_dragon number timestamp = leb 2675000 number || leb 1681338455 timestamp
activated SpecId.byzantium number timestamp = leb 4370000 number || leb 1681338455 timestamp
activated SpecId.petersburg number timestamp = leb 7280000 number || leb 1681338455 timestamp
activated SpecId.istanbul number timestamp = leb 9069000 number || leb 1681338455 timestamp
activated SpecId.berlin number timestamp = leb 12244000 number || leb 1681338455 timestamp
activated SpecId.london number timestamp = leb 12965000 number || leb 1681338455 timestamp
activated SpecId.merge number timestamp = leb 15537394 number || leb 1681338455 timestamp
activated SpecId.shanghai number timestamp = leb 1681338455 timestamp
activated SpecId.cancun number timestamp = leb 1710338135 timestamp

-- The forks that a block number activates, the last one first.
abbrev by_block : List (ℕ × SpecId)
by_block =
    (15537394, SpecId.merge)
    ∷ (12965000, SpecId.london)
    ∷ (12244000, SpecId.berlin)
    ∷ (9069000, SpecId.istanbul)
    ∷ (7280000, SpecId.petersburg)
    ∷ (4370000, SpecId.byzantium)
    ∷ (2675000, SpecId.spurious_dragon)
    ∷ (2463000, SpecId.tangerine)
    ∷ (1150000, SpecId.homestead)
    ∷ []

-- The first fork of the list that the number reaches.
abbrev scan : ℕ → List (ℕ × SpecId) → SpecId
scan n [] = SpecId.frontier
scan n ((k, hi) ∷ fs) = if leb k n then hi else scan n fs

module _ (order : SpecOrder) where
  open order use {rank}

  -- The list goes down, from below the bounds.
  abbrev Falling : ℕ → ℕ → List (ℕ × SpecId) → Type 0
  Falling k r [] = rank SpecId.frontier < r
  Falling k r ((k', x) ∷ fs) = (k' ≤ k) × (rank x < r) × Falling k' (rank x) fs

  scan_below : (n k r : ℕ) (fs : List (ℕ × SpecId)) → Falling k r fs → rank (scan n fs) < r
  scan_below n k r [] h = h
  scan_below n k r ((k', x) ∷ fs) (le, lt, rest) = elim (Bool-cases (leb k' n)) [
    | inl c ↦ rw c lt
    | inr c ↦ rw c (omega (arith, lt, scan_below n k' (rank x) fs rest))
  ]

  member_below :
      (i a k r : ℕ) (s : SpecId) (fs : List (ℕ × SpecId))
      → Falling k r fs
      → get_elem? fs i ≡ some (a, s)
      → (a ≤ k) × (rank s < r)
  member_below i a k r s [] h e = absurd cc
  member_below zero a k r s ((k', x) ∷ fs) (le, lt, rest) e =
      let k'_a : k' ≡ a = cc in let x_s : rank x ≡ rank s = ap rank cc in (omega arith, omega arith)
  member_below (suc i) a k r s ((k', x) ∷ fs) (le, lt, rest) e =
      let (le', lt') = member_below i a k' (rank x) s fs rest e in (omega arith, omega arith)

  -- The fork found is one of the list or a later one if and only if the number reaches that one.
  scan_reaches :
      (n i a k r : ℕ) (s : SpecId) (fs : List (ℕ × SpecId))
      → Falling k r fs
      → get_elem? fs i ≡ some (a, s)
      → leb (rank s) (rank (scan n fs)) ≡ leb a n
  scan_reaches n i a k r s [] h e = absurd cc
  scan_reaches n zero a k r s ((k', x) ∷ fs) (le, lt, rest) e =
      let k'_a : k' ≡ a = cc in
      let x_s : rank x ≡ rank s = ap rank cc in
      let below = scan_below n k' (rank x) fs rest in
      elim (Bool-cases (leb k' n)) [
        | inl c ↦ rw c (ground (arith, x_s, k'_a))
        | inr c ↦ rw c (ground (arith, x_s, k'_a, below))
      ]
  scan_reaches n (suc i) a k r s ((k', x) ∷ fs) (le, lt, rest) e =
      let (le', lt') = member_below i a k' (rank x) s fs rest e in
      let more = scan_reaches n i a k' (rank x) s fs rest e in
      elim (Bool-cases (leb k' n)) [ inl c ↦ rw c (ground (arith, le', lt')) | inr c ↦ rw c more ]

  by_block-Falling : Falling 15537394 (rank SpecId.shanghai) by_block
  by_block-Falling = (
    omega arith,
    order.merge_shanghai,
    (
      omega arith,
      order.london_merge,
      (
        omega arith,
        order.berlin_london,
        (
          omega arith,
          order.istanbul_berlin,
          (
            omega arith,
            order.petersburg_istanbul,
            (
              omega arith,
              order.byzantium_petersburg,
              (
                omega arith,
                order.spurious_dragon_byzantium,
                (
                  omega arith,
                  order.tangerine_spurious_dragon,
                  (omega arith, order.homestead_tangerine, order.frontier_homestead),
                ),
              ),
            ),
          ),
        ),
      ),
    ),
  )

  -- The tests of the timestamp come first, and the later fork's is the later time.
  by_time :
      (s : SpecId) (n t : ℕ) (b : Bool)
      → rank s < rank SpecId.shanghai
      → leb (rank s) (rank (from_merge n)) ≡ b
      → leb (rank s) (rank (get_block_spec n t)) ≡ (b || leb 1681338455 t)
  unfolding get_block_spec
  by_time s n t b lt e = elim (Bool-cases (leb 1710338135 t)) [
    | inl c ↦
        let soon : leb 1681338455 t ≡ true = ground arith in
        rw (c, soon) (ground (arith, lt, order.shanghai_cancun))
    | inr c ↦ elim (Bool-cases (leb 1681338455 t)) [
      | inl d ↦ rw (c, d) (ground (arith, lt))
      | inr d ↦ rw (c, d) (e ∙ ground arith)
    ]
  ]

  by_number :
      (i a : ℕ) (s : SpecId) (n t : ℕ)
      → get_elem? by_block i ≡ some (a, s)
      → leb (rank s) (rank (get_block_spec n t)) ≡ (leb a n || leb 1681338455 t)
  by_number i a s n t e =
      let first : ℕ = 15537394 in
      let top = rank SpecId.shanghai in
      by_time s n t (leb a n) (member_below i a first top s by_block by_block-Falling e).1
        (scan_reaches n i a first top s by_block by_block-Falling e)

  before_shanghai : (n : ℕ) → rank (from_merge n) < rank SpecId.shanghai
  before_shanghai n = scan_below n 15537394 (rank SpecId.shanghai) by_block by_block-Falling

  least_below : (k r : ℕ) (fs : List (ℕ × SpecId)) → Falling k r fs → rank SpecId.frontier < r
  least_below k r [] h = h
  least_below k r ((k', x) ∷ fs) (le, lt, rest) = omega (arith, lt, least_below k' (rank x) fs rest)

  scan_least :
      (n k r : ℕ) (fs : List (ℕ × SpecId))
      → Falling k r fs
      → leb (rank SpecId.frontier) (rank (scan n fs)) ≡ true
  scan_least n k r [] h = ground arith
  scan_least n k r ((k', x) ∷ fs) (le, lt, rest) = elim (Bool-cases (leb k' n)) [
    | inl c ↦ rw c (ground (arith, least_below k' (rank x) fs rest))
    | inr c ↦ rw c (scan_least n k' (rank x) fs rest)
  ]

  by_shanghai :
      (n t : ℕ) → leb (rank SpecId.shanghai) (rank (get_block_spec n t)) ≡ leb 1681338455 t
  unfolding get_block_spec
  by_shanghai n t = elim (Bool-cases (leb 1710338135 t)) [
    | inl c ↦ rw c (ground (arith, order.shanghai_cancun))
    | inr c ↦ elim (Bool-cases (leb 1681338455 t)) [
      | inl d ↦ rw (c, d) (ground arith)
      | inr d ↦ rw (c, d) (ground (arith, before_shanghai n))
    ]
  ]

  by_cancun : (n t : ℕ) → leb (rank SpecId.cancun) (rank (get_block_spec n t)) ≡ leb 1710338135 t
  unfolding get_block_spec
  by_cancun n t = elim (Bool-cases (leb 1710338135 t)) [
    | inl c ↦ rw c (ground arith)
    | inr c ↦ elim (Bool-cases (leb 1681338455 t)) [
      | inl d ↦ rw (c, d) (ground (arith, order.shanghai_cancun))
      | inr d ↦ rw (c, d) (ground (arith, before_shanghai n, order.shanghai_cancun))
    ]
  ]

  reaches_activated :
      (s : SpecId) (n t : ℕ) → leb (rank s) (rank (get_block_spec n t)) ≡ activated s n t
  reaches_activated SpecId.frontier n t =
      let top = rank SpecId.shanghai in
      by_time SpecId.frontier n t true (least_below 15537394 top by_block by_block-Falling)
        (scan_least n 15537394 top by_block by_block-Falling)
  reaches_activated SpecId.merge n t = by_number 0 15537394 SpecId.merge n t refl
  reaches_activated SpecId.london n t = by_number 1 12965000 SpecId.london n t refl
  reaches_activated SpecId.berlin n t = by_number 2 12244000 SpecId.berlin n t refl
  reaches_activated SpecId.istanbul n t = by_number 3 9069000 SpecId.istanbul n t refl
  reaches_activated SpecId.petersburg n t = by_number 4 7280000 SpecId.petersburg n t refl
  reaches_activated SpecId.byzantium n t = by_number 5 4370000 SpecId.byzantium n t refl
  reaches_activated SpecId.spurious_dragon n t = by_number 6 2675000 SpecId.spurious_dragon n t refl
  reaches_activated SpecId.tangerine n t = by_number 7 2463000 SpecId.tangerine n t refl
  reaches_activated SpecId.homestead n t = by_number 8 1150000 SpecId.homestead n t refl
  reaches_activated SpecId.shanghai n t = by_shanghai n t
  reaches_activated SpecId.cancun n t = by_cancun n t

  -- A block has a given fork or a later one if and only if the fork is activated: the block
  -- has the number of the fork's first block or a higher one, or Shanghai's time has come; for
  -- Shanghai and Cancun, their own times have come. So EIP-1559 is enabled from London on, and
  -- EIP-161 from Spurious Dragon on.
  pub get_block_spec-activated :
      (s : SpecId) (n t : ℕ)
      → (leb (rank s) (rank (get_block_spec n t)) ≡ activated s n t)
        × (is_eip_1559_enabled order (get_block_spec n t) ≡ (leb 12965000 n || leb 1681338455 t))
        × (is_eip_161_enabled order (get_block_spec n t) ≡ (leb 2675000 n || leb 1681338455 t))
  unfolding is_eip_1559_enabled is_eip_161_enabled
  get_block_spec-activated s n t = (
    reaches_activated s n t,
    reaches_activated SpecId.london n t,
    reaches_activated SpecId.spurious_dragon n t,
  )
