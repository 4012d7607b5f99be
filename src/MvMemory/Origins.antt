-- ===== src/MvMemory/Origins.antt =====
-- What the entries below a transaction are, and what a list of read origins says of them.
use parallel_execution.Common.{
  ℕ, zero, suc, ◌+◌, ◌≡◌, ◌<◌, ◌≤◌, ◌↔◌, refl, ◌∙◌, true, Option, none, some, List, [], ◌∷◌, ◌==◌,
  ==_iff, arith, inl, inr, Bool-cases,
}
use parallel_execution.Types.{TxVersion, ReadOrigin, mv_memory, storage}
use parallel_execution.MvMemory.{
  Tree, MemoryEntry, written, estimate, MemoryValue, next_back, entry_or, match_version, none_left,
  check_origins,
}

-- No transaction from `low` up to `bound` has an entry.
abbrev pub Nothing : Tree → ℕ → ℕ → Type 0
Nothing t low bound = (j : ℕ) → low ≤ j → j < bound → t j ≡ none

-- What a read below `bound` finds, going down one origin at a time: the highest entry is one that
-- the origin's version wrote; or there is none, for the storage.
abbrev pub Rereads : Tree → ℕ → List ReadOrigin → Type 0
Rereads t bound [] = Unit {0}
Rereads t bound (mv_memory v ∷ os) =
    (v.tx_idx < bound)
    × ((x : MemoryValue) × (t v.tx_idx ≡ some (written v.tx_incarnation x)))
    × Nothing t (v.tx_idx + 1) bound
    × Rereads t v.tx_idx os
Rereads t bound (storage ∷ os) = Nothing t 0 bound × Rereads t 0 os

entry_or_found :
    (t : Tree) (b i : ℕ) (e : MemoryEntry) (o : Option MemoryEntry)
    (rest : Option (ℕ × MemoryEntry))
    → t b ≡ o
    → (rest ≡ some (i, e) → (i < b) × (t i ≡ some e) × Nothing t (i + 1) b)
    → entry_or b o rest ≡ some (i, e)
    → (i < suc b) × (t i ≡ some e) × Nothing t (i + 1) (suc b)
entry_or_found t b i e (some f) rest q ih h =
    let same : b ≡ i = cc in
    let entry : some f ≡ some e = cc in
    (omega arith, rw (← same) (q ∙ entry), λ j lo hi. absurd (omega arith))
entry_or_found t b i e none rest q ih h =
    let (lt, at, gap) = ih h in
    (
      omega arith,
      at,
      λ j lo hi. elim (Bool-cases (j == b)) [
        | inl same ↦ rw ((==_iff j b).0 same) q
        | inr other ↦ gap j lo (ground arith)
      ],
    )

pub next_back_found :
    (t : Tree) (bound i : ℕ) (e : MemoryEntry)
    → next_back t bound ≡ some (i, e)
    → (i < bound) × (t i ≡ some e) × Nothing t (i + 1) bound
unfolding next_back
next_back_found t zero i e h = absurd cc
next_back_found t (suc b) i e h =
    entry_or_found t b i e (t b) (next_back t b) refl (next_back_found t b i e) h

entry_or-none :
    (t : Tree) (b : ℕ) (o : Option MemoryEntry) (rest : Option (ℕ × MemoryEntry))
    → t b ≡ o
    → (rest ≡ none → Nothing t 0 b)
    → entry_or b o rest ≡ none
    → Nothing t 0 (suc b)
entry_or-none t b (some f) rest q ih h = absurd cc
entry_or-none t b none rest q ih h = λ j lo hi. elim (Bool-cases (j == b)) [
  | inl same ↦ rw ((==_iff j b).0 same) q
  | inr other ↦ ih h j lo (ground arith)
]

pub next_back-none : (t : Tree) (bound : ℕ) → next_back t bound ≡ none → Nothing t 0 bound
unfolding next_back
next_back-none t zero h = λ j lo hi. absurd (omega arith)
next_back-none t (suc b) h = entry_or-none t b (t b) (next_back t b) refl (next_back-none t b) h

Nothing-none : (t : Tree) (bound : ℕ) → Nothing t 0 bound → next_back t bound ≡ none
unfolding next_back
Nothing-none t zero h = refl
Nothing-none t (suc b) h =
    let top : t b ≡ none = h b (omega arith) (omega arith) in
    rw top (Nothing-none t b (λ j lo hi. h j lo (omega arith)))

highest_found :
    (t : Tree) (bound i : ℕ) (e : MemoryEntry)
    → i < bound
    → t i ≡ some e
    → Nothing t (i + 1) bound
    → next_back t bound ≡ some (i, e)
unfolding next_back
highest_found t zero i e lt at gap = absurd (omega arith)
highest_found t (suc b) i e lt at gap = elim (Bool-cases (i == b)) [
  | inl same ↦
      let here : i ≡ b = (==_iff i b).0 same in
      let top : t b ≡ some e = rw (← here) at in rw (top, here) refl
  | inr other ↦
      let top : t b ≡ none = gap b (ground arith) (omega arith) in
      rw top (highest_found t b i e (ground arith) at (λ j lo hi. gap j lo (omega arith)))
]

-- The loop over the origins accepts them if and only if reading again finds the same.
match_version_iff :
    (t : Tree) (bound : ℕ) (v : TxVersion) (os : List ReadOrigin) (o : Option (ℕ × MemoryEntry))
    → next_back t bound ≡ o
    → ((i : ℕ) → (check_origins t i os ≡ true) ↔ Rereads t i os)
    → (match_version v o (λ i. check_origins t i os) ≡ true) ↔ Rereads t bound (mv_memory v ∷ os)
match_version_iff t bound v os none q ih = (
  λ h. absurd cc,
  λ (lt, (x, at), gap, more).
      let found = highest_found t bound v.tx_idx (written v.tx_incarnation x) lt at gap in
      absurd cc,
)
match_version_iff t bound v os (some (i, estimate)) q ih = (
  λ h. absurd cc,
  λ (lt, (x, at), gap, more).
      let found = highest_found t bound v.tx_idx (written v.tx_incarnation x) lt at gap in
      absurd cc,
)
match_version_iff t bound v os (some (i, written k y)) q ih = (
  λ h.
      let (low, here, gap) = next_back_found t bound i (written k y) q in
      let same : i ≡ v.tx_idx = ground arith in
      let same' : k ≡ v.tx_incarnation = ground arith in
      let rest : check_origins t i os ≡ true = ground arith in
      rw (← same, ← same') (low, (y, here), gap, (ih i).0 rest),
  λ (lt, (x, at), gap, more).
      let found = highest_found t bound v.tx_idx (written v.tx_incarnation x) lt at gap in
      let same : i ≡ v.tx_idx = cc in
      let same' : k ≡ v.tx_incarnation = cc in
      let rest : check_origins t i os ≡ true = rw same ((ih v.tx_idx).1 more) in ground arith,
)

none_left_iff :
    (t : Tree) (bound : ℕ) (os : List ReadOrigin) (o : Option (ℕ × MemoryEntry))
    → next_back t bound ≡ o
    → ((check_origins t 0 os ≡ true) ↔ Rereads t 0 os)
    → (none_left o (check_origins t 0 os) ≡ true) ↔ Rereads t bound (storage ∷ os)
none_left_iff t bound os none q ih = (λ h. (next_back-none t bound q, ih.0 h), λ h. ih.1 h.1)
none_left_iff t bound os (some e) q ih =
    (λ h. absurd cc, λ h. let none_there = Nothing-none t bound h.0 in absurd cc)

pub check_origins_iff :
    (t : Tree) (bound : ℕ) (os : List ReadOrigin)
    → (check_origins t bound os ≡ true) ↔ Rereads t bound os
unfolding check_origins
check_origins_iff t bound [] = (λ _. tt, λ _. refl)
check_origins_iff t bound (mv_memory v ∷ os) =
    match_version_iff t bound v os (next_back t bound) refl (λ i. check_origins_iff t i os)
check_origins_iff t bound (storage ∷ os) =
    none_left_iff t bound os (next_back t bound) refl (check_origins_iff t 0 os)
