-- ===== src/MvMemory/Removal.antt =====
-- What the first loop of `record` removes.
use parallel_execution.Common.{
  ℕ, zero, suc, ◌≡◌, ◌≢◌, refl, sym, ap, ◌∙◌, Bool, true, false, Option, none, some, List, [], ◌∷◌,
  ◌++◌, ◌==◌, ==_iff, ◌||◌, ◌&&◌, arith, inl, inr, Bool-cases, update, update_ne, update_self,
  length,
}
use parallel_execution.MvMemory.{
  Tree, tree_of, set_in, WriteSet, MemoryEntry, tree_at, has, writes_to, set_entry, insert_entry,
  swap_last, last_of, init_of, remove_old,
}
use parallel_execution.MvMemory.Writes.{Data, differ}

-- Every location where transaction `i` has an entry is among its last writes.
abbrev pub Covered : Data → ℕ → List ℕ → Type 0
Covered d i ls = (l : ℕ) → has l ls ≡ false → tree_at d l i ≡ none

pub has-append : (l : ℕ) (xs ys : List ℕ) → has l (xs ++ ys) ≡ (has l xs || has l ys)
has-append l [] ys = refl
has-append l (x ∷ xs) ys = ground (arith, has-append l xs ys)

has-swap :
    (l x : ℕ) (xs : List ℕ) → (last_of x xs == l || has l (init_of x xs)) ≡ (x == l || has l xs)
has-swap l x [] = refl
has-swap l x (y ∷ ys) = ground (arith, has-swap l y ys)

has-swap_last : (l : ℕ) (xs : List ℕ) → has l (swap_last xs) ≡ has l xs
has-swap_last l [] = refl
has-swap_last l (x ∷ xs) = has-swap l x xs

length-init_of : (x : ℕ) (xs : List ℕ) → length (init_of x xs) ≡ length xs
length-init_of x [] = refl
length-init_of x (y ∷ ys) = omega (arith, length-init_of y ys)

length-swap_last : (xs : List ℕ) → length (swap_last xs) ≡ length xs
length-swap_last [] = refl
length-swap_last (x ∷ xs) = omega (arith, length-init_of x xs)

-- Entries after an update at one location.
set_in_here :
    (d : Data) (k i : ℕ) (o : Option Tree) → d k ≡ o → tree_at (set_in d k i none o) k i ≡ none
set_in_here d k i none q = ap (λ o. tree_of o i) q
set_in_here d k i (some t) q =
    ap (λ o. tree_of o i) (update_self d k (some (update t i none))) ∙ update_self t i none

set_entry_here : (d : Data) (k i : ℕ) → tree_at (set_entry d k i none) k i ≡ none
set_entry_here d k i = set_in_here d k i (d k) refl

set_in_there :
    (d : Data) (k i l : ℕ) (o : Option Tree)
    → l ≢ k
    → tree_at (set_in d k i none o) l i ≡ tree_at d l i
set_in_there d k i l none ne = refl
set_in_there d k i l (some t) ne =
    ap (λ o. tree_of o i) (update_ne d k (some (update t i none)) l ne)

set_entry_there :
    (d : Data) (k i l : ℕ) → l ≢ k → tree_at (set_entry d k i none) l i ≡ tree_at d l i
set_entry_there d k i l ne = set_in_there d k i l (d k) ne

pub insert_here :
    (d : Data) (k i : ℕ) (e : MemoryEntry) → tree_at (insert_entry d k i e) k i ≡ some e
insert_here d k i e =
    ap (λ o. tree_of o i) (update_self d k (some (update (tree_at d k) i (some e))))
    ∙ update_self (tree_at d k) i (some e)

pub insert_there :
    (d : Data) (k i l : ℕ) (e : MemoryEntry)
    → l ≢ k
    → tree_at (insert_entry d k i e) l i ≡ tree_at d l i
insert_there d k i l e ne =
    ap (λ o. tree_of o i) (update_ne d k (some (update (tree_at d k) i (some e))) l ne)

as_before :
    (l k : ℕ) (ws : WriteSet) (b : Bool) → writes_to k ws ≡ b → (k == l) ≡ true → writes_to l ws ≡ b
as_before l k ws b h e = ap (λ z. writes_to z ws) (sym ((==_iff k l).0 e)) ∙ h

kept_on :
    (l k : ℕ) (ws : WriteSet) (kept rest : List ℕ)
    → writes_to k ws ≡ true
    → (has l (kept ++ k ∷ []) || (has l rest && writes_to l ws))
      ≡ (has l kept || (has l (k ∷ rest) && writes_to l ws))
kept_on l k ws kept rest b = ground (arith, has-append l kept (k ∷ []), as_before l k ws true b)

dropped :
    (l k : ℕ) (ws : WriteSet) (kept rest : List ℕ)
    → writes_to k ws ≡ false
    → (has l kept || (has l (swap_last rest) && writes_to l ws))
      ≡ (has l kept || (has l (k ∷ rest) && writes_to l ws))
dropped l k ws kept rest b = ground (arith, has-swap_last l rest, as_before l k ws false b)

pub has-remove_old :
    (fuel i : ℕ) (ws : WriteSet) (d : Data) (kept rest : List ℕ) (l : ℕ)
    → length rest ≡ fuel
    → has l (remove_old fuel i ws d kept rest).1 ≡ (has l kept || (has l rest && writes_to l ws))
unfolding remove_old
has-remove_old zero i ws d kept [] l h = ground (arith, has-append l kept [])
has-remove_old zero i ws d kept (k ∷ rest) l h = absurd (omega arith)
has-remove_old (suc fuel) i ws d kept [] l h = absurd (omega arith)
has-remove_old (suc fuel) i ws d kept (k ∷ rest) l h = elim (Bool-cases (writes_to k ws)) [
  | inl b ↦
      rw (b, remove_old)
        (has-remove_old fuel i ws d (kept ++ k ∷ []) rest l (omega arith)
          ∙ kept_on l k ws kept rest b)
  | inr b ↦
      rw (b, remove_old)
        (has-remove_old fuel i ws (set_entry d k i none) kept (swap_last rest) l
            (omega (arith, length-swap_last rest))
          ∙ dropped l k ws kept rest b)
]

pub remove_old-Covered :
    (fuel i : ℕ) (ws : WriteSet) (d : Data) (kept rest : List ℕ)
    → length rest ≡ fuel
    → Covered d i (kept ++ rest)
    → Covered (remove_old fuel i ws d kept rest).0 i (remove_old fuel i ws d kept rest).1
unfolding remove_old
remove_old-Covered zero i ws d kept [] h c = c
remove_old-Covered zero i ws d kept (k ∷ rest) h c = absurd (omega arith)
remove_old-Covered (suc fuel) i ws d kept [] h c = absurd (omega arith)
remove_old-Covered (suc fuel) i ws d kept (k ∷ rest) h c = elim (Bool-cases (writes_to k ws)) [
  | inl b ↦
      rw (b, remove_old)
        (remove_old-Covered fuel i ws d (kept ++ k ∷ []) rest (omega arith) (λ l n. c l (
          ground (
            arith,
            has-append l (kept ++ k ∷ []) rest,
            has-append l kept (k ∷ []),
            has-append l kept (k ∷ rest),
          ))))
  | inr b ↦
      rw (b, remove_old)
        (remove_old-Covered fuel i ws (set_entry d k i none) kept (swap_last rest)
          (omega (arith, length-swap_last rest))
          (λ l n. elim (Bool-cases (l == k)) [
            | inl same ↦ rw ((==_iff l k).0 same) (set_entry_here d k i)
            | inr other ↦
                set_entry_there d k i l (differ l k other)
                ∙ c l (
                    ground (
                      arith,
                      has-append l kept (swap_last rest),
                      has-swap_last l rest,
                      has-append l kept (k ∷ rest),
                    ))
          ]))
]
