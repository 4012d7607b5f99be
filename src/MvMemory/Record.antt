-- ===== src/MvMemory/Record.antt =====
-- What `record` leaves of a transaction's own writes.
use parallel_execution.Common.{
  ℕ, ◌≡◌, ◌↔◌, ◌⊎◌, refl, sym, ap, ◌∙◌, Bool, true, false, Option, none, some, List, [], ◌∷◌, ◌++◌,
  if◌then◌else◌, ◌==◌, ==_iff, ==_refl, ◌||◌, ◌&&◌, arith, inl, inr, Bool-cases, update_self,
  length,
}
use parallel_execution.Types.{TxVersion}
use parallel_execution.MvMemory.{
  ReadSet, WriteSet, MvMemory, MemoryEntry, MemoryValue, written, tree_at, has, writes_to,
  insert_entry, remove_old, register, record_sets,
}
use parallel_execution.MvMemory.Writes.{Data, differ}
use parallel_execution.MvMemory.Removal.{
  Covered, has-append, insert_here, insert_there, has-remove_old, remove_old-Covered,
}

-- The last value that a write set has for a location.
abbrev pub or_else : Option MemoryValue → Option MemoryValue → Option MemoryValue
or_else (some x) other = some x
or_else none other = other

abbrev pub last_write : ℕ → WriteSet → Option MemoryValue
last_write l [] = none
last_write l ((k, x) ∷ ws) = or_else (last_write l ws) (if k == l then some x else none)

abbrev pub entry_of : ℕ → Option MemoryValue → Option MemoryEntry
entry_of inc none = none
entry_of inc (some x) = some (written inc x)

-- The entries after registering: the last write of each location, or what there was.
entry_else : ℕ → Option MemoryValue → Option MemoryEntry → Option MemoryEntry
entry_else inc none e = e
entry_else inc (some x) e = some (written inc x)

entry_step :
    (v : TxVersion) (l k : ℕ) (x : MemoryValue) (d : Data) (o : Option MemoryValue)
    → entry_else v.tx_incarnation o
        (tree_at (insert_entry d k v.tx_idx (written v.tx_incarnation x)) l v.tx_idx)
      ≡ entry_else v.tx_incarnation
          (or_else o (if k == l then some x else none))
          (tree_at d l v.tx_idx)
unfolding entry_else
entry_step v l k x d (some y) = refl
entry_step v l k x d none = elim (Bool-cases (k == l)) [
  | inl e ↦ rw e (
      ap (λ z. tree_at (insert_entry d k v.tx_idx (written v.tx_incarnation x)) z v.tx_idx)
        (sym ((==_iff k l).0 e))
      ∙ insert_here d k v.tx_idx (written v.tx_incarnation x))
  | inr e ↦
      rw e (insert_there d k v.tx_idx l (written v.tx_incarnation x) (λ q. differ k l e (sym q)))
]

old_on :
    (l k : ℕ) (ls : List ℕ) (ws : WriteSet) (x : MemoryValue)
    → has k ls ≡ true
    → (has l ls || writes_to l ws) ≡ (has l ls || writes_to l ((k, x) ∷ ws))
old_on l k ls ws x b =
    let same : (k == l) ≡ true → has l ls ≡ true =
      λ e. ap (λ z. has z ls) (sym ((==_iff k l).0 e)) ∙ b in
    ground arith

new_on :
    (l k : ℕ) (ls : List ℕ) (ws : WriteSet) (x : MemoryValue)
    → (has l (ls ++ k ∷ []) || writes_to l ws) ≡ (has l ls || writes_to l ((k, x) ∷ ws))
new_on l k ls ws x = ground (arith, has-append l ls (k ∷ []))

-- A location that is written to and is not in a list.
abbrev pub Fresh : List ℕ → WriteSet → Type 0
Fresh ls ws = (l : ℕ) × (writes_to l ws ≡ true) × (has l ls ≡ false)

Fresh-more :
    (k : ℕ) (x : MemoryValue) (ls : List ℕ) (ws : WriteSet) → Fresh ls ws → Fresh ls ((k, x) ∷ ws)
Fresh-more k x ls ws (l, w, n) = (l, ground arith, n)

Fresh-less :
    (k : ℕ) (x : MemoryValue) (ls : List ℕ) (ws : WriteSet)
    → has k ls ≡ true
    → Fresh ls ((k, x) ∷ ws)
    → Fresh ls ws
Fresh-less k x ls ws b (l, w, n) =
    let same : (k == l) ≡ true → has l ls ≡ true =
      λ e. ap (λ z. has z ls) (sym ((==_iff k l).0 e)) ∙ b in
    (l, ground arith, n)

module _ (v : TxVersion) where
  after : Data → ℕ → MemoryValue → Data
  after d k x = insert_entry d k v.tx_idx (written v.tx_incarnation x)

  register_entries :
      (ws : WriteSet) (d : Data) (ls : List ℕ) (new : Bool) (l : ℕ)
      → tree_at (register v ws d ls new).0 l v.tx_idx
        ≡ entry_else v.tx_incarnation (last_write l ws) (tree_at d l v.tx_idx)
  unfolding register entry_else
  register_entries [] d ls new l = refl
  register_entries ((k, x) ∷ ws) d ls new l =
      let d' = insert_entry d k v.tx_idx (written v.tx_incarnation x) in
      let step = entry_step v l k x d (last_write l ws) in
      elim (Bool-cases (has k ls)) [
        | inl b ↦ rw (b, register) (register_entries ws d' ls new l ∙ step)
        | inr b ↦ rw (b, register) (register_entries ws d' (ls ++ k ∷ []) true l ∙ step)
      ]

  has-register :
      (ws : WriteSet) (d : Data) (ls : List ℕ) (new : Bool) (l : ℕ)
      → has l (register v ws d ls new).1 ≡ (has l ls || writes_to l ws)
  unfolding register
  has-register [] d ls new l = ground arith
  has-register ((k, x) ∷ ws) d ls new l =
      let d' = insert_entry d k v.tx_idx (written v.tx_incarnation x) in
      elim (Bool-cases (has k ls)) [
        | inl b ↦ rw (b, register) (has-register ws d' ls new l ∙ old_on l k ls ws x b)
        | inr b ↦ rw (b, register) (has-register ws d' (ls ++ k ∷ []) true l ∙ new_on l k ls ws x)
      ]

  register_flag :
      (ws : WriteSet) (d : Data) (ls : List ℕ) (new : Bool)
      → ((register v ws d ls new).2 ≡ true) ↔ ((new ≡ true) ⊎ Fresh ls ws)
  unfolding register
  register_flag [] d ls new = (λ h. inl h, λ h. elim h [ inl e ↦ e | inr f ↦ absurd cc ])
  register_flag ((k, x) ∷ ws) d ls new =
      let d' = insert_entry d k v.tx_idx (written v.tx_incarnation x) in
      elim (Bool-cases (has k ls)) [
        | inl b ↦
            let ih = register_flag ws d' ls new in
            rw (b, register)
              (
                λ h. elim (ih.0 h) [ inl e ↦ inl e | inr f ↦ inr (Fresh-more k x ls ws f) ],
                λ h. ih.1 (elim h [ inl e ↦ inl e | inr f ↦ inr (Fresh-less k x ls ws b f) ]),
              )
        | inr b ↦
            rw (b, register)
              (
                λ h. inr (k, ground (arith, ==_refl k), b),
                λ h. (register_flag ws d' (ls ++ k ∷ []) true).1 (inl refl),
              )
      ]

and_false : (a b : Bool) → b ≡ false → (a && b) ≡ false
and_false a b h = ground arith

false_and : (a b : Bool) → a ≡ false → (a && b) ≡ false
false_and a b h = ground arith

kept_or : (a b k : Bool) → k ≡ (a && b) → (k || b) ≡ b
kept_or a b k h = ground arith

was_fresh : (a b k : Bool) → k ≡ (a && b) → b ≡ true → k ≡ false → a ≡ false
was_fresh a b k h w n = ground arith

last_step :
    (l k : ℕ) (x : MemoryValue) (ws : WriteSet) (o : Option MemoryValue)
    → (o ≡ none → writes_to l ws ≡ false)
    → or_else o (if k == l then some x else none) ≡ none
    → writes_to l ((k, x) ∷ ws) ≡ false
last_step l k x ws none ih h = let n = ih refl in ground arith
last_step l k x ws (some y) ih h = absurd cc

last_write-none : (l : ℕ) (ws : WriteSet) → last_write l ws ≡ none → writes_to l ws ≡ false
last_write-none l [] h = refl
last_write-none l ((k, x) ∷ ws) h = last_step l k x ws (last_write l ws) (last_write-none l ws) h

entry_else_lem :
    (inc : ℕ) (o : Option MemoryValue) (e : Option MemoryEntry)
    → (o ≡ none → e ≡ none)
    → entry_else inc o e ≡ entry_of inc o
unfolding entry_else
entry_else_lem inc none e h = h refl
entry_else_lem inc (some x) e h = refl

-- A location that the transaction writes to has its last write there, whatever was there before.
pub record_sets-written :
    (m : MvMemory) (v : TxVersion) (rs : ReadSet) (ws : WriteSet) (l : ℕ) (x : MemoryValue)
    → last_write l ws ≡ some x
    → tree_at (record_sets m v rs ws).0.data_of l v.tx_idx ≡ some (written v.tx_incarnation x)
unfolding record_sets entry_else
record_sets-written m v rs ws l x h =
    let old = (m.last_locations v.tx_idx).write in
    let (d, kept) = remove_old (length old) v.tx_idx ws m.data_of [] old in
    register_entries v ws d kept false l
    ∙ ap (λ o. entry_else v.tx_incarnation o (tree_at d l v.tx_idx)) h

-- Recording an execution leaves, at every location, the transaction's last write there with its
-- incarnation as its entry, and no entry where it does not write; it notes exactly the locations
-- written to; and it returns whether one of these was not among the last writes before. Before,
-- every location where the transaction had an entry was among its last writes.
pub record_sets_lem :
    (m : MvMemory) (v : TxVersion) (rs : ReadSet) (ws : WriteSet)
    → Covered m.data_of v.tx_idx (m.last_locations v.tx_idx).write
    → ((l : ℕ)
        → tree_at (record_sets m v rs ws).0.data_of l v.tx_idx
          ≡ entry_of v.tx_incarnation (last_write l ws))
      × ((l : ℕ) → has l ((record_sets m v rs ws).0.last_locations v.tx_idx).write ≡ writes_to l ws)
      × (((record_sets m v rs ws).1 ≡ true) ↔ Fresh (m.last_locations v.tx_idx).write ws)
unfolding record_sets
record_sets_lem m v rs ws c =
    let old = (m.last_locations v.tx_idx).write in
    let i = v.tx_idx in
    let d = (remove_old (length old) i ws m.data_of [] old).0 in
    let kept = (remove_old (length old) i ws m.data_of [] old).1 in
    let kept_has : (l : ℕ) → has l kept ≡ (has l old && writes_to l ws) =
      λ l. has-remove_old (length old) i ws m.data_of [] old l refl in
    let kept-Covered : Covered d i kept =
      remove_old-Covered (length old) i ws m.data_of [] old refl c in
    let flag = register_flag v ws d kept false in
    (
      λ l.
          register_entries v ws d kept false l
          ∙ entry_else_lem v.tx_incarnation (last_write l ws) (tree_at d l i)
              (λ n. kept-Covered l (kept_has l ∙ and_false (has l old) _ (last_write-none l ws n))),
      λ l.
          ap (λ r. has l r.write) (update_self m.last_locations i _)
          ∙ (has-register v ws d kept false l
              ∙ kept_or (has l old) (writes_to l ws) _ (kept_has l)),
      (
        λ h. elim (flag.0 h) [
          | inl e ↦ absurd cc
          | inr (l, w, n) ↦ (l, w, was_fresh (has l old) (writes_to l ws) _ (kept_has l) w n)
        ],
        λ (l, w, n). flag.1 (inr (l, w, kept_has l ∙ false_and (has l old) _ n)),
      ),
    )
