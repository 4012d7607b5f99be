-- ===== src/Vm/ReadSet.antt =====
-- The read set of a transaction: what it says stays true of the memory.
use parallel_execution.Common.{
  ℕ, ◌≡◌, refl, Option, none, some, List, [], ◌∷◌, ◌==◌, ==_iff, inl, inr, Bool-cases,
}
use parallel_execution.Types.{ReadOrigin, mv_memory, storage}
use parallel_execution.MvMemory.{MvMemory, Tree, ReadSet, tree_at}
use parallel_execution.MvMemory.Origins.{Rereads}
use parallel_execution.MvMemory.Validation.{IsChain, AllChains, AllReread}
use parallel_execution.Vm.Types.{VmDb, Read}
use parallel_execution.Vm.Reads.{
  origins_at, set_origins, last, origin_eq, push_after, push_origin, noting, note_origin,
}
use parallel_execution.Vm.Trace.{IsTail}
use parallel_execution.Vm.Rules.{OnOk}

-- The origins noted for a location are empty, or a chain that reading again finds.
abbrev Sound : (ℕ → Option Tree) → ℕ → ℕ → List ReadOrigin → Type 0
Sound d i l os = IsTail os × Rereads (tree_at d l) i os

abbrev IsChain-tail : (os : List ReadOrigin) → IsChain os → IsTail os
IsChain-tail [] c = absurd c
IsChain-tail (o ∷ os) c = c

module _ (d : ℕ → Option Tree) (i : ℕ) where
  pub origins_at-Sound :
      (l : ℕ) (rs : ReadSet) → AllChains rs → AllReread d i rs → Sound d i l (origins_at l rs)
  origins_at-Sound l [] cs hs = (tt, tt)
  origins_at-Sound l ((k, os) ∷ rs) (c, cs) (h, hs) = elim (Bool-cases (k == l)) [
    | inl same ↦ let e : k ≡ l = (==_iff k l).0 same in rw same (IsChain-tail os c, rw (← e) h)
    | inr other ↦ rw other (origins_at-Sound l rs cs hs)
  ]

  pub set_origins-AllChains :
      (l : ℕ) (os : List ReadOrigin) (rs : ReadSet)
      → IsChain os
      → AllChains rs
      → AllChains (set_origins l os rs)
  unfolding set_origins
  set_origins-AllChains l os [] c cs = (c, tt)
  set_origins-AllChains l os ((k, ps) ∷ rs) c (c', cs) = elim (Bool-cases (k == l)) [
    | inl same ↦ rw same (c, cs)
    | inr other ↦ rw other (c', set_origins-AllChains l os rs c cs)
  ]

  pub set_origins-AllReread :
      (l : ℕ) (os : List ReadOrigin) (rs : ReadSet)
      → Rereads (tree_at d l) i os
      → AllReread d i rs
      → AllReread d i (set_origins l os rs)
  unfolding set_origins
  set_origins-AllReread l os [] h hs = (h, tt)
  set_origins-AllReread l os ((k, ps) ∷ rs) h (h', hs) = elim (Bool-cases (k == l)) [
    | inl same ↦ rw same (h, hs)
    | inr other ↦ rw other (h', set_origins-AllReread l os rs h hs)
  ]

last-none : (os : List ReadOrigin) → last os ≡ none → os ≡ []
last-none [] h = refl
last-none (o ∷ []) h = absurd cc
last-none (o ∷ p ∷ os) h = absurd (let e = last-none (p ∷ os) h in cc)

last-IsChain : (os : List ReadOrigin) (p : ReadOrigin) → last os ≡ some p → IsTail os → IsChain os
last-IsChain [] p h c = absurd cc
last-IsChain (o ∷ os) p h c = c

-- Every noted origin is one that reading again finds.
abbrev pub Tracked : MvMemory → ℕ → VmDb → Type 0
Tracked m i db = (db.tx_idx ≡ i) × AllChains db.read_set × AllReread m.data_of i db.read_set

one-IsChain : (o : ReadOrigin) → IsChain (o ∷ [])
one-IsChain storage = tt
one-IsChain (mv_memory v) = tt

module _ (m : MvMemory) (i : ℕ) where
  pub Tracked-set :
      (db : VmDb) (l : ℕ) (os : List ReadOrigin)
      → Tracked m i db
      → IsChain os
      → Rereads (tree_at m.data_of l) i os
      → Tracked m i (record db { read_set = set_origins l os db.read_set })
  Tracked-set db l os (e, cs, hs) c h = (
    e,
    set_origins-AllChains m.data_of i l os db.read_set c cs,
    set_origins-AllReread m.data_of i l os db.read_set h hs,
  )

module _ {A : Type 0} (m : MvMemory) (i : ℕ) where
  pushed :
      (P : A → VmDb → Type 0) (db : VmDb) (l : ℕ) (o : ReadOrigin) (k : VmDb → Read A)
      (p : Option ReadOrigin) (os : List ReadOrigin)
      → last os ≡ p
      → Sound m.data_of i l os
      → Tracked m i db
      → Rereads (tree_at m.data_of l) i (o ∷ [])
      → IsChain (o ∷ [])
      → ((db' : VmDb) → Tracked m i db' → OnOk P (k db'))
      → OnOk P (noting db l (push_after p os o) k)
  pushed P db l o k none os q s t h c next =
      rw (last-none os q) (next _ (Tracked-set m i db l (o ∷ []) t c h))
  pushed P db l o k (some p) os q s t h c next = elim (Bool-cases (origin_eq p o)) [
    | inl b ↦ rw b (next _ (Tracked-set m i db l os t (last-IsChain os p q s.0) s.1))
    | inr b ↦ rw b tt
  ]

  -- Noting an origin that reading again finds keeps the read set true.
  pub note_origin-Tracked :
      (P : A → VmDb → Type 0) (db : VmDb) (l : ℕ) (o : ReadOrigin) (k : VmDb → Read A)
      → Tracked m i db
      → Rereads (tree_at m.data_of l) i (o ∷ [])
      → ((db' : VmDb) → Tracked m i db' → OnOk P (k db'))
      → OnOk P (note_origin db l o k)
  unfolding note_origin push_origin
  note_origin-Tracked P db l o k t h next =
      let (e, cs, hs) = t in
      let os = origins_at l db.read_set in
      pushed P db l o k (last os) os refl (origins_at-Sound m.data_of i l db.read_set cs hs) t h
        (one-IsChain o) next
