-- ===== src/Finalize/Exact.antt =====
-- The value of an account after the transactions below one, and when no step of it saturates.
use parallel_execution.Common.{ℕ, zero, suc, ◌+◌, ◌<◌, ◌≤◌, ◌^◌, Option, none, some, arith}
use parallel_execution.MvMemory.{MemoryEntry, MemoryValue, written, estimate, Tree, AccountBasic}
use parallel_execution.Vm.Types.{Saturating, u64_mod}
use parallel_execution.Finalize.Entry.{apply_value}

module _ (u : Saturating) where
  abbrev pub value_of : Option MemoryEntry → AccountBasic → AccountBasic
  value_of none v = v
  value_of (some estimate) v = v
  value_of (some (written k x)) v = apply_value u x v

  -- The account after the entries below `bound`, from `base` on.
  abbrev pub value_at : Tree → AccountBasic → ℕ → AccountBasic
  value_at t base zero = base
  value_at t base (suc i) = value_of (t i) (value_at t base i)

-- A balance of 256 bits and a nonce of 64.
abbrev pub InRange : AccountBasic → Type 0
InRange v = (v.balance < 2 ^ 256) × (v.nonce < u64_mod)

-- The entry is an account's, and its update neither saturates nor wraps.
abbrev pub ExactEntry : Option MemoryEntry → AccountBasic → Type 0
ExactEntry none v = Unit {0}
ExactEntry (some estimate) v = ⊥
ExactEntry (some (written k (MemoryValue.basic x))) v = InRange x
ExactEntry (some (written k (MemoryValue.lazy_recipient x))) v = v.balance + x < 2 ^ 256
ExactEntry (some (written k (MemoryValue.lazy_sender x))) v =
    (x ≤ v.balance) × (v.nonce + 1 < u64_mod)
ExactEntry (some (written k (MemoryValue.code_hash h))) v = ⊥
ExactEntry (some (written k (MemoryValue.stored x))) v = ⊥
ExactEntry (some (written k MemoryValue.self_destructed)) v = ⊥

module _ (u : Saturating) where
  abbrev pub Exact : Tree → AccountBasic → ℕ → Type 0
  Exact t base zero = InRange base
  Exact t base (suc i) = Exact t base i × ExactEntry (t i) (value_at u t base i)

  value_of-InRange :
      (o : Option MemoryEntry) (v : AccountBasic)
      → InRange v
      → ExactEntry o v
      → InRange (value_of u o v)
  unfolding apply_value
  value_of-InRange none v r e = r
  value_of-InRange (some estimate) v r e = absurd e
  value_of-InRange (some (written k (MemoryValue.basic x))) v r e = e
  value_of-InRange (some (written k (MemoryValue.lazy_recipient x))) v r e =
      omega (arith, u.add_lem v.balance x)
  value_of-InRange (some (written k (MemoryValue.lazy_sender x))) v r e =
      omega (arith, u.sub_lem v.balance x)
  value_of-InRange (some (written k (MemoryValue.code_hash h))) v r e = absurd e
  value_of-InRange (some (written k (MemoryValue.stored x))) v r e = absurd e
  value_of-InRange (some (written k MemoryValue.self_destructed)) v r e = absurd e

  pub value_at-InRange :
      (t : Tree) (base : AccountBasic) (n : ℕ) → Exact t base n → InRange (value_at u t base n)
  value_at-InRange t base zero e = e
  value_at-InRange t base (suc i) (e, x) =
      value_of-InRange (t i) (value_at u t base i) (value_at-InRange t base i e) x
