-- ===== src/Perpdex/Executor/Yields.antt =====
-- Rules for the result and the buffer that a step of the executor leaves.
use parallel_execution.Common.{◌≡◌, refl, Bool, true, false}
use parallel_execution.Perpdex.Executor.Base.{
  Buffer, Result, ok, err, Exec, ◌>>=◌, ◌>>◌, continue_with, lift, done, guard, ExecutionError,
}
use parallel_execution.Perpdex.Executor.Keeps.{Keeps}

-- What holds of a result and the buffer with it, if it is no error.
abbrev pub OnOk : {A : Type 0} → (A → Buffer → Type 0) → Result A × Buffer → Type 0
OnOk Q (ok a, b) = Q a b
OnOk Q (err e, b) = Unit {0}

continue-OnOk :
    {A B : Type 0} (Q : A → Buffer → Type 0) (R : B → Buffer → Type 0) (r : Result A × Buffer)
    (f : A → Exec B)
    → OnOk Q r
    → ((a : A) (c : Buffer) → Q a c → OnOk R (f a c))
    → OnOk R (continue_with r f)
continue-OnOk Q R (ok a, c) f q h = h a c q
continue-OnOk Q R (err e, c) f q h = tt

weaken_ok :
    {A : Type 0} (Q R : A → Buffer → Type 0) (z : Result A × Buffer)
    → OnOk Q z
    → ((a : A) (c : Buffer) → Q a c → R a c)
    → OnOk R z
weaken_ok Q R (ok a, c) h f = f a c h
weaken_ok Q R (err e, c) h f = tt

kept_ok : (P : Buffer → Type 0) (r : Result (Unit {0}) × Buffer) → P r.1 → OnOk (λ _ c. P c) r
kept_ok P (ok a, c) p = p
kept_ok P (err e, c) p = tt

-- The step, from the buffer `b`.
pub record Yields {A : Type 0} (R : A → Buffer → Type 0) (m : Exec A) (b : Buffer) : Type 0 where
  pub run : OnOk R (m b)

module _ {B : Type 0} {R : B → Buffer → Type 0} {b : Buffer} where
  pub bind-Yields :
      {A : Type 0} (Q : A → Buffer → Type 0) {m : Exec A} {f : A → Exec B}
      → Yields Q m b
      → ((a : A) (c : Buffer) → Q a c → Yields R (f a) c)
      → Yields R (m >>= f) b
  unfolding ◌>>=◌
  bind-Yields Q {m = m} {f = f} q h = record {
    run = continue-OnOk Q R (m b) f q.run (λ a c e. (h a c e).run);
  }

  pub lift-Yields :
      {A : Type 0} {r : Result A} {f : A → Exec B}
      → ((a : A) → r ≡ ok a → Yields R (f a) b)
      → Yields R (lift r >>= f) b
  unfolding ◌>>=◌ lift
  lift-Yields {r = ok a} h = record { run = (h a refl).run }
  lift-Yields {r = err e} h = record { run = tt }

  pub guard-Yields :
      (t : Bool) (e : ExecutionError) {k : Exec B}
      → (t ≡ true → Yields R k b)
      → Yields R (guard t e >> k) b
  unfolding ◌>>=◌ ◌>>◌ guard
  guard-Yields true e h = record { run = (h refl).run }
  guard-Yields false e h = record { run = tt }

  -- A step that keeps a property of the buffer.
  pub kept-Yields :
      (P : Buffer → Type 0) {m : Exec (Unit {0})} {k : Exec B}
      → Keeps P m
      → P b
      → ((c : Buffer) → P c → Yields R k c)
      → Yields R (m >> k) b
  unfolding ◌>>=◌ ◌>>◌
  kept-Yields P {m = m} {k = k} h p g = record {
    run =
        continue-OnOk (λ _ c. P c) R (m b) (λ _. k) (kept_ok P (m b) (h.run b p))
          (λ _ c q. (g c q).run);
  }

  pub done-Yields : (a : B) → R a b → Yields R (done a) b
  unfolding done
  done-Yields a h = record { run = h }

pub weaken-Yields :
    {A : Type 0} (Q R : A → Buffer → Type 0) {m : Exec A} {b : Buffer}
    → Yields Q m b
    → ((a : A) (c : Buffer) → Q a c → R a c)
    → Yields R m b
weaken-Yields Q R {m = m} {b = b} h f = record { run = weaken_ok Q R (m b) h.run f }
