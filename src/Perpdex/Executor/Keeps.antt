-- ===== src/Perpdex/Executor/Keeps.antt =====
-- Rules for what every step of the executor keeps of its buffer.
use parallel_execution.Common.{◌≡◌, refl, Bool, true, false, if◌then◌else◌, if_intro}
use parallel_execution.Perpdex.Executor.Base.{
  Buffer, Result, ok, err, Exec, ◌>>=◌, ◌>>◌, continue_with, lift, done, guard, ExecutionError,
}

-- Whatever the outcome, the buffer after the step has the property if the one before had it.
pub record Keeps {A : Type 0} (P : Buffer → Type 0) (m : Exec A) : Type 0 where
  pub run : (b : Buffer) → P b → P (m b).1

continue-Keeps :
    {A B : Type 0} (P : Buffer → Type 0) (r : Result A × Buffer) (f : A → Exec B)
    → P r.1
    → ((a : A) → r.0 ≡ ok a → Keeps P (f a))
    → P (continue_with r f).1
continue-Keeps P (ok a, b) f h k = (k a refl).run b h
continue-Keeps P (err e, b) f h k = h

module _ {P : Buffer → Type 0} where
  pub bind-Keeps :
      {A B : Type 0} {m : Exec A} {f : A → Exec B}
      → Keeps P m
      → ((a : A) → Keeps P (f a))
      → Keeps P (m >>= f)
  unfolding ◌>>=◌
  bind-Keeps {m = m} {f = f} h k = record {
    run = λ b p. continue-Keeps P (m b) f (h.run b p) (λ a e. k a);
  }

  pub then-Keeps :
      {B : Type 0} {m : Exec (Unit {0})} {k : Exec B} → Keeps P m → Keeps P k → Keeps P (m >> k)
  unfolding ◌>>◌
  then-Keeps h k = bind-Keeps h (λ _. k)

  -- A read: what follows may use the value that was read.
  pub lift-Keeps :
      {V B : Type 0} {read : Result V} {use_it : V → Exec B}
      → ((v : V) → read ≡ ok v → Keeps P (use_it v))
      → Keeps P (lift read >>= use_it)
  unfolding lift ◌>>=◌
  lift-Keeps {read = read} {use_it = use_it} k = record {
    run = λ b p. continue-Keeps P (read, b) use_it p k;
  }

  pub guard-Keeps :
      {B : Type 0} (t : Bool) (e : ExecutionError) {f : Exec B}
      → (t ≡ true → Keeps P f)
      → Keeps P (guard t e >> f)
  unfolding ◌>>=◌ ◌>>◌ guard
  guard-Keeps true e k = record { run = λ b p. (k refl).run b p }
  guard-Keeps false e k = record { run = λ b p. p }

  pub done-Keeps : {A : Type 0} (a : A) → Keeps P (done a)
  unfolding done
  done-Keeps a = record { run = λ b p. p }

  pub fail-Keeps : {A : Type 0} (r : Result A) → Keeps P (lift r)
  unfolding lift
  fail-Keeps r = record { run = λ b p. p }

  pub if-Keeps :
      {A : Type 0} (t : Bool) {m k : Exec A}
      → (t ≡ true → Keeps P m)
      → (t ≡ false → Keeps P k)
      → Keeps P (if t then m else k)
  if-Keeps t h k = if_intro (Keeps P) t h k
