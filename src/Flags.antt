-- ===== src/Flags.antt =====
-- What `contains` says of the constants of `FinishExecFlags` (crates/pevm/src/lib.rs).
use Prim.Native.Nat.{bit_and, bit_and-bitwise, digits, min}
use parallel_execution.Common.{ℕ, zero, suc, ◌/◌, ◌≡◌, refl, ◌∙◌, true, arith, ◌==◌, ==_iff}
use parallel_execution.Types.{Bitflags, need_validation}

digits-zero : (fuel a : ℕ) → digits (λ b. zero) min fuel a 0 ≡ 0
digits-zero zero a = refl
digits-zero (suc fuel) zero = refl
digits-zero (suc fuel) (suc a) = omega (arith, digits-zero fuel (suc a / 2))

bit_and-zero : (a : ℕ) → bit_and a 0 ≡ 0
bit_and-zero a = bit_and-bitwise a 0 ∙ digits-zero a a

-- `NeedValidation` has no bit, so every set of flags contains it.
pub contains-need_validation :
    (bits : Bitflags) (flags : ℕ) → bits.contains flags need_validation ≡ true
contains-need_validation bits flags =
    (bits.contains_iff flags need_validation).1 (bit_and-zero flags)

-- The crate's operation, as bit operations.
abbrev pub bitwise : Bitflags
bitwise = record {
  contains = λ flags other. bit_and flags other == other;
  contains_iff = λ flags other. ==_iff (bit_and flags other) other;
}
