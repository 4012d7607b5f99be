-- ===== src/Common/Int.antt =====
-- Signed integers over the native numbers, and the `i128` of Rust: arithmetic wraps modulo 2^128.
use Prim.Native.Nat.{ℕ, suc, ◌+◌, ◌-◌, ◌%◌, ◌^◌, ◌≤◌, ◌<◌}
use mathlib.Core.Path.{◌≡◌}
use mathlib.Core.Bool.{Bool, false}
use native.Mathlib.Omega.{arith}
use parallel_execution.Common.Tests.{ltb, leb, ◌==◌, if◌then◌else◌}

-- `negsuc n` is -(n + 1).
pub data ℤ : Type 0 where
  pos : ℕ → ℤ
  negsuc : ℕ → ℤ

abbrev pub pos_part : ℤ → ℕ
pos_part (pos n) = n
pos_part (negsuc n) = 0

abbrev pub neg_part : ℤ → ℕ
neg_part (pos n) = 0
neg_part (negsuc n) = suc n

abbrev pub sub_ℕ : ℕ → ℕ → ℤ
sub_ℕ a b = if leb b a then pos (a - b) else negsuc (b - a - 1)

infixl 65 ◌+ℤ◌
unfoldable pub ◌+ℤ◌ : ℤ → ℤ → ℤ
a +ℤ b = sub_ℕ (pos_part a + pos_part b) (neg_part a + neg_part b)

unfoldable pub neg_ℤ : ℤ → ℤ
neg_ℤ a = sub_ℕ (neg_part a) (pos_part a)

abbrev pub i128_half : ℕ
i128_half = 2 ^ 127

abbrev pub i128_mod : ℕ
i128_mod = 2 ^ 128

-- The integer that the low 128 bits stand for.
abbrev pub of_bits : ℕ → ℤ
of_bits b = if ltb b i128_half then pos b else negsuc (i128_mod - 1 - b)

unfoldable pub wrap_i128 : ℤ → ℤ
wrap_i128 (pos n) = of_bits (n % i128_mod)
wrap_i128 (negsuc n) = of_bits (i128_mod - 1 - n % i128_mod)

-- The values of an `i128`.
abbrev pub I128 : ℤ → Type 0
I128 a = (pos_part a < i128_half) × (neg_part a ≤ i128_half)

-- `unsigned_abs`, `abs` (which wraps at the least value), `signum`, `== 0`, `> 0`.
abbrev pub unsigned_abs : ℤ → ℕ
unsigned_abs a = pos_part a + neg_part a

abbrev pub abs_i128 : ℤ → ℤ
abs_i128 a = wrap_i128 (pos (unsigned_abs a))

abbrev pub signum : ℤ → ℤ
signum (pos n) = if n == 0 then pos 0 else pos 1
signum (negsuc n) = negsuc 0

abbrev pub is_zero : ℤ → Bool
is_zero (pos n) = n == 0
is_zero (negsuc n) = false

abbrev pub is_positive : ℤ → Bool
is_positive (pos n) = ltb 0 n
is_positive (negsuc n) = false

abbrev pub eq_ℤ : ℤ → ℤ → Bool
eq_ℤ (pos n) (pos m) = n == m
eq_ℤ (negsuc n) (negsuc m) = n == m
eq_ℤ (pos n) (negsuc m) = false
eq_ℤ (negsuc n) (pos m) = false

abbrev pub ltb_ℤ : ℤ → ℤ → Bool
ltb_ℤ a b = ltb (pos_part a + neg_part b) (pos_part b + neg_part a)

pub wrap_i128_lem : (a : ℤ) → I128 a → wrap_i128 a ≡ a
unfolding wrap_i128
wrap_i128_lem (pos n) h = ground arith
wrap_i128_lem (negsuc n) h = ground arith

-- What an addition that stays in range gives, in parts that `omega` reads.
pub +ℤ_parts :
    (a b : ℤ)
    → pos_part (a +ℤ b) + neg_part a + neg_part b ≡ neg_part (a +ℤ b) + pos_part a + pos_part b
unfolding ◌+ℤ◌
+ℤ_parts a b = ground arith
