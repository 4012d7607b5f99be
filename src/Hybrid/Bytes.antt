-- ===== src/Hybrid/Bytes.antt =====
-- Big-endian numbers as lists of bytes: `to_be_bytes` and `from_be_bytes` of `u64`, and those of
-- `U256`, a type of a third-party crate, as a parameter.
use parallel_execution.Common.{
  ℕ, zero, suc, ◌+◌, ◌*◌, ◌/◌, ◌%◌, ◌^◌, ◌<◌, ◌≡◌, refl, List, [], ◌∷◌, ◌++◌, arith, length,
  length-append,
}
use native.Mathlib.Nat.{pow-suc}

-- The last `w` base-256 digits, the most significant first.
unfoldable pub to_be_bytes : ℕ → ℕ → List ℕ
to_be_bytes zero n = []
to_be_bytes (suc w) n = to_be_bytes w (n / 256) ++ (n % 256) ∷ []

from_be_from : ℕ → List ℕ → ℕ
from_be_from acc [] = acc
from_be_from acc (b ∷ bs) = from_be_from (acc * 256 + b) bs

unfoldable pub from_be_bytes : List ℕ → ℕ
unfolding from_be_from
from_be_bytes = from_be_from 0

from_be_from-snoc :
    (acc : ℕ) (bs : List ℕ) (b : ℕ)
    → from_be_from acc (bs ++ b ∷ []) ≡ from_be_from acc bs * 256 + b
unfolding from_be_from
from_be_from-snoc acc [] b = refl
from_be_from-snoc acc (c ∷ bs) b = from_be_from-snoc (acc * 256 + c) bs b

pub length-to_be_bytes : (w n : ℕ) → length (to_be_bytes w n) ≡ w
unfolding to_be_bytes
length-to_be_bytes zero n = refl
length-to_be_bytes (suc w) n = omega (
  arith,
  length-append (to_be_bytes w (n / 256)) ((n % 256) ∷ []),
  length-to_be_bytes w (n / 256),
)

pub from-to_be_bytes : (w n : ℕ) → n < 256 ^ w → from_be_bytes (to_be_bytes w n) ≡ n
unfolding to_be_bytes from_be_bytes
from-to_be_bytes zero n h = omega arith
from-to_be_bytes (suc w) n h = omega (
  arith,
  from_be_from-snoc 0 (to_be_bytes w (n / 256)) (n % 256),
  from-to_be_bytes w (n / 256) (omega (arith, pow-suc 256 w)),
)

-- What `U256::to_be_bytes::<32>` and `U256::from_be_slice` are documented to do.
pub record U256Bytes : Type 0 where
  pub to_bytes : ℕ → List ℕ
  pub from_slice : List ℕ → ℕ
  pub length-to_bytes : (n : ℕ) → length (to_bytes n) ≡ 32
  pub from_slice-to_bytes : (n : ℕ) → n < 2 ^ 256 → from_slice (to_bytes n) ≡ n
