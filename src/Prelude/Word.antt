-- ===== src/Prelude/Word.antt =====
-- Machine integers. Counts that the API's schema bounds below by 0 are native numbers, and a
-- write or a conversion to `int32` keeps its wrap-around; a value read from a foreign object is
-- a signed integer.
use Prim.Native.Nat.{ℕ, ◌+◌, ◌%◌, ◌≤◌}
use mathlib.Core.Path.{◌≡◌}
use native.Mathlib.Omega.{arith}

abbrev pub max_int32 : ℕ
max_int32 = 2147483647

-- The bit pattern that a conversion to a 32-bit integer keeps.
unfoldable pub to_int32 : ℕ → ℕ
to_int32 n = n % 4294967296

-- Addition of two `int32` values.
unfoldable pub add_int32 : ℕ → ℕ → ℕ
add_int32 a b = (a + b) % 4294967296

pub to_int32_small : (n : ℕ) → n ≤ max_int32 → to_int32 n ≡ n
unfolding to_int32
to_int32_small n h = omega arith

pub add_int32_small : (a b : ℕ) → a + b ≤ max_int32 → add_int32 a b ≡ a + b
unfolding add_int32
add_int32_small a b h = omega arith

-- Signed integers; `negsuc n` is -(n + 1).
pub data ℤ : Type 0 where
  pos : ℕ → ℤ
  negsuc : ℕ → ℤ
