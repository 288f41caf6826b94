-- ===== src/Prelude/Integers.antt =====
-- The integers over the native numbers, and the clamping of an `int`.
use Prim.Native.Nat.{ℕ}
use antsdr_dfone.Prelude.Tests.{ltb, if◌then◌else◌}

-- `negsuc n` is -(n + 1).
pub data ℤ : Type 0 where
  pos negsuc : ℕ → ℤ

-- `std::max(low, value)` for a bound that is not negative.
abbrev pub at_least : ℕ → ℤ → ℕ
at_least low (pos n) = if ltb n low then low else n
at_least low (negsuc n) = low

-- `std::max(low, std::min(high, value))`.
abbrev pub clamp : ℕ → ℕ → ℤ → ℕ
clamp low high (pos n) = if ltb high n then high else at_least low (pos n)
clamp low high (negsuc n) = low
