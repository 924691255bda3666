-- ===== src/Common/Int.antt =====
-- Signed integers, and the 64-bit and 16-bit patterns that stand for them.
use Prim.Native.Nat.{ℕ, ◌+◌, ◌-◌, ◌%◌, ◌^◌, ◌<◌}
use mathlib.Core.Path.{◌≡◌}
use mathlib.Core.Bool.{Bool, true, false}
use native.Mathlib.Omega.{arith}
use rtdb_common.Common.Tests.{ltb, ◌==◌, if◌then◌else◌}

-- `negsuc n` is -(n + 1).
pub data ℤ : Type 0 where
  pos : ℕ → ℤ
  negsuc : ℕ → ℤ

abbrev pub ltz : ℤ → ℤ → Bool
ltz (pos a) (pos b) = ltb a b
ltz (pos a) (negsuc b) = false
ltz (negsuc a) (pos b) = true
ltz (negsuc a) (negsuc b) = ltb b a

abbrev pub eqz : ℤ → ℤ → Bool
eqz (pos a) (pos b) = a == b
eqz (pos a) (negsuc b) = false
eqz (negsuc a) (pos b) = false
eqz (negsuc a) (negsuc b) = a == b

-- Conversion of a signed number to the unsigned type of `m` values, as a C++ cast makes it.
abbrev pub to_unsigned : ℕ → ℤ → ℕ
to_unsigned m (pos n) = n % m
to_unsigned m (negsuc n) = m - 1 - n % m

-- The signed number of a pattern below `m + m`.
abbrev pub to_signed : ℕ → ℕ → ℤ
to_signed m v = if ltb v m then pos v else negsuc (m + m - 1 - v)

-- The values of a signed type of `m + m` values.
abbrev pub InSigned : ℕ → ℤ → Type 0
InSigned m (pos n) = n < m
InSigned m (negsuc n) = n < m

pub to_signed-to_unsigned_64 :
    (v : ℤ) → InSigned (2 ^ 63) v → to_signed (2 ^ 63) (to_unsigned (2 ^ 64) v) ≡ v
to_signed-to_unsigned_64 (pos n) h = ground arith
to_signed-to_unsigned_64 (negsuc n) h = ground arith

pub to_signed-to_unsigned_16 :
    (v : ℤ) → InSigned (2 ^ 15) v → to_signed (2 ^ 15) (to_unsigned (2 ^ 16) v) ≡ v
to_signed-to_unsigned_16 (pos n) h = ground arith
to_signed-to_unsigned_16 (negsuc n) h = ground arith

pub to_unsigned-lt_64 : (v : ℤ) → to_unsigned (2 ^ 64) v < 2 ^ 64
to_unsigned-lt_64 (pos n) = omega arith
to_unsigned-lt_64 (negsuc n) = omega arith

pub to_unsigned-lt_16 : (v : ℤ) → to_unsigned (2 ^ 16) v < 2 ^ 16
to_unsigned-lt_16 (pos n) = omega arith
to_unsigned-lt_16 (negsuc n) = omega arith
