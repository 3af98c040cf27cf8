-- ===== src/Prelude/Int.antt =====
-- Signed integers over the native numbers, for the signed values that the program stores.
use Prim.Native.Nat.{ℕ, ◌-◌, ◌%◌, ◌<◌}
use native.Mathlib.Omega.{arith}

-- `negsuc n` is -(n + 1).
pub data ℤ : Type 0 where
  pos : ℕ → ℤ
  negsuc : ℕ → ℤ

-- `z & 0xFF` of a Python int: two's complement.
unfoldable pub low_byte : ℤ → ℕ
low_byte (pos n) = n % 256
low_byte (negsuc n) = 255 - n % 256

pub low_byte-lt : (z : ℤ) → low_byte z < 256
unfolding low_byte
low_byte-lt (pos n) = omega arith
low_byte-lt (negsuc n) = omega arith
