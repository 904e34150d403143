-- ===== src/Word/Signed.antt =====
-- Signed integers over the native numbers, and their bit patterns.
use tux_io_encoding.Prelude.{ℕ, ◌+◌, ◌-◌, ◌<◌, ◌≡◌, arith, ltb, if◌then◌else◌}

-- `negsuc n` is -(n + 1).
pub data ℤ : Type 0 where
  pos : ℕ → ℤ
  negsuc : ℕ → ℤ

-- The values of a signed integer of `w` bits whose half range is `half`, 2 ^ (w - 1).
abbrev pub IsSigned : ℕ → ℤ → Type 0
IsSigned half (pos n) = n < half
IsSigned half (negsuc n) = n < half

-- Two's complement, over a half range.
unfoldable pub to_bits : ℕ → ℤ → ℕ
to_bits half (pos n) = n
to_bits half (negsuc n) = half + half - 1 - n

unfoldable pub from_bits : ℕ → ℕ → ℤ
from_bits half b = if ltb b half then pos b else negsuc (half + half - 1 - b)

pub from-to_bits : (half : ℕ) (z : ℤ) → IsSigned half z → from_bits half (to_bits half z) ≡ z
unfolding to_bits from_bits
from-to_bits half (pos n) h = ground arith
from-to_bits half (negsuc n) h = ground arith

pub to_bits_bound : (half : ℕ) (z : ℤ) → IsSigned half z → to_bits half z < half + half
unfolding to_bits
to_bits_bound half (pos n) h = omega arith
to_bits_bound half (negsuc n) h = omega arith
