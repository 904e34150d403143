-- ===== src/Word/Endian.antt =====
-- `to_le_bytes` and `from_le_bytes` of the unsigned integers, for a width of any number of bytes.
use tux_io_encoding.Prelude.{
  take, drop, [], ◌++◌, ℕ, zero, suc, ◌+◌, ◌*◌, ◌/◌, ◌%◌, ◌^◌, ◌<◌, ◌≡◌, refl, ap, [], ◌∷◌, arith,
  length,
}
use native.Mathlib.Nat.{pow-suc}
use tux_io_encoding.Io.{Bytes, AreBytes}

unfoldable pub to_le_bytes : ℕ → ℕ → Bytes
to_le_bytes zero v = []
to_le_bytes (suc k) v = (v % 256) ∷ to_le_bytes k (v / 256)

unfoldable pub from_le_bytes : Bytes → ℕ
from_le_bytes [] = 0
from_le_bytes (b ∷ bs) = b + 256 * from_le_bytes bs

pub length-to_le_bytes : (k v : ℕ) → length (to_le_bytes k v) ≡ k
unfolding to_le_bytes
length-to_le_bytes zero v = refl
length-to_le_bytes (suc k) v = ap suc (length-to_le_bytes k (v / 256))

pub AreBytes-to_le_bytes : (k v : ℕ) → AreBytes (to_le_bytes k v)
unfolding to_le_bytes
AreBytes-to_le_bytes zero v = tt
AreBytes-to_le_bytes (suc k) v = (omega arith, AreBytes-to_le_bytes k (v / 256))

pub from-to_le_bytes : (k v : ℕ) → v < 256 ^ k → from_le_bytes (to_le_bytes k v) ≡ v
unfolding to_le_bytes from_le_bytes
from-to_le_bytes zero v h = omega arith
from-to_le_bytes (suc k) v h = omega (arith, from-to_le_bytes k (v / 256) (omega (arith, h)))

pub to-from_le_bytes : (bs : Bytes) → AreBytes bs → to_le_bytes (length bs) (from_le_bytes bs) ≡ bs
unfolding to_le_bytes from_le_bytes
to-from_le_bytes [] h = refl
to-from_le_bytes (b ∷ bs) h =
    let low : (b + 256 * from_le_bytes bs) % 256 ≡ b = omega arith in
    let high : (b + 256 * from_le_bytes bs) / 256 ≡ from_le_bytes bs = omega arith in
    rw (low, high, to-from_le_bytes bs h.1)

pub from_le_bytes_bound : (bs : Bytes) → AreBytes bs → from_le_bytes bs < 256 ^ length bs
unfolding from_le_bytes
from_le_bytes_bound [] h = omega arith
from_le_bytes_bound (b ∷ bs) h = omega (arith, from_le_bytes_bound bs h.1, pow-suc 256 (length bs))

-- A two-byte prefix, taken off again.
pub take-to_le_bytes :
    (n : ℕ) (rest : Bytes) → take 2 (to_le_bytes 2 n ++ rest) ≡ to_le_bytes 2 n ++ []
unfolding to_le_bytes
take-to_le_bytes n rest = refl

pub drop-to_le_bytes : (n : ℕ) (rest : Bytes) → drop 2 (to_le_bytes 2 n ++ rest) ≡ rest
unfolding to_le_bytes
drop-to_le_bytes n rest = refl

pub length-two_bytes : (n : ℕ) (rest : Bytes) → length (to_le_bytes 2 n ++ rest) ≡ length rest + 2
unfolding to_le_bytes
length-two_bytes n rest = omega arith
