-- ===== src/Word/Usize.antt =====
-- `usize` of 64 bits. An operation that leaves the range panics.
use tux_io_encoding.Prelude.{
  ℕ, ◌+◌, ◌-◌, ◌*◌, ◌^◌, ◌≤◌, ◌<◌, ◌≡◌, arith, ltb, if◌then◌else◌, lt→ltb, le→ltb,
}
use tux_io_encoding.Error.{Result, ok, panicked}

abbrev pub usize_limit : ℕ
usize_limit = 2 ^ 64

module _ {ℓ} {E : Type ℓ} where
  unfoldable pub add_usize : ℕ → ℕ → Result E ℕ
  add_usize a b = if ltb (a + b) usize_limit then ok (a + b) else panicked

  unfoldable pub sub_usize : ℕ → ℕ → Result E ℕ
  sub_usize a b = if ltb a b then panicked else ok (a - b)

  unfoldable pub mul_usize : ℕ → ℕ → Result E ℕ
  mul_usize a b = if ltb (a * b) usize_limit then ok (a * b) else panicked

module _ {ℓ} {E : Type ℓ} where
  pub add_usize_fits : (a b : ℕ) → a + b < usize_limit → add_usize {E = E} a b ≡ ok (a + b)
  unfolding add_usize
  add_usize_fits a b h = rw (lt→ltb (a + b) usize_limit h)

  pub add_usize-ok : (a b : ℕ) {c : ℕ} → add_usize {E = E} a b ≡ ok c → c ≡ a + b
  unfolding add_usize
  add_usize-ok a b h = ground arith

  pub sub_usize_fits : (a b : ℕ) → b ≤ a → sub_usize {E = E} a b ≡ ok (a - b)
  unfolding sub_usize
  sub_usize_fits a b h = rw (le→ltb a b h)

  pub mul_usize_fits : (a b : ℕ) → a * b < usize_limit → mul_usize {E = E} a b ≡ ok (a * b)
  unfolding mul_usize
  mul_usize_fits a b h = rw (lt→ltb (a * b) usize_limit h)

  pub mul_usize-ok : (a b : ℕ) {c : ℕ} → mul_usize {E = E} a b ≡ ok c → c ≡ a * b
  unfolding mul_usize
  mul_usize-ok a b h = ground arith
