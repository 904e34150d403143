-- ===== src/Fs/Layout/Align.antt =====
-- `align_up` rounds up to the least multiple of the alignment.
use tux_io_encoding.Prelude.{
  ℕ, ◌+◌, ◌*◌, ◌/◌, ◌%◌, ◌≤◌, ◌<◌, max, ◌≡◌, inl, inr, arith, ◌==◌, ==_iff, Bool-cases,
}
use tux_io_encoding.Error.{ok}
use tux_io_encoding.Word.Usize.{usize_limit, mul_usize-ok, mul_usize_fits}
use tux_io_encoding.Fs.Layout.{div_ceil, align_up}
use native.Mathlib.Nat.{div-add-mod', mod-lt, lt_of_mul-lt-mul_right, mul-le-mul_right}

module _ (v a : ℕ) (positive : 0 < a) where
  div_ceil_bounds : (v ≤ div_ceil v a * a) × (div_ceil v a * a < v + a)
  unfolding div_ceil
  div_ceil_bounds =
      let split = div-add-mod' v a in
      let next : (v / a + 1) * a ≡ v / a * a + a = omega arith in
      let small = mod-lt v positive in
      elim (Bool-cases (v % a == 0)) [
        | inl whole ↦ rw whole (let r = (==_iff (v % a) 0).0 whole in omega (arith, split, r))
        | inr part ↦
            rw part (let r : 0 < v % a = ground arith in omega (arith, split, next, small, r))
      ]

  -- No multiple of the alignment lies between.
  div_ceil_least : (k : ℕ) → v ≤ k * a → div_ceil v a * a ≤ k * a
  div_ceil_least k h =
      let next : (k + 1) * a ≡ k * a + a = omega arith in
      let below : div_ceil v a < k + 1 =
        lt_of_mul-lt-mul_right a (omega (arith, div_ceil_bounds.1, next)) in
      mul-le-mul_right a (omega (arith, below))

-- The multiple that `align_up` computes, and its alignment: "values below 1 are treated as 1".
abbrev pub step : ℕ → ℕ
step alignment = max alignment 1

unfoldable pub rounded : ℕ → ℕ → ℕ
rounded v alignment = div_ceil v (step alignment) * step alignment

pub rounded_bounds :
    (v alignment : ℕ) → (v ≤ rounded v alignment) × (rounded v alignment < v + step alignment)
unfolding rounded
rounded_bounds v alignment = div_ceil_bounds v (step alignment) (omega arith)

pub rounded_mono : (v w alignment : ℕ) → v ≤ w → rounded v alignment ≤ rounded w alignment
unfolding rounded
rounded_mono v w alignment h =
    div_ceil_least v (step alignment) (omega arith) (div_ceil w (step alignment))
      (omega (arith, (div_ceil_bounds w (step alignment) (omega arith)).0))

pub align_up-ok : (v alignment : ℕ) {r : ℕ} → align_up v alignment ≡ ok r → r ≡ rounded v alignment
unfolding align_up rounded
align_up-ok v alignment h = mul_usize-ok (div_ceil v (step alignment)) (step alignment) h

pub align_up_fits :
    (v alignment : ℕ)
    → v + step alignment ≤ usize_limit
    → align_up v alignment ≡ ok (rounded v alignment)
unfolding align_up rounded
align_up_fits v alignment h =
    mul_usize_fits (div_ceil v (step alignment)) (step alignment)
      (omega (arith, (div_ceil_bounds v (step alignment) (omega arith)).1))

-- Where the sum stays in the range of `usize`, `align_up` returns, and what it returns is a multiple of the alignment
-- (of 1 for an alignment of 0), at least the value, and no more than any other such multiple.
pub align_up_least :
    (v alignment other : ℕ)
    → v + max alignment 1 ≤ usize_limit
    → v ≤ other * max alignment 1
    → (k : ℕ) × (align_up v alignment ≡ ok (k * max alignment 1))
      × (v ≤ k * max alignment 1)
      × (k * max alignment 1 ≤ other * max alignment 1)
unfolding rounded
align_up_least v alignment other h above = (
  div_ceil v (step alignment),
  align_up_fits v alignment h,
  (div_ceil_bounds v (step alignment) (omega arith)).0,
  div_ceil_least v (step alignment) (omega arith) other above,
)

-- Callers raise an alignment of 0 to 1 before `align_up` does.
pub align_up-step : (v alignment : ℕ) → align_up v (max alignment 1) ≡ align_up v alignment
unfolding align_up
align_up-step v alignment =
    let same : max (max alignment 1) 1 ≡ max alignment 1 = omega arith in rw same
