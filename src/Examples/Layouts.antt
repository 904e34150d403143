-- ===== src/Examples/Layouts.antt =====
-- The layout theorems at the sizes of a small object.
use tux_io_encoding.Prelude.{ℕ, ◌+◌, ◌*◌, ◌^◌, ◌≤◌, ◌<◌, max, ◌≡◌, refl, ◌⊎◌, none, some, arith}
use tux_io_encoding.Error.{ok, err}
use tux_io_encoding.Fs.Layout.{packed}
use tux_io_encoding.Fs.Layout.{div_ceil}
use tux_io_encoding.Word.Usize.{add_usize, mul_usize}
use tux_io_encoding.Fs.Error.{section_offset_too_large}
use tux_io_encoding.Fs.Layout.{
  LayoutOptions, SectionLayout, default_layout, compute, repartition, align_up,
}
use tux_io_encoding.Fs.Layout.Align.{align_up_least, rounded}
use tux_io_encoding.Fs.Layout.Repartition.{repartition_fits, repartition_gap}
use tux_io_encoding.Fs.Layout.Compute.{
  InRange, compute_fits, compute_keeps, compute-repartition, compute_total,
}

abbrev first : SectionLayout
first = record { tags_start = 352; content_start = 640 }

-- The floor of an update of an object whose content starts at 640.
abbrev floored : LayoutOptions
floored = record default_layout { min_content_start = 640 }

default-InRange : InRange default_layout 40 10
default-InRange = record { sums = omega arith; floor_sum = omega arith; floor_fits = omega arith }

floored-InRange : InRange floored 200 4
floored-InRange = record { sums = omega arith; floor_sum = omega arith; floor_fits = omega arith }

align_up_least_example :
    (k : ℕ) × (align_up 33 32 ≡ ok (k * max 32 1))
    × (33 ≤ k * max 32 1)
    × (k * max 32 1 ≤ 2 * max 32 1)
align_up_least_example = align_up_least 33 32 2 (omega arith) (omega arith)

abbrev second : SectionLayout
second = record { tags_start = 256; content_start = 640 }

repartition_fits_example :
    (second.content_start ≡ 640) × (32 + 200 ≤ 256) × (256 + 4 ≤ 640) × (256 ≤ 65535)
unfolding repartition add_usize align_up mul_usize
repartition_fits_example = repartition_fits 640 200 4 32 (omega arith) second refl

repartition_gap_example : (repartition 70000 65503 4 32 ≡ ok none) × (32 + 65503 + 4 ≤ 70000)
unfolding rounded div_ceil
repartition_gap_example =
    repartition_gap 70000 65503 4 32 (omega arith) (omega arith) (omega arith) (omega arith)

compute_fits_example :
    (32 + 40 ≤ 352) × (352 + 10 ≤ 640) × (352 ≤ 65535) × (640 < 2 ^ 32) × (0 ≤ 640)
unfolding compute add_usize align_up mul_usize
compute_fits_example = compute_fits default_layout 40 10 default-InRange first refl

compute_keeps_example :
    (l : SectionLayout) × (compute floored 200 4 ≡ ok l) × (l.content_start ≡ 640)
unfolding rounded div_ceil
compute_keeps_example =
    compute_keeps floored 200 4 floored-InRange (omega arith) (omega arith) (omega arith)

compute-repartition_example :
    (l' : SectionLayout) × (repartition 640 40 10 32 ≡ ok (some l')) × (l'.content_start ≡ 640)
unfolding compute add_usize align_up mul_usize
compute-repartition_example = compute-repartition default_layout 40 10 default-InRange first refl

compute_total_example :
    ((l : SectionLayout) × (compute default_layout 40 10 ≡ ok l))
    ⊎ ((required : ℕ) × (limit : ℕ) × (compute default_layout 40 10
          ≡ err (section_offset_too_large required limit))
        × (limit < required))
compute_total_example = compute_total default_layout 40 10 default-InRange

-- The values that the tests of layout.rs expect.
compute_tests :
    (compute default_layout 40 10 ≡ ok (record { tags_start = 352; content_start = 640 }))
    × (compute packed 40 10 ≡ ok (record { tags_start = 72; content_start = 82 }))
    × (repartition 640 200 4 32 ≡ ok (some (record { tags_start = 256; content_start = 640 })))
    × (repartition 70 30 8 32 ≡ ok (some (record { tags_start = 62; content_start = 70 })))
    × (repartition 100 60 40 32 ≡ ok none)
    × (align_up 33 0 ≡ ok 33)
unfolding compute align_up add_usize mul_usize
compute_tests = (refl, refl, refl, refl, refl, refl)
