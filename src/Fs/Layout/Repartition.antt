-- ===== src/Fs/Layout/Repartition.antt =====
-- `LayoutOptions::repartition`: what it returns fits, and when it returns nothing.
use tux_io_encoding.Prelude.{
  ℕ, ◌+◌, ◌≤◌, ◌<◌, ◌≡◌, refl, ◌↔◌, none, some, arith, ltb, leb, if◌then◌else◌,
}
use tux_io_encoding.Error.{ok}
use tux_io_encoding.Word.Usize.{usize_limit, add_usize_fits}
use tux_io_encoding.Fs.Error.{ObjectFileError}
use tux_io_encoding.Fs.Layout.{SectionLayout, repartition}
use tux_io_encoding.Fs.Layout.Align.{step, rounded, rounded_bounds, align_up_fits, align_up-step}

-- The tag section's start: the end of the metadata rounded up, or that end itself where the tags would pass the content.
pub chosen_start : ℕ → ℕ → ℕ → ℕ → ℕ
chosen_start content_start m t alignment =
    if leb (rounded (32 + m) alignment + t) content_start
    then rounded (32 + m) alignment
    else 32 + m

-- The sums of `repartition` stay in the range of `usize`.
abbrev pub NoOverflow : ℕ → ℕ → ℕ → Type 0
NoOverflow m t alignment = 32 + m + t + step alignment ≤ usize_limit

-- The whole function, where no sum overflows.
pub repartition_lem :
    (content_start m t alignment : ℕ)
    → NoOverflow m t alignment
    → repartition content_start m t alignment ≡ (
        if ltb content_start (32 + m + t)
        then ok none
        else if ltb 65535 (chosen_start content_start m t alignment)
        then ok none
        else ok (
            some (record {
              tags_start = chosen_start content_start m t alignment;
              content_start = content_start;
            })))
unfolding repartition chosen_start
repartition_lem content_start m t alignment h =
    let bounds = rounded_bounds (32 + m) alignment in
    rw
      (
        add_usize_fits {E = ObjectFileError} 32 m (omega arith),
        add_usize_fits {E = ObjectFileError} (32 + m) t (omega arith),
        align_up-step (32 + m) alignment,
        align_up_fits (32 + m) alignment (omega arith),
        add_usize_fits {E = ObjectFileError} (rounded (32 + m) alignment) t (omega (arith, bounds)),
      )
      (ground arith)

module _ (content_start m t alignment : ℕ) (range : NoOverflow m t alignment) where
  -- Where no sum overflows: the sections of a layout that `repartition` returns fit in front of the content,
  -- which stays where it is, and the tag offset fits its `u16`.
  pub repartition_fits :
      (l : SectionLayout)
      → repartition content_start m t alignment ≡ ok (some l)
      → (l.content_start ≡ content_start)
        × (32 + m ≤ l.tags_start)
        × (l.tags_start + t ≤ content_start)
        × (l.tags_start ≤ 65535)
  unfolding chosen_start
  repartition_fits l h = ground (
    arith,
    rw (repartition_lem content_start m t alignment range) at h,
    rounded_bounds (32 + m) alignment,
  )

  -- Where no sum overflows and the aligned end of the metadata fits a `u16`: `repartition` returns nothing
  -- exactly if the header and the two sections are longer than the space in front of the content.
  pub repartition_complete :
      rounded (32 + m) alignment ≤ 65535
      → (repartition content_start m t alignment ≡ ok none) ↔ (content_start < 32 + m + t)
  unfolding chosen_start
  repartition_complete addressable = (
    (λ h. ground (
      arith,
      rw (repartition_lem content_start m t alignment range) at h,
      rounded_bounds (32 + m) alignment,
    )),
    λ short. rw (repartition_lem content_start m t alignment range) (ground arith),
  )

  -- Where no sum overflows: sections that fit in front of the content are refused where the end of the metadata
  -- fits a `u16` and its rounding up does not, although there is room for the tags behind either.
  pub repartition_gap :
      32 + m ≤ 65535
      → 65535 < rounded (32 + m) alignment
      → rounded (32 + m) alignment + t ≤ content_start
      → (repartition content_start m t alignment ≡ ok none) × (32 + m + t ≤ content_start)
  unfolding chosen_start
  repartition_gap packed_fits beyond room = (
    rw (repartition_lem content_start m t alignment range)
        (ground (arith, rounded_bounds (32 + m) alignment)),
    omega (arith, rounded_bounds (32 + m) alignment),
  )

  -- Sections that fit with an addressable tag offset have a layout.
  pub repartition-some :
      rounded (32 + m) alignment ≤ 65535
      → 32 + m + t ≤ content_start
      → (l : SectionLayout) × (repartition content_start m t alignment ≡ ok (some l))
        × (l.content_start ≡ content_start)
  unfolding chosen_start
  repartition-some addressable room = (
    record { tags_start = chosen_start content_start m t alignment; content_start = content_start },
    rw (repartition_lem content_start m t alignment range)
        (ground (arith, rounded_bounds (32 + m) alignment)),
    refl,
  )
