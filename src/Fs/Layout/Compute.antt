-- ===== src/Fs/Layout/Compute.antt =====
-- `LayoutOptions::compute`: what it returns fits, when it fails, and that it is stable.
use tux_io_encoding.Prelude.{
  ℕ, ◌+◌, ◌-◌, ◌*◌, ◌^◌, ◌≤◌, ◌<◌, max, ◌≡◌, refl, ap, ◌∙◌, ◌⊎◌, inl, inr, none, some, arith, ltb,
  if◌then◌else◌, ltb→lt, lt→ltb, Bool-cases,
}
use tux_io_encoding.Error.{ok, err}
use tux_io_encoding.Word.Usize.{usize_limit, add_usize_fits}
use tux_io_encoding.Fs.Error.{ObjectFileError, ObjectFileResult, section_offset_too_large}
use tux_io_encoding.Fs.Layout.{SectionLayout, LayoutOptions, repartition, fresh, compute}
use tux_io_encoding.Fs.Layout.Align.{
  step, rounded, rounded_bounds, rounded_mono, align_up_fits, align_up-step,
}
use tux_io_encoding.Fs.Layout.Repartition.{repartition_lem, repartition_fits, repartition-some}

module _ (o : LayoutOptions) (m t : ℕ) where
  -- Sizes whose sums stay in the range of `usize`, and a floor that is a `u32`.
  pub record InRange : Type 0 where
    pub sums : 32 + m + o.metadata_reserve + t + o.tag_reserve + 2 * step o.alignment ≤ usize_limit
    pub floor_sum : o.min_content_start + step o.alignment ≤ usize_limit
    pub floor_fits : o.min_content_start < 2 ^ 32

  -- The offsets of a new layout, as the README gives them.
  pub new_tags_start : ℕ
  new_tags_start = rounded (32 + m + o.metadata_reserve) o.alignment

  pub new_content_start : ℕ
  new_content_start =
      max (rounded (new_tags_start + t + o.tag_reserve) o.alignment)
        (rounded o.min_content_start o.alignment)

  pub fresh_lem :
      InRange
      → fresh o m t ≡ (
          if ltb 65535 new_tags_start
          then err (section_offset_too_large new_tags_start 65535)
          else if ltb (2 ^ 32 - 1) new_content_start
          then err (section_offset_too_large new_content_start (2 ^ 32 - 1))
          else ok (record { tags_start = new_tags_start; content_start = new_content_start }))
  unfolding fresh new_tags_start new_content_start
  fresh_lem range =
      let ts = rounded_bounds (32 + m + o.metadata_reserve) o.alignment in
      let start = rounded (32 + m + o.metadata_reserve) o.alignment in
      rw
        (
          add_usize_fits {E = ObjectFileError} 32 m (omega arith),
          add_usize_fits {E = ObjectFileError} (32 + m) o.metadata_reserve (omega arith),
          align_up-step (32 + m + o.metadata_reserve) o.alignment,
          align_up_fits (32 + m + o.metadata_reserve) o.alignment (omega arith),
          add_usize_fits {E = ObjectFileError} start t (omega (arith, ts)),
          add_usize_fits {E = ObjectFileError} (start + t) o.tag_reserve (omega (arith, ts)),
          align_up-step (start + t + o.tag_reserve) o.alignment,
          align_up_fits (start + t + o.tag_reserve) o.alignment (omega (arith, ts)),
          align_up-step o.min_content_start o.alignment,
          align_up_fits o.min_content_start o.alignment range.floor_sum,
        )
        (ground arith)

  repartition_same :
      repartition o.min_content_start m t (max o.alignment 1)
      ≡ repartition o.min_content_start m t o.alignment
  unfolding repartition
  repartition_same =
      let same : max (max o.alignment 1) 1 ≡ max o.alignment 1 = omega arith in rw same

  -- `compute` reuses the named prefix if it can, and lays out anew otherwise.
  compute_cases :
      (l : SectionLayout)
      → compute o m t ≡ ok l
      → ((0 < o.min_content_start)
          × (repartition o.min_content_start m t o.alignment ≡ ok (some l)))
        ⊎ (fresh o m t ≡ ok l)
  unfolding compute
  compute_cases l h = ground (arith, repartition_same)

  -- Where the sums stay in the range of `usize` and the floor is a `u32`: a layout that `compute` returns has
  -- room for the header and both sections, its offsets fit their fields, and the content does not start before
  -- the floor.
  pub compute_fits :
      InRange
      → (l : SectionLayout) → compute o m t ≡ ok l
      → (32 + m ≤ l.tags_start)
        × (l.tags_start + t ≤ l.content_start)
        × (l.tags_start ≤ 65535)
        × (l.content_start < 2 ^ 32)
        × (o.min_content_start ≤ l.content_start)
  unfolding new_content_start new_tags_start
  compute_fits range l h = elim (compute_cases l h) [
    | inl (named, kept) ↦
        omega (arith, repartition_fits o.min_content_start m t o.alignment (omega arith) l kept)
    | inr new ↦ ground (
      arith,
      rw (fresh_lem range) at new,
      rounded_bounds (32 + m + o.metadata_reserve) o.alignment,
      rounded_bounds (new_tags_start + t + o.tag_reserve) o.alignment,
      rounded_bounds o.min_content_start o.alignment,
    )
  ]

  -- Where the sums stay in the range of `usize` and the floor is a `u32`: a prefix that is named, and in which
  -- the sections fit with the aligned tag offset below 2 ^ 16, is kept, so that the content does not move.
  pub compute_keeps :
      InRange
      → 0 < o.min_content_start
      → 32 + m + t ≤ o.min_content_start
      → rounded (32 + m) o.alignment ≤ 65535
      → (l : SectionLayout) × (compute o m t ≡ ok l) × (l.content_start ≡ o.min_content_start)
  unfolding compute
  compute_keeps range named room addressable =
      let (l, kept, same) =
        repartition-some o.min_content_start m t o.alignment (omega arith) addressable room in
      (l, rw (lt→ltb 0 o.min_content_start named, repartition_same, kept), same)

  -- Where the sums stay in the range of `usize` and the floor is a `u32`: in front of the content of a computed
  -- layout, `repartition` finds a layout for sections of the same sizes, and leaves the content where it is.
  pub compute-repartition :
      InRange
      → (l : SectionLayout) → compute o m t ≡ ok l
      → (l' : SectionLayout) × (repartition l.content_start m t o.alignment ≡ ok (some l'))
        × (l'.content_start ≡ l.content_start)
  compute-repartition range l h = elim (compute_cases l h) [
    | inl (named, kept) ↦
        let fits = repartition_fits o.min_content_start m t o.alignment (omega arith) l kept in
        (l, ap (λ s. repartition s m t o.alignment) fits.0 ∙ kept, refl)
    | inr new ↦
        let fits = compute_fits range l h in
        let bounded : new_tags_start ≤ 65535 = ground (arith, rw (fresh_lem range) at new) in
        let mono : rounded (32 + m) o.alignment ≤ new_tags_start =
          unfold new_tags_start in
          rounded_mono (32 + m) (32 + m + o.metadata_reserve) o.alignment (omega arith) in
        repartition-some l.content_start m t o.alignment (omega arith) (omega arith) (omega arith)
  ]

  Computes : ObjectFileResult SectionLayout → Type 0
  Computes r =
      ((l : SectionLayout) × (r ≡ ok l))
      ⊎ ((required : ℕ) × (limit : ℕ) × (r ≡ err (section_offset_too_large required limit))
          × (limit < required))

  fresh_total : InRange → Computes (fresh o m t)
  unfolding Computes
  fresh_total range = elim (Bool-cases (ltb 65535 new_tags_start)) [
    | inl over ↦
        inr (new_tags_start, 65535, rw (fresh_lem range, over), ltb→lt 65535 new_tags_start over)
    | inr fits ↦ elim (Bool-cases (ltb (2 ^ 32 - 1) new_content_start)) [
      | inl over ↦ inr (
        new_content_start,
        2 ^ 32 - 1,
        rw (fresh_lem range, fits, over),
        ltb→lt (2 ^ 32 - 1) new_content_start over,
      )
      | inr below ↦ inl (
        record { tags_start = new_tags_start; content_start = new_content_start },
        rw (fresh_lem range, fits, below),
      )
    ]
  ]

  repartition_cases :
      InRange
      → (repartition o.min_content_start m t o.alignment ≡ ok none)
        ⊎ ((l : SectionLayout) × (repartition o.min_content_start m t o.alignment ≡ ok (some l)))
  repartition_cases range =
      rw (repartition_lem o.min_content_start m t o.alignment (omega arith)) (ground arith)

  -- Where the sums stay in the range of `usize` and the floor is a `u32`: `compute` returns a layout, or the
  -- error that an offset is above its limit, which it is.
  pub compute_total :
      InRange
      → ((l : SectionLayout) × (compute o m t ≡ ok l))
        ⊎ ((required : ℕ) × (limit : ℕ) × (compute o m t
              ≡ err (section_offset_too_large required limit))
            × (limit < required))
  unfolding compute Computes
  compute_total range = elim (Bool-cases (ltb 0 o.min_content_start)) [
    | inr unnamed ↦ rw unnamed (fresh_total range)
    | inl named ↦ elim (repartition_cases range) [
      | inl none_fits ↦ rw (named, repartition_same, none_fits) (fresh_total range)
      | inr (l, kept) ↦ inl (l, rw (named, repartition_same, kept))
    ]
  ]
