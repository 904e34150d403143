-- ===== src/Fs/Layout.antt =====
-- fs/layout.rs: where the sections of an object file begin.
pub mod Align
pub mod Repartition
pub mod Compute
use tux_io_encoding.Prelude.{
  ℕ, ◌+◌, ◌-◌, ◌/◌, ◌%◌, ◌^◌, max, Option, none, some, ltb, leb, ◌==◌, if◌then◌else◌,
}
use tux_io_encoding.Error.{ok, err, ◌>>=◌, ◌>>◌}
use tux_io_encoding.Word.Usize.{add_usize, sub_usize, mul_usize}
use tux_io_encoding.Fs.Error.{ObjectFileError, ObjectFileResult, section_offset_too_large}

abbrev pub header_size : ℕ
header_size = 32

abbrev pub default_alignment : ℕ
default_alignment = 32

abbrev pub default_metadata_reserve : ℕ
default_metadata_reserve = 256

abbrev pub default_tag_reserve : ℕ
default_tag_reserve = 256

pub record SectionLayout : Type 0 where
  pub tags_start : ℕ
  pub content_start : ℕ

unfoldable pub metadata_space : SectionLayout → ObjectFileResult ℕ
unfolding sub_usize
metadata_space l = sub_usize l.tags_start header_size

unfoldable pub tags_space : SectionLayout → ObjectFileResult ℕ
unfolding sub_usize
tags_space l = sub_usize l.content_start l.tags_start

abbrev pub prefix_size : SectionLayout → ℕ
prefix_size l = l.content_start

pub record LayoutOptions : Type 0 where
  pub metadata_reserve : ℕ
  pub tag_reserve : ℕ
  pub alignment : ℕ
  pub min_content_start : ℕ

abbrev pub default_layout : LayoutOptions
default_layout = record {
  metadata_reserve = default_metadata_reserve;
  tag_reserve = default_tag_reserve;
  alignment = default_alignment;
  min_content_start = 0;
}

abbrev pub packed : LayoutOptions
packed = record { metadata_reserve = 0; tag_reserve = 0; alignment = 1; min_content_start = 0 }

-- `usize::div_ceil`.
unfoldable pub div_ceil : ℕ → ℕ → ℕ
div_ceil a b = if a % b == 0 then a / b else a / b + 1

unfoldable pub align_up : ℕ → ℕ → ObjectFileResult ℕ
unfolding div_ceil
align_up value alignment = let a = max alignment 1 in mul_usize (div_ceil value a) a

unfoldable pub repartition : ℕ → ℕ → ℕ → ℕ → ObjectFileResult (Option SectionLayout)
repartition content_start metadata_size tags_size alignment = do
  let alignment = max alignment 1
  metadata_end ← add_usize header_size metadata_size
  needed ← add_usize metadata_end tags_size
  if ltb content_start needed then ok none else (do
    aligned ← align_up metadata_end alignment
    tags_end ← add_usize aligned tags_size
    let tags_start = if leb tags_end content_start then aligned else metadata_end
    if ltb 65535 tags_start
        then ok none
        else ok (some (record { tags_start = tags_start % 2 ^ 16; content_start = content_start })))

-- The prefix to reuse, if one was named and the sections fit in it.
unfoldable pub reuse : LayoutOptions → ℕ → ℕ → ObjectFileResult (Option SectionLayout)
unfolding repartition
reuse self metadata_size tags_size =
    if ltb 0 self.min_content_start
    then repartition self.min_content_start metadata_size tags_size (max self.alignment 1)
    else ok none

unfoldable pub fresh : LayoutOptions → ℕ → ℕ → ObjectFileResult SectionLayout
fresh self metadata_size tags_size = do
  let alignment = max self.alignment 1
  metadata_end ← add_usize header_size metadata_size
  metadata_room ← add_usize metadata_end self.metadata_reserve
  tags_start ← align_up metadata_room alignment
  if ltb 65535 tags_start then err (section_offset_too_large tags_start 65535) else (do
    tags_end ← add_usize tags_start tags_size
    tags_room ← add_usize tags_end self.tag_reserve
    after_tags ← align_up tags_room alignment
    floor ← align_up self.min_content_start alignment
    let content_start = max after_tags floor
    if ltb (2 ^ 32 - 1) content_start
        then err (section_offset_too_large content_start (2 ^ 32 - 1))
        else ok
            (record { tags_start = tags_start % 2 ^ 16; content_start = content_start % 2 ^ 32 }))

unfoldable pub compute : LayoutOptions → ℕ → ℕ → ObjectFileResult SectionLayout
unfolding reuse fresh
compute self metadata_size tags_size = do
  kept ← reuse self metadata_size tags_size
  elim kept [ some layout ↦ ok layout | none ↦ fresh self metadata_size tags_size ]
