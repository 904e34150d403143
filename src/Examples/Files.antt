-- ===== src/Examples/Files.antt =====
-- A small object: 96 bytes of header, metadata and tags, and three bytes of content.
use tux_io_encoding.Prelude.{
  ◌≡◌, refl, Bool, true, false, some, [], ◌∷◌, ◌++◌, arith, length, length-append,
}
use tux_io_encoding.Error.{ok, err, map_ok}
use tux_io_encoding.Examples.Disks.{plain_os}
use tux_io_encoding.Fs.Object.{is_compressed_type}
use tux_io_encoding.Fs.Layout.{div_ceil}
use tux_io_encoding.Map.{lookup}
use tux_io_encoding.Tags.{tags_type, write_entries}
use tux_io_encoding.Types.Limit.{count_is_allowed, length_is_allowed}
use tux_io_encoding.Types.Number.{u16_type, u8_type}
use tux_io_encoding.Tags.Keys.MetaKey.{meta_key_type}
use tux_io_encoding.Value.{value_type}
use tux_io_encoding.Word.Endian.{to_le_bytes}
use tux_io_encoding.Io.{Bytes}
use tux_io_encoding.Fs.Error.{range_out_of_bounds}
use tux_io_encoding.Fs.Object.{
  TuxObject, content_range_reader, set_sections_in_place, stored_content_reader,
}
use tux_io_encoding.Fs.Object.Content.{
  read_buffers, content_range_reader-slice, content_range_reader_outside, left,
}
use tux_io_encoding.Fs.Object.RoundTrip.{Holds, file-Holds, handle}
use tux_io_encoding.Fs.Object.Update.{set_sections_in_place-ok, set_sections_in_place_total}
use tux_io_encoding.Tags.{Tags}
use tux_io_encoding.Tags.Codec.{IsTags}
use tux_io_encoding.Tags.Keys.MetaKey.{meta_key, meta_key_type-Agrees, IsMetaKey}
use tux_io_encoding.Value.{u8}
use tux_io_encoding.Fs.Prefix.{metadata_type}
use tux_io_encoding.Fs.Layout.Align.{rounded}
use tux_io_encoding.Examples.Data.{
  some_prefix-length, Name, names, age, some_metadata, some_tags, some_header, some_header-IsHeader,
  some_metadata-IsTags, some_tags-IsTags, some_metadata-write, some_tags-write, some_layout,
  some_prefix, some_prefix-encode, size_key, metadata_bytes, tags_bytes,
}

abbrev content : Bytes
content = 1 ∷ 2 ∷ 3 ∷ []

-- The object, open.
abbrev object : Bool → TuxObject names
object writable =
    handle names some_header some_metadata some_tags (some_prefix ++ content) [] writable 5

file-Holds_example :
    Holds names some_header some_metadata some_tags (some_prefix ++ content) size_key [] true 7
file-Holds_example =
    file-Holds names some_header some_metadata some_tags some_layout some_prefix content
      some_header-IsHeader some_metadata-IsTags some_tags-IsTags refl refl some_prefix-encode
      size_key [] true 7

content_range_reader-slice_example :
    map_ok
      (λ r. (read_buffers (1 ∷ 5 ∷ []) r).0)
      (content_range_reader names 1 (some 2) (object false))
    ≡ ok (2 ∷ 3 ∷ [])
unfolding is_compressed_type
content_range_reader-slice_example =
    content_range_reader-slice names (object false) 1 2 (1 ∷ 5 ∷ []) some_prefix content [] refl
      refl some_prefix-length refl
      (omega (arith, some_prefix-length, length-append {0} some_prefix content)) (omega arith)

content_range_reader_outside_example :
    content_range_reader names 2 (some 2) (object false) ≡ err (range_out_of_bounds 2 4 3)
unfolding is_compressed_type
content_range_reader_outside_example =
    content_range_reader_outside names (object false) 2 2 refl (omega arith)

set_sections_in_place_total_example :
    (self' : TuxObject names) × (set_sections_in_place names plain_os some_metadata some_tags
        (object true)
      ≡ ok self')
unfolding div_ceil
set_sections_in_place_total_example =
    set_sections_in_place_total names plain_os (object true) some_metadata some_tags some_prefix
      content some_header-IsHeader some_metadata-IsTags some_tags-IsTags refl some_prefix-length
      metadata_bytes tags_bytes some_metadata-write some_tags-write refl refl (omega arith)
      (unfold rounded in omega arith) (omega arith)

-- Metadata of one entry, which is shorter.
abbrev other_metadata : Tags Name
other_metadata = (age, u8 201) ∷ []

other_metadata-IsTags :
    IsTags (meta_key names) (IsMetaKey names) (meta_key_type-Agrees names) other_metadata
unfolding lookup
other_metadata-IsTags = record { entries = ((tt, omega arith), tt); distinct = (refl, tt) }

abbrev other_bytes : Bytes
other_bytes = 1 ∷ 0 ∷ 3 ∷ 0 ∷ 97 ∷ 103 ∷ 101 ∷ 0 ∷ 201 ∷ []

other_metadata-write : (metadata_type names).write other_metadata ≡ ok other_bytes
unfolding tags_type count_is_allowed u16_type write_entries meta_key_type length_is_allowed
    value_type u8_type to_le_bytes
other_metadata-write = refl

-- The object with the other metadata.
updated :
    (self' : TuxObject names) × (set_sections_in_place names plain_os other_metadata some_tags
        (object true)
      ≡ ok self')
unfolding rounded div_ceil
updated =
    set_sections_in_place_total names plain_os (object true) other_metadata some_tags some_prefix
      content some_header-IsHeader other_metadata-IsTags some_tags-IsTags refl some_prefix-length
      other_bytes tags_bytes other_metadata-write some_tags-write refl refl (omega arith)
      (omega arith) (omega arith)

set_sections_in_place-ok_example :
    (prefix : Bytes) × (updated.0.file.bytes ≡ prefix ++ content)
    × (length prefix ≡ length some_prefix)
    × (updated.0.metadata ≡ other_metadata)
    × Holds names updated.0.header other_metadata some_tags updated.0.file.bytes size_key [] true 7
    × (left (stored_content_reader names updated.0)
        ≡ left (stored_content_reader names (object true)))
set_sections_in_place-ok_example =
    set_sections_in_place-ok names plain_os (object true) other_metadata some_tags some_prefix
      content some_header-IsHeader other_metadata-IsTags some_tags-IsTags refl some_prefix-length
      updated.0 size_key [] true 7 updated.1
