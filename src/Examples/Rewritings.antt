-- ===== src/Examples/Rewritings.antt =====
-- A writer whose metadata outgrew its place is finished.
use tux_io_encoding.Prelude.{◌≡◌, refl, Option, none, [], ◌∷◌, arith, replicate}
use tux_io_encoding.Error.{IoErrorKind, ok}
use tux_io_encoding.Fs.Writer.Options.{metadata_mut, tags_mut}
use tux_io_encoding.Types.Limit.{count_is_allowed, length_is_allowed}
use tux_io_encoding.Types.Number.{u16_type}
use tux_io_encoding.Tags.{write_entries}
use tux_io_encoding.Word.Endian.{to_le_bytes}
use tux_io_encoding.Io.{Bytes}
use tux_io_encoding.Fs.Writer.State.{IsWriting}
use tux_io_encoding.Fs.Writer.Rewriting.{finish_rewrites}
use tux_io_encoding.Fs.Writer.Edited.{edited-IsWriting}
use tux_io_encoding.Tags.Codec.{IsTags}
use tux_io_encoding.Types.Utf8.{IsUtf8-ascii}
use tux_io_encoding.Tags.Keys.MetaKey.{meta_key, meta_key_type-Agrees, IsMetaKey}
use tux_io_encoding.Fs.Writer.Published.{CanEncode}
use tux_io_encoding.Map.{lookup}
use tux_io_encoding.Value.{string}
use tux_io_encoding.Examples.Data.{etag}
use tux_io_encoding.Examples.Data.{Name}
use tux_io_encoding.Fs.Layout.{compute}
use tux_io_encoding.Fs.Writer.Published.{CanEncode}
use tux_io_encoding.Tags.{Tags}
use tux_io_encoding.Fs.Writer.{ObjectWriter}
use tux_io_encoding.Examples.Disks.{os_with}
use tux_io_encoding.Word.Usize.{add_usize, mul_usize}
use tux_io_encoding.Tags.Keys.MetaKey.{meta_key_type}
use tux_io_encoding.Value.{value_type}
use tux_io_encoding.Types.Text.{string_type}
use tux_io_encoding.Types.Number.{u32_type, u8_type}
use tux_io_encoding.Types.Scalar.{bool_type}
use tux_io_encoding.Fs.Layout.{align_up}
use tux_io_encoding.Fs.Error.{FilePath}
use tux_io_encoding.Fs.Layout.Compute.{InRange}
use tux_io_encoding.Fs.Writer.{rewrite_options}
use tux_io_encoding.Fs.Writer.Total.{Accepts}
use tux_io_encoding.Examples.Data.{tags_bytes, some_tags-write}
use tux_io_encoding.Fs.Object.{TuxObject}
use tux_io_encoding.Fs.Layout.{repartition}
use tux_io_encoding.Fs.Prefix.{metadata_type}
use tux_io_encoding.Tags.{tags_type}
use tux_io_encoding.Tags.Keys.Text.{string_key, bytes_eq}
use tux_io_encoding.Fs.TempFile.{temp_name, decimal}
use tux_io_encoding.Fs.Disk.{Disk}
use tux_io_encoding.Fs.Writer.{finish}
use tux_io_encoding.Examples.Data.{names, some_tags, some_tags-IsTags}
use tux_io_encoding.Examples.Disks.{
  plain_os, all_features, some_disk, some_temp, some_content, written_one, written_disk,
  written_one-IsWriting,
}

accepts :
    (refuses_rename : FilePath → Option IoErrorKind)
    → Accepts (os_with (λ offset. none) refuses_rename)
accepts refuses_rename = record { creates = λ p. refl; writes = λ offset. refl; syncs = refl }

-- The writer, whose metadata grew after the content was written.
abbrev long_metadata : Tags Name
long_metadata = (etag, string (replicate 70 0x78)) ∷ []

abbrev long_bytes : Bytes
long_bytes = 1 ∷ 0 ∷ 4 ∷ 0 ∷ 101 ∷ 116 ∷ 97 ∷ 103 ∷ 12 ∷ 70 ∷ 0 ∷ replicate 70 0x78

long_metadata-write : (metadata_type names).write long_metadata ≡ ok long_bytes
unfolding tags_type count_is_allowed u16_type write_entries meta_key_type length_is_allowed
    value_type string_type to_le_bytes
long_metadata-write = refl

long_metadata-IsTags :
    IsTags (meta_key names) (IsMetaKey names) (meta_key_type-Agrees names) long_metadata
unfolding lookup
long_metadata-IsTags = record {
  entries = ((tt, (omega arith, IsUtf8-ascii (replicate 70 0x78) (omega arith))), tt);
  distinct = (refl, tt);
}

abbrev grown_one : ObjectWriter names
grown_one =
    metadata_mut names (λ old. long_metadata) (tags_mut names (λ old. some_tags) written_one)

grown_one-IsWriting : IsWriting names some_disk written_disk some_temp grown_one some_content
grown_one-IsWriting =
    edited-IsWriting names some_disk written_disk some_temp written_one some_content long_metadata
      written_one.allow_raw_writes written_one-IsWriting

grown_one-CanEncode : CanEncode names grown_one
grown_one-CanEncode = record {
  metadata_valid = long_metadata-IsTags;
  tags_valid = some_tags-IsTags;
  compression_valid = tt;
  content_start_fits = omega arith;
  floor_fits = omega arith;
}

grown_range :
    InRange
      (rewrite_options names plain_os all_features grown_one).layout
      ((metadata_type names).size long_metadata)
      ((tags_type string_key).size some_tags)
unfolding tags_type meta_key_type value_type string_type u8_type u32_type bool_type
grown_range = record { sums = omega arith; floor_sum = omega arith; floor_fits = omega arith }

outgrown :
    repartition 96
      ((metadata_type names).size long_metadata)
      ((tags_type string_key).size some_tags)
      32
    ≡ ok none
unfolding repartition add_usize tags_type meta_key_type value_type string_type u8_type u32_type
    bool_type align_up mul_usize
outgrown = refl

replacement_layout :
    compute
      (rewrite_options names plain_os all_features grown_one).layout
      ((metadata_type names).size long_metadata)
      ((tags_type string_key).size some_tags)
    ≡ ok (record { tags_start = 384; content_start = 672 })
unfolding compute add_usize tags_type meta_key_type value_type u8_type string_type u32_type
    bool_type align_up mul_usize
replacement_layout = refl

finish_rewrites_example :
    (object : TuxObject names) × (d : Disk) × (finish names plain_os all_features grown_one
        written_disk
      ≡ (ok object, d))
unfolding temp_name decimal bytes_eq
finish_rewrites_example =
    finish_rewrites names plain_os all_features (accepts _) long_bytes tags_bytes some_content
      grown_one some_disk written_disk some_temp _ (λ p. refl) refl grown_one-IsWriting
      grown_one-CanEncode long_metadata-write some_tags-write refl grown_range outgrown
      replacement_layout refl
