-- ===== src/Examples/Updates.antt =====
-- An object with content is updated, and one whose content is compressed is not.
use tux_io_encoding.Prelude.{
  ℕ, ◌+◌, ◌≡◌, refl, sym, ap, ◌∙◌, ◌≢◌, true, none, some, [], ◌∷◌, ◌++◌, arith, length, take, drop,
}
use tux_io_encoding.Error.{ok}
use tux_io_encoding.Fs.Disk.{clone_file}
use tux_io_encoding.Types.Limit.{count_is_allowed, length_is_allowed}
use tux_io_encoding.Types.Number.{u16_type, u32_type, u8_type}
use tux_io_encoding.Tags.{write_entries}
use tux_io_encoding.Word.Endian.{to_le_bytes}
use tux_io_encoding.Map.{lookup}
use tux_io_encoding.Word.Usize.{add_usize, mul_usize}
use tux_io_encoding.Types.Text.{string_type}
use tux_io_encoding.Types.Scalar.{bool_type}
use tux_io_encoding.Fs.Layout.{align_up}
use tux_io_encoding.Examples.Data.{name_of_bytes}
use tux_io_encoding.Fs.Object.{is_compressed_type}
use tux_io_encoding.Compression.{gzip}
use tux_io_encoding.Fs.Store.Compressed.{rewrite_compressed}
use tux_io_encoding.Io.{Bytes, seek_start}
use tux_io_encoding.Header.{header_type}
use tux_io_encoding.Header.Codec.{encode_header, write_header_lem}
use tux_io_encoding.Tags.{Tags, tags_type}
use tux_io_encoding.Tags.Codec.{IsTags}
use tux_io_encoding.Tags.Keys.Text.{string_key, bytes_eq}
use tux_io_encoding.Tags.Keys.MetaKey.{meta_key, meta_key_type-Agrees, IsMetaKey, meta_key_type}
use tux_io_encoding.Value.{u8, value_type}
use tux_io_encoding.Fs.Layout.{repartition, compute}
use tux_io_encoding.Fs.Prefix.{metadata_type, encode_prefix}
use tux_io_encoding.Fs.Prefix.Encode.{padded, encode_prefix-padded}
use tux_io_encoding.Fs.Object.{TuxObject, read_content, stored_content_reader}
use tux_io_encoding.Fs.Object.Content.{left}
use tux_io_encoding.Fs.Object.RoundTrip.{handle, Holds, file-Holds}
use tux_io_encoding.Fs.TempFile.{temp_name, decimal, try_names, next_temp_counter, or_next_name}
use tux_io_encoding.Fs.Disk.{
  Disk, System, set_name, set_bytes, write_bytes, create_new, write_file, sync_file, rename_file,
}
use tux_io_encoding.Fs.Support.{ensure_supported, is_supported}
use tux_io_encoding.Fs.Writer.{
  create, write, copy_reads, finish_calls, finish_in_place, write_prefix, publish,
}
use tux_io_encoding.Fs.Writer.Published.{Published}
use tux_io_encoding.Fs.Writer.Failure.{IsFailure, Restored}
use tux_io_encoding.Fs.Store.{rewrite, set_metadata, options_for, ensure_writable}
use tux_io_encoding.Fs.Store.Rewrite.{rewrite-Published, rewrite-Restored, set_metadata-Published}
use tux_io_encoding.Examples.Data.{
  Name, names, age, some_metadata, some_tags, some_header, some_header-IsHeader, some_layout,
  some_prefix, some_prefix-encode, some_metadata-IsTags, some_tags-IsTags, some_tags-write,
  tags_bytes, size_key,
}
use tux_io_encoding.Examples.Disks.{
  plain_os, os_with-IsTidy, full_os, all_features, some_path, some_disk, some_temp, some_content,
}

abbrev new_metadata : Tags Name
new_metadata = (age, u8 1) ∷ []

abbrev new_bytes : Bytes
new_bytes = 1 ∷ 0 ∷ 3 ∷ 0 ∷ 97 ∷ 103 ∷ 101 ∷ 0 ∷ 1 ∷ []

new_metadata-write : (metadata_type names).write new_metadata ≡ ok new_bytes
unfolding tags_type count_is_allowed u16_type write_entries meta_key_type length_is_allowed
    value_type u8_type to_le_bytes
new_metadata-write = refl

new_metadata-IsTags :
    IsTags (meta_key names) (IsMetaKey names) (meta_key_type-Agrees names) new_metadata
unfolding lookup
new_metadata-IsTags = record { entries = ((tt, omega arith), tt); distinct = (refl, tt) }

abbrev new_prefix : Bytes
new_prefix = padded (encode_header some_header) new_bytes tags_bytes 23 13

new_prefix-encode :
    encode_prefix names some_header new_metadata some_tags some_layout ≡ ok new_prefix
unfolding header_type to_le_bytes tags_type meta_key_type value_type string_type u8_type u32_type
    bool_type
new_prefix-encode =
    encode_prefix-padded names some_header new_metadata some_tags some_layout
      (encode_header some_header) new_bytes tags_bytes 23 13 (write_header_lem some_header)
      new_metadata-write some_tags-write refl refl refl refl refl

-- The object, whose file has some bytes in front of its content.
abbrev object_of : Bytes → ℕ → TuxObject names
object_of bytes position =
    handle names some_header some_metadata some_tags bytes some_path true position

computed :
    (os : System)
    → compute
        (options_for names os new_metadata some_tags (object_of [] 0)).layout
        ((metadata_type names).size new_metadata)
        ((tags_type string_key).size some_tags)
      ≡ ok some_layout
unfolding compute add_usize tags_type meta_key_type value_type u8_type string_type u32_type
    bool_type align_up mul_usize
computed os = refl

room :
    repartition 96
      ((metadata_type names).size new_metadata)
      ((tags_type string_key).size some_tags)
      32
    ≡ ok (some some_layout)
unfolding repartition add_usize tags_type meta_key_type value_type u8_type string_type u32_type
    bool_type align_up mul_usize
room = refl

-- The file of the replacement: a gap of zeros, the content, and then the prefix over the gap.
abbrev new_file : Bytes
new_file = write_bytes 0 new_prefix (write_bytes 96 some_content [])

abbrev updated_disk : Disk
updated_disk = set_name some_path (some 1) (
    set_name some_temp none (
      set_bytes 1 new_file (
        set_bytes 1 (write_bytes 96 some_content [])
          (record (set_name some_temp (some 1)
            (set_bytes 1 [] (record some_disk { temp_counter = 1 }))) { next = 2 }))))

abbrev updated_object : TuxObject names
updated_object =
    handle names some_header new_metadata some_tags new_file some_path true (0 + length new_prefix)

rewrite_run :
    (bytes : Bytes) (position : ℕ)
    → drop 96 bytes ≡ some_content
    → rewrite names plain_os all_features new_metadata some_tags
        (object_of bytes position)
        some_disk
      ≡ (ok updated_object, updated_disk)
unfolding clone_file rewrite ensure_writable create ensure_supported is_supported try_names
    next_temp_counter or_next_name create_new copy_reads write write_file finish_calls
    finish_in_place write_prefix sync_file publish rename_file temp_name decimal bytes_eq
    stored_content_reader seek_start read_content name_of_bytes is_compressed_type write_bytes
    to_le_bytes add_usize
rewrite_run bytes position h = rw (computed plain_os, h, room, new_prefix-encode) refl

abbrev some_file : Bytes
some_file = some_prefix ++ some_content

some_file-content : drop 96 some_file ≡ some_content
unfolding to_le_bytes
some_file-content = refl

rewrite-Published_example :
    Published names some_disk updated_disk some_path new_metadata some_tags
      (left (stored_content_reader names (object_of some_file 0)))
      updated_object
rewrite-Published_example =
    rewrite-Published names plain_os all_features (os_with-IsTidy _ _) new_metadata some_tags
      (object_of some_file 0) some_disk new_metadata-IsTags some_tags-IsTags tt (omega arith)
      (rewrite_run some_file 0 some_file-content)

rewrite_fails :
    IsFailure
      (rewrite names full_os all_features new_metadata some_tags
        (object_of some_file 0)
        some_disk).0
unfolding rewrite ensure_writable create ensure_supported is_supported try_names next_temp_counter
    or_next_name create_new copy_reads write write_file temp_name decimal bytes_eq
    stored_content_reader seek_start read_content name_of_bytes is_compressed_type to_le_bytes
rewrite_fails = rw (computed full_os) tt

rewrite-Restored_example :
    Restored some_disk
      (rewrite names full_os all_features new_metadata some_tags
        (object_of some_file 0)
        some_disk).1
rewrite-Restored_example =
    rewrite-Restored names full_os all_features (os_with-IsTidy _ _) new_metadata some_tags
      (object_of some_file 0) some_disk (λ p. refl) refl rewrite_fails

some_file-Holds :
    Holds names some_header some_metadata some_tags some_file size_key some_path true 0
some_file-Holds =
    file-Holds names some_header some_metadata some_tags some_layout some_prefix some_content
      some_header-IsHeader some_metadata-IsTags some_tags-IsTags refl refl some_prefix-encode
      size_key some_path true 0

set_metadata_run :
    set_metadata names plain_os all_features new_metadata (object_of some_file 0) some_disk
    ≡ (ok updated_object, updated_disk)
unfolding set_metadata
set_metadata_run =
    let (p, read) = some_file-Holds.reads_tags in
    rw read (rewrite_run some_file p some_file-content)

set_metadata-Published_example :
    Published names some_disk updated_disk some_path new_metadata some_tags
      (left (stored_content_reader names (object_of some_file 0)))
      updated_object
set_metadata-Published_example =
    set_metadata-Published names plain_os all_features (os_with-IsTidy _ _) some_header
      some_metadata new_metadata some_tags some_file size_key some_path 0 some_disk some_file-Holds
      new_metadata-IsTags some_tags-IsTags some_header-IsHeader set_metadata_run

-- The object, whose header says that its content is compressed.
abbrev compressed_object : TuxObject names
compressed_object =
    handle names (record some_header { compression = gzip 6 }) some_metadata some_tags some_file
      some_path true 0

some_content-some : left (stored_content_reader names compressed_object) ≢ []
unfolding stored_content_reader seek_start
some_content-some =
    let content : left (stored_content_reader names compressed_object) ≡ some_content =
      ap (take 3) some_file-content in
    λ none_left. let empty : some_content ≡ [] = sym content ∙ none_left in ground arith

rewrite_compressed_example :
    IsFailure
      (rewrite names plain_os all_features new_metadata some_tags compressed_object some_disk).0
unfolding is_compressed_type
rewrite_compressed_example =
    rewrite_compressed names plain_os all_features new_metadata some_tags compressed_object
      some_disk refl some_content-some
