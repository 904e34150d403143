-- ===== src/Header.antt =====
-- header.rs, and the sections and the seeking of lib.rs.
pub mod Codec
use tux_io_encoding.Prelude.{
  ℕ, ◌+◌, ◌-◌, Bool, ◌&&◌, not, some, [], ◌∷◌, ◌++◌, ltb, ◌==◌, if◌then◌else◌, length, take, drop,
  replicate, get_or,
}
use tux_io_encoding.Error.{
  EncodingError, invalid_magic, unsupported_version, unexpected_eof, Result, ok, err, panicked,
  ◌>>=◌, ◌>>◌,
}
use tux_io_encoding.Io.{Read, Bytes, Cursor, read_exact, on_cursor, seek_start}
use tux_io_encoding.Codec.{ObjectType}
use tux_io_encoding.Types.Number.{u16_type, u32_type, u64_type}
use tux_io_encoding.Word.Usize.{sub_usize}
use tux_io_encoding.Word.Endian.{from_le_bytes}
use tux_io_encoding.Compression.{
  CompressionTypes, no_compression, compression_type, compression_of_slice,
}

abbrev pub magic_value : Bytes
magic_value = 0x54 ∷ 0x55 ∷ 0x58 ∷ []

abbrev pub current_version : ℕ
current_version = 0

pub record ObjectHeader : Type 0 where
  pub version : ℕ
  pub compression : CompressionTypes
  pub tags_start : ℕ
  pub content_start : ℕ
  pub content_length : ℕ
  pub bit_flags : ℕ

-- `ObjectHeader::default`.
abbrev pub default_header : ObjectHeader
default_header = record {
  version = current_version;
  compression = no_compression;
  tags_start = 0;
  content_start = 0;
  content_length = 0;
  bit_flags = 0;
}

pub data FileSections : Type 0 where
  header_section metadata_section tags_section content_section : FileSections

unfoldable pub header_tags_space : ObjectHeader → Result EncodingError ℕ
unfolding sub_usize
header_tags_space h = sub_usize h.content_start h.tags_start

unfoldable pub meta_and_tag_space : ObjectHeader → Result EncodingError ℕ
unfolding sub_usize
meta_and_tag_space h = sub_usize h.content_start 32

-- `ObjectHeader::seek`: the offset in `SeekFrom::Start`.
unfoldable pub section_start : ObjectHeader → FileSections → ℕ
section_start h header_section = 0
section_start h metadata_section = 32
section_start h tags_section = h.tags_start
section_start h content_section = h.content_start

-- Equality of the first three bytes with the magic value.
unfoldable pub is_magic : Bytes → Bool
is_magic entry = get_or entry 0 0 == 0x54 && (get_or entry 1 0 == 0x55 && get_or entry 2 0 == 0x58)

-- The slice `entry[0..3]` and the index `entry[3]` panic where the entry is too short.
unfoldable pub header_entry : Bytes → Result EncodingError ℕ
unfolding is_magic
header_entry entry =
    if ltb (length entry) 3
    then panicked
    else if not (is_magic entry)
    then err invalid_magic
    else if ltb (length entry) 4
    then panicked
    else ok (get_or entry 3 0)

-- `content[from..to]`.
abbrev pub slice : ℕ → ℕ → Bytes → Bytes
slice from to content = take (to - from) (drop from content)

unfoldable pub parse_header : Bytes → Result EncodingError ObjectHeader
unfolding header_entry
parse_header content = if ltb (length content) 32 then err unexpected_eof else (do
  version ← header_entry (slice 0 4 content)
  if not (version == current_version) then err (unsupported_version version) else (do
    compression ← compression_of_slice (slice 4 9 content)
    ok (record {
      version = version;
      compression = compression;
      tags_start = from_le_bytes (slice 9 11 content);
      content_start = from_le_bytes (slice 11 15 content);
      content_length = from_le_bytes (slice 15 23 content);
      bit_flags = get_or content 23 0;
    })))

unfoldable pub read_header : Read ObjectHeader
read_header input = do (content, rest) ← read_exact 32 input; h ← parse_header content; ok (h, rest)

-- The padding up to 32 bytes is `32 - (3 + 1 + 5 + 2 + 4 + 8 + 1)`.
unfoldable pub write_header : ObjectHeader → Result EncodingError Bytes
write_header h = do
  compression ← compression_type.write h.compression
  tags_start ← u16_type.write h.tags_start
  content_start ← u32_type.write h.content_start
  content_length ← u64_type.write h.content_length
  ok (
      magic_value
      ++ (h.version
          ∷ (compression
              ++ (tags_start
                  ++ (content_start
                      ++ (content_length
                          ++ (h.bit_flags
                              ∷ replicate (32 - (length magic_value + 1 + 5 + 2 + 4 + 8 + 1))
                                  0)))))))

-- `skip` seeks to byte 32 of the file, not 32 bytes on.
unfoldable pub header_type : ObjectType ObjectHeader
unfolding parse_header read_header write_header
header_type = record {
  const_size = λ _. some 32;
  size = λ _. 32;
  write = write_header;
  read = read_header;
  read_from_bytes = parse_header;
  read_size = λ c. ok (32, c);
  skip = λ c. ok (seek_start 32 c);
}

-- `SeekWithHeader::seek_to_section_with_header`.
unfoldable pub seek_to_section_with_header :
    FileSections → ObjectHeader → Cursor → Result EncodingError Cursor
unfolding section_start seek_start
seek_to_section_with_header section h c = ok (seek_start (section_start h section) c)

-- `SeekWithHeader::seek_to_section`.
unfoldable pub seek_to_section : FileSections → Cursor → Result EncodingError Cursor
unfolding seek_to_section_with_header seek_start
seek_to_section header_section c = ok (seek_start 0 c)
seek_to_section metadata_section c = ok (seek_start 32 c)
seek_to_section section c = do
  (h, c) ← on_cursor header_type.read (seek_start 0 c)
  seek_to_section_with_header section h c
