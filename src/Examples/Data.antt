-- ===== src/Examples/Data.antt =====
-- Data for the examples: three header names, a metadata map, a tag map and their encodings.
use tux_io_encoding.Prelude.{
  ◌<◌, ◌≡◌, refl, ◌↔◌, Bool, true, false, Option, none, some, [], ◌∷◌, arith, if◌then◌else◌, length,
  All,
}
use tux_io_encoding.Error.{ok}
use tux_io_encoding.Fs.Support.{uncompressed_length_name}
use tux_io_encoding.Tags.Codec.{IsTags}
use tux_io_encoding.Tags.Keys.MetaKey.{meta_key, meta_key_type-Agrees, IsMetaKey}
use tux_io_encoding.Types.Text.{IsString, string_type-Agrees}
use tux_io_encoding.Types.Utf8.{IsUtf8-ascii}
use tux_io_encoding.Compression.{no_compression}
use tux_io_encoding.Header.{ObjectHeader, header_type}
use tux_io_encoding.Header.Codec.{IsHeader, encode_header, write_header_lem}
use tux_io_encoding.Fs.Layout.{SectionLayout}
use tux_io_encoding.Fs.Prefix.{encode_prefix}
use tux_io_encoding.Fs.Prefix.Encode.{padded, encode_prefix-padded}
use tux_io_encoding.Types.Limit.{count_is_allowed, length_is_allowed}
use tux_io_encoding.Types.Number.{u16_type, u32_type, u8_type}
use tux_io_encoding.Tags.{write_entries}
use tux_io_encoding.Tags.Keys.MetaKey.{meta_key_type}
use tux_io_encoding.Value.{value_type}
use tux_io_encoding.Types.Text.{string_type}
use tux_io_encoding.Word.Endian.{to_le_bytes}
use tux_io_encoding.Types.Scalar.{bool_type}
use tux_io_encoding.Map.{lookup}
use tux_io_encoding.Io.{Bytes}
use tux_io_encoding.Tags.{Tags}
use tux_io_encoding.Tags.Keys.Text.{bytes_eq, string_key}
use tux_io_encoding.Tags.{tags_type}
use tux_io_encoding.Tags.Keys.MetaKey.{HeaderNames}
use tux_io_encoding.Value.{string, u8, u32, bool}
use tux_io_encoding.Fs.Prefix.{metadata_type}

pub data Name : Type 0 where
  etag age plain_length : Name

abbrev pub name_text : Name → Bytes
name_text etag = 0x65 ∷ 0x74 ∷ 0x61 ∷ 0x67 ∷ []
name_text age = 0x61 ∷ 0x67 ∷ 0x65 ∷ []
name_text plain_length = uncompressed_length_name

unfoldable pub name_of_bytes : Bytes → Option Name
unfolding bytes_eq
name_of_bytes bs =
    if bytes_eq bs (name_text etag)
    then some etag
    else if bytes_eq bs (name_text age)
    then some age
    else if bytes_eq bs (name_text plain_length)
    then some plain_length
    else none

abbrev same_name : Name → Name → Bool
same_name etag etag = true
same_name age age = true
same_name plain_length plain_length = true
same_name _ _ = false

pub same_name_iff : (a b : Name) → (same_name a b ≡ true) ↔ (a ≡ b)
same_name_iff etag etag = ground arith
same_name_iff etag age = ground arith
same_name_iff age etag = ground arith
same_name_iff age age = ground arith
same_name_iff etag plain_length = ground arith
same_name_iff age plain_length = ground arith
same_name_iff plain_length etag = ground arith
same_name_iff plain_length age = ground arith
same_name_iff plain_length plain_length = ground arith

pub name_of_bytes-text : (n : Name) → name_of_bytes (name_text n) ≡ some n
unfolding name_of_bytes
name_of_bytes-text etag = refl
name_of_bytes-text age = refl
name_of_bytes-text plain_length = refl

pub AreBytes-name_text : (n : Name) → All (λ b. b < 256) (name_text n)
AreBytes-name_text etag = omega arith
AreBytes-name_text age = omega arith
AreBytes-name_text plain_length = omega arith

abbrev pub names : HeaderNames Name
names = record {
  as_str = name_text;
  of_bytes = name_of_bytes;
  name_eq = record { same = same_name; same_iff = same_name_iff };
  of_bytes-as_str = name_of_bytes-text;
  AreBytes-as_str = AreBytes-name_text;
}

abbrev pub some_metadata : Tags Name
some_metadata = (etag, string (0x78 ∷ [])) ∷ (age, u8 200) ∷ []

abbrev pub size_key : Bytes
size_key = 0x73 ∷ 0x69 ∷ 0x7a ∷ 0x65 ∷ []

abbrev pub some_tags : Tags Bytes
some_tags = (size_key, u32 7) ∷ (0x6f ∷ 0x6b ∷ [], bool true) ∷ []

abbrev pub metadata_bytes : Bytes
metadata_bytes =
    2 ∷ 0 ∷ 4 ∷ 0 ∷ 101 ∷ 116 ∷ 97 ∷ 103 ∷ 12 ∷ 1 ∷ 0 ∷ 120 ∷ 3 ∷ 0 ∷ 97 ∷ 103 ∷ 101 ∷ 0 ∷ 200 ∷ []

abbrev pub tags_bytes : Bytes
tags_bytes =
    2 ∷ 0 ∷ 4 ∷ 0 ∷ 115 ∷ 105 ∷ 122 ∷ 101 ∷ 2 ∷ 7 ∷ 0 ∷ 0 ∷ 0 ∷ 2 ∷ 0 ∷ 111 ∷ 107 ∷ 10 ∷ 1 ∷ []

pub some_metadata-write : (metadata_type names).write some_metadata ≡ ok metadata_bytes
unfolding tags_type count_is_allowed u16_type write_entries meta_key_type length_is_allowed
    value_type string_type u8_type to_le_bytes
some_metadata-write = refl

pub some_tags-write : (tags_type string_key).write some_tags ≡ ok tags_bytes
unfolding tags_type count_is_allowed u16_type write_entries string_type length_is_allowed value_type
    u32_type bool_type to_le_bytes
some_tags-write = refl

pub some_metadata-IsTags :
    IsTags (meta_key names) (IsMetaKey names) (meta_key_type-Agrees names) some_metadata
unfolding lookup
some_metadata-IsTags = record {
  entries = (
    (tt, ((omega arith, tt), IsUtf8-ascii (0x78 ∷ []) (omega arith, tt))),
    ((tt, omega arith), tt),
  );
  distinct = (refl, (refl, tt));
}

pub some_tags-IsTags : IsTags string_key IsString string_type-Agrees some_tags
unfolding lookup bytes_eq
some_tags-IsTags = record {
  entries = (
    ((omega arith, IsUtf8-ascii size_key (omega arith)), omega arith),
    (((omega arith, IsUtf8-ascii (0x6f ∷ 0x6b ∷ []) (omega arith)), tt), tt),
  );
  distinct = (refl, (refl, tt));
}

abbrev pub some_header : ObjectHeader
some_header = record {
  version = 0;
  compression = no_compression;
  tags_start = 64;
  content_start = 96;
  content_length = 3;
  bit_flags = 0;
}

pub some_header-IsHeader : IsHeader some_header
some_header-IsHeader = record {
  is_current = refl;
  compression_valid = tt;
  tags_start_fits = omega arith;
  content_start_fits = omega arith;
  content_length_fits = omega arith;
  bit_flags_fit = omega arith;
}

abbrev pub some_layout : SectionLayout
some_layout = record { tags_start = 64; content_start = 96 }

abbrev pub some_prefix : Bytes
some_prefix = padded (encode_header some_header) metadata_bytes tags_bytes 13 13

pub some_prefix-length : length some_prefix ≡ 96
unfolding to_le_bytes
some_prefix-length = refl

pub some_prefix-encode :
    encode_prefix names some_header some_metadata some_tags some_layout ≡ ok some_prefix
unfolding header_type to_le_bytes tags_type meta_key_type value_type string_type u8_type u32_type
    bool_type
some_prefix-encode =
    encode_prefix-padded names some_header some_metadata some_tags some_layout
      (encode_header some_header) metadata_bytes tags_bytes 13 13 (write_header_lem some_header)
      some_metadata-write some_tags-write (refl) refl refl refl refl
