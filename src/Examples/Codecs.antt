-- ===== src/Examples/Codecs.antt =====
-- The round trips and the refusals of the codecs at concrete values.
use tux_io_encoding.Prelude.{ℕ, ◌≡◌, refl, true, false, [], ◌∷◌, ◌++◌, arith, length}
use tux_io_encoding.Error.{ok}
use tux_io_encoding.Types.Utf8.{is_utf8}
use tux_io_encoding.Word.Endian.{from_le_bytes}
use tux_io_encoding.Types.Utf8.{from_utf8}
use tux_io_encoding.Io.{read_exact}
use tux_io_encoding.Io.{Bytes}
use tux_io_encoding.Types.Limit.{length_is_allowed}
use tux_io_encoding.Types.Number.{u16_type}
use tux_io_encoding.Word.Endian.{to_le_bytes}
use tux_io_encoding.Codec.{Writes, Encodes}
use tux_io_encoding.RoundTrips.{
  string-round_trip, compression-round_trip, header-round_trip, value-round_trip, tags-round_trip,
  meta_key-round_trip,
}
use tux_io_encoding.Word.Signed.{negsuc}
use tux_io_encoding.Types.Text.{string_type, IsString, string_type-Agrees}
use tux_io_encoding.Types.Utf8.{IsUtf8-ascii}
use tux_io_encoding.Types.Block.Array.{array_type}
use tux_io_encoding.Compression.{zstd, compression_type}
use tux_io_encoding.Header.{header_type}
use tux_io_encoding.Value.{value_type, string}
use tux_io_encoding.Tags.{tags_type}
use tux_io_encoding.Tags.Keys.Text.{string_key}
use tux_io_encoding.Tags.Keys.MetaKey.{meta_key_type}
use tux_io_encoding.Types.Canonical.{string-read_canonical, array-read_canonical}
use tux_io_encoding.Examples.Data.{
  names, etag, some_tags, tags_bytes, some_tags-write, some_tags-IsTags, some_header,
  some_header-IsHeader, size_key,
}

string-round_trip_example : Writes string_type.object size_key (9 ∷ []) (8 ∷ [])
string-round_trip_example =
    string-round_trip size_key (9 ∷ []) (8 ∷ []) (omega arith, IsUtf8-ascii size_key (omega arith))
      (omega arith)

compression-round_trip_example : Writes compression_type (zstd (negsuc 6)) [] (8 ∷ [])
compression-round_trip_example = compression-round_trip (zstd (negsuc 6)) [] (8 ∷ []) (omega arith)

header-round_trip_example : Writes header_type some_header [] (8 ∷ [])
header-round_trip_example = header-round_trip some_header [] (8 ∷ []) some_header-IsHeader

value-round_trip_example :
    Encodes value_type (string (0x6f ∷ 0x6b ∷ [])) (12 ∷ 2 ∷ 0 ∷ 0x6f ∷ 0x6b ∷ []) (9 ∷ []) (8 ∷ [])
unfolding value_type string_type length_is_allowed u16_type to_le_bytes
value-round_trip_example =
    value-round_trip (string (0x6f ∷ 0x6b ∷ [])) (12 ∷ 2 ∷ 0 ∷ 0x6f ∷ 0x6b ∷ []) (9 ∷ []) (8 ∷ [])
      (omega arith, IsUtf8-ascii (0x6f ∷ 0x6b ∷ []) (omega arith)) refl

tags-round_trip_example : Encodes (tags_type string_key) some_tags tags_bytes (9 ∷ []) (8 ∷ [])
tags-round_trip_example =
    tags-round_trip string_key IsString string_type-Agrees some_tags tags_bytes (9 ∷ []) (8 ∷ [])
      some_tags-IsTags some_tags-write

meta_key-round_trip_example :
    Encodes (meta_key_type names).object etag (4 ∷ 0 ∷ 101 ∷ 116 ∷ 97 ∷ 103 ∷ []) [] (8 ∷ [])
unfolding meta_key_type length_is_allowed u16_type to_le_bytes
meta_key-round_trip_example =
    meta_key-round_trip names etag (4 ∷ 0 ∷ 101 ∷ 116 ∷ 97 ∷ 103 ∷ []) [] (8 ∷ []) refl

string-read_canonical_example :
    (bs : Bytes) × (string_type.write (0x6f ∷ 0x6b ∷ []) ≡ ok bs)
    × ((2 ∷ 0 ∷ 0x6f ∷ 0x6b ∷ 8 ∷ []) ≡ bs ++ (8 ∷ []))
    × IsString (0x6f ∷ 0x6b ∷ [])
unfolding string_type u16_type read_exact from_le_bytes from_utf8
string-read_canonical_example =
    string-read_canonical (2 ∷ 0 ∷ 0x6f ∷ 0x6b ∷ 8 ∷ []) (0x6f ∷ 0x6b ∷ []) (8 ∷ []) (omega arith)
      refl

array-read_canonical_example :
    (bs : Bytes) × ((array_type 2).write (7 ∷ 5 ∷ []) ≡ ok bs)
    × ((2 ∷ 0 ∷ 7 ∷ 5 ∷ 8 ∷ []) ≡ bs ++ (8 ∷ []))
    × (length {A = ℕ} (7 ∷ 5 ∷ []) ≡ 2)
unfolding array_type u16_type read_exact from_le_bytes
array-read_canonical_example =
    array-read_canonical 2 (2 ∷ 0 ∷ 7 ∷ 5 ∷ 8 ∷ []) (7 ∷ 5 ∷ []) (8 ∷ []) (omega arith) refl

-- A test: the two-character text of lib.rs, a lone continuation byte, a surrogate and an overlong form.
is_utf8_cases :
    (is_utf8 (0xe5 ∷ 0x86 ∷ 0x99 ∷ 0xe7 ∷ 0x9c ∷ 0x9f ∷ []) ≡ true)
    × (is_utf8 (0x80 ∷ []) ≡ false)
    × (is_utf8 (0xed ∷ 0xa0 ∷ 0x80 ∷ []) ≡ false)
    × (is_utf8 (0xc0 ∷ 0x80 ∷ []) ≡ false)
    × (is_utf8 (0xe5 ∷ 0x86 ∷ []) ≡ false)
unfolding is_utf8
is_utf8_cases = (refl, refl, refl, refl, refl)
