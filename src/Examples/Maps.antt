-- ===== src/Examples/Maps.antt =====
-- The laws of maps and of the search in an encoded map at concrete maps.
use tux_io_encoding.Prelude.{ℕ, ◌≡◌, refl, [], ◌∷◌, ◌++◌, arith, length}
use tux_io_encoding.Error.{ok, map_ok}
use tux_io_encoding.Map.Encoded.{map_type, measure_map, map-read_back}
use tux_io_encoding.Types.Text.{string_type}
use tux_io_encoding.Types.Utf8.{IsUtf8-ascii}
use tux_io_encoding.Types.Number.{unsigned, IsUnsigned}
use tux_io_encoding.Types.Number.Agreement.{unsigned-Agrees}
use tux_io_encoding.Types.Limit.{count_is_allowed, length_is_allowed}
use tux_io_encoding.Types.Number.{u16_type}
use tux_io_encoding.Map.Encoded.{measure_pairs, write_pairs}
use tux_io_encoding.Word.Endian.{from_le_bytes, to_le_bytes}
use tux_io_encoding.Io.{on_cursor, read_exact, seek_current}
use tux_io_encoding.Io.{Cursor, between}
use tux_io_encoding.Map.{lookup}
use tux_io_encoding.Types.Text.{IsString, string_type-Agrees}
use tux_io_encoding.Tags.{find_from_reader}
use tux_io_encoding.Tags.Find.{find_from_reader-eq-lookup}
use tux_io_encoding.Tags.Keys.Text.{string_key, text_eq}
use tux_io_encoding.Examples.Data.{some_tags, tags_bytes, some_tags-write, some_tags-IsTags}

find_from_reader-eq-lookup_example :
    (c : Cursor) × (find_from_reader string_key
        (0x6f ∷ 0x6b ∷ [])
        (between (9 ∷ []) (tags_bytes ++ (8 ∷ [])))
      ≡ ok (lookup text_eq (0x6f ∷ 0x6b ∷ []) some_tags, c))
find_from_reader-eq-lookup_example =
    find_from_reader-eq-lookup string_key IsString string_type-Agrees (0x6f ∷ 0x6b ∷ []) some_tags
      (9 ∷ []) tags_bytes (8 ∷ []) some_tags-IsTags some_tags-write

map-read_back_example :
    (length {A = ℕ} (1 ∷ 0 ∷ 12 ∷ 0 ∷ 2 ∷ 0 ∷ 0x6f ∷ 0x6b ∷ 9 ∷ [])
      ≡ (map_type string_type (unsigned 1 0) text_eq).size ((0x6f ∷ 0x6b ∷ [], 9) ∷ []))
    × ((map_type string_type (unsigned 1 0) text_eq).read
          ((1 ∷ 0 ∷ 12 ∷ 0 ∷ 2 ∷ 0 ∷ 0x6f ∷ 0x6b ∷ 9 ∷ []) ++ (8 ∷ []))
        ≡ ok ((0x6f ∷ 0x6b ∷ [], 9) ∷ [], 8 ∷ []))
unfolding lookup string_type unsigned map_type count_is_allowed u16_type write_pairs
    length_is_allowed to_le_bytes
map-read_back_example =
    map-read_back string_type (unsigned 1 0) text_eq IsString (IsUnsigned 1) string_type-Agrees
      (unsigned-Agrees 1 0) ((0x6f ∷ 0x6b ∷ [], 9) ∷ [])
      (1 ∷ 0 ∷ 12 ∷ 0 ∷ 2 ∷ 0 ∷ 0x6f ∷ 0x6b ∷ 9 ∷ []) (8 ∷ [])
      (((omega arith, IsUtf8-ascii (0x6f ∷ 0x6b ∷ []) (omega arith)), omega arith), tt) (refl, tt)
      (omega arith) (omega arith) refl

-- A test: `read_size` of a map from `String` to `String` takes the two letters of the key for the length of the value.
measure_map_test :
    (map_ok
        (λ p. p.0)
        (measure_map string_type string_type text_eq
          (between [] (1 ∷ 0 ∷ 12 ∷ 12 ∷ 2 ∷ 0 ∷ 0x6f ∷ 0x6b ∷ 1 ∷ 0 ∷ 0x61 ∷ [])))
      ≡ ok 27513)
    × ((map_type string_type string_type text_eq).size ((0x6f ∷ 0x6b ∷ [], 0x61 ∷ []) ∷ []) ≡ 11)
unfolding measure_map on_cursor u16_type read_exact measure_pairs from_le_bytes string_type
    seek_current map_type
measure_map_test = (refl, refl)
