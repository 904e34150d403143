-- ===== src/Types/Number.antt =====
-- types/num.rs: the macro `number!`, and the ten types that it is called for. A float is its bit pattern, which is what
-- `to_le_bytes` writes.
pub mod Agreement
use tux_io_encoding.Prelude.{
  ℕ, ◌+◌, ◌%◌, ◌^◌, ◌≤◌, ◌<◌, ◌≡◌, refl, sym, some, ◌∷◌, ◌++◌, arith, ltb, if◌then◌else◌, le→ltb,
  length, take, length-append, take-append_eq,
}
use tux_io_encoding.Error.{EncodingError, Result, ok, panicked, ◌>>=◌, ok-injective}
use tux_io_encoding.Io.{between}
use tux_io_encoding.Io.{on_cursor, on_cursor-between, Bytes, read_exact, read_exact-append}
use tux_io_encoding.Codec.{Agrees_of_encoding, TypedObjectType, Agrees, skip_by_reading}
use tux_io_encoding.Word.Endian.{
  to_le_bytes, from_le_bytes, length-to_le_bytes, AreBytes-to_le_bytes,
}
use tux_io_encoding.Word.Endian.{from-to_le_bytes}
use tux_io_encoding.Word.Signed.{ℤ, to_bits, from_bits, IsSigned, from-to_bits, to_bits_bound}

module _ {A : Type 0} (width key : ℕ) (to_word : A → ℕ) (from_word : ℕ → A) where
  unfoldable pub read_number : Bytes → Result EncodingError (A × Bytes)
  read_number input = do
    (buffer, rest) ← read_exact width input
    ok (from_word (from_le_bytes buffer), rest)

  -- `bytes[..$size]` panics on a slice that is too short.
  unfoldable pub parse_number : Bytes → Result EncodingError A
  parse_number bytes =
      if ltb (length bytes) width
      then panicked
      else ok (from_word (from_le_bytes (take width bytes)))

  unfoldable pub number : TypedObjectType A
  unfolding read_number parse_number
  number = record {
    object = record {
      const_size = λ _. some width;
      size = λ _. width;
      write = λ v. ok (to_le_bytes width (to_word v));
      read = read_number;
      read_from_bytes = parse_number;
      read_size = λ c. ok (width, c);
      skip = skip_by_reading read_number;
    };
    type_key = key;
  }

abbrev pub word : ℕ → ℕ
word v = v

-- The values of an unsigned integer of `width` bytes.
abbrev pub IsUnsigned : ℕ → ℕ → Type 0
IsUnsigned width v = v < 256 ^ width

unfoldable pub unsigned : ℕ → ℕ → TypedObjectType ℕ
unfolding number
unsigned width key = number width key word word

-- `half` is half the range, as two's complement splits it.
unfoldable pub signed : ℕ → ℕ → ℕ → TypedObjectType ℤ
unfolding number
signed width half key = number width key (to_bits half) (from_bits half)

unfoldable pub u8_type : TypedObjectType ℕ
unfolding unsigned
u8_type = unsigned 1 0

unfoldable pub u16_type : TypedObjectType ℕ
unfolding unsigned
u16_type = unsigned 2 1

unfoldable pub u32_type : TypedObjectType ℕ
unfolding unsigned
u32_type = unsigned 4 2

unfoldable pub u64_type : TypedObjectType ℕ
unfolding unsigned
u64_type = unsigned 8 3

unfoldable pub f32_type : TypedObjectType ℕ
unfolding unsigned
f32_type = unsigned 4 8

unfoldable pub f64_type : TypedObjectType ℕ
unfolding unsigned
f64_type = unsigned 8 9

unfoldable pub i8_type : TypedObjectType ℤ
unfolding signed
i8_type = signed 1 (2 ^ 7) 4

unfoldable pub i16_type : TypedObjectType ℤ
unfolding signed
i16_type = signed 2 (2 ^ 15) 5

unfoldable pub i32_type : TypedObjectType ℤ
unfolding signed
i32_type = signed 4 (2 ^ 31) 6

unfoldable pub i64_type : TypedObjectType ℤ
unfolding signed
i64_type = signed 8 (2 ^ 63) 7
