-- ===== src/Value.antt =====
-- value.rs, with what the derive `ValueEnum` of macros/src/value_enum generates for it: a type key, then the value.
-- The build is the default one, without the feature `uuid`. Strings are their bytes, floats their bit patterns.
pub mod Variant
pub mod Codec
pub mod Arms
use tux_io_encoding.Prelude.{ℕ, ◌+◌, Bool, Option, none, some, ◌∷◌, ◌==◌, if◌then◌else◌}
use tux_io_encoding.Error.{EncodingError, unknown_type_key, Result, ok, err, ◌>>=◌, ◌>>◌}
use tux_io_encoding.Io.{Read, Bytes, Cursor, on_cursor}
use tux_io_encoding.Codec.{ObjectType, TypedObjectType, read_whole, skip_by_reading}
use tux_io_encoding.Word.Signed.{ℤ}
use tux_io_encoding.Types.Number.{
  u8_type, u16_type, u32_type, u64_type, i8_type, i16_type, i32_type, i64_type, f32_type, f64_type,
}
use tux_io_encoding.Types.Text.{string_type}
use tux_io_encoding.Types.Block.ByteVec.{byte_vec_type}
use tux_io_encoding.Types.Scalar.{bool_type}
use tux_io_encoding.Types.Time.Date.{RawDate, RawTime, date_type, time_type}
use tux_io_encoding.Types.Time.DateTime.{RawDateTime, date_time_type}

pub data ValueType : Type 0 where
  string bytes : Bytes → ValueType
  bool : Bool → ValueType
  u8 u16 u32 u64 : ℕ → ValueType
  i8 i16 i32 i64 : ℤ → ValueType
  f32 f64 : ℕ → ValueType
  date : RawDate → ValueType
  time : RawTime → ValueType
  raw_date_time : RawDateTime → ValueType

unfoldable pub as_str : ValueType → Option Bytes
as_str (string s) = some s
as_str _ = none

-- The arms that the derive generates for a variant over an inner type: the key counts one byte, and is written and read in
-- front of the value.
module _ {A : Type 0} (t : TypedObjectType A) where
  abbrev pub variant_const_size : A → Option ℕ
  variant_const_size v = elim (t.const_size v) [ none ↦ none | some size ↦ some (size + 1) ]

  abbrev pub variant_size : A → ℕ
  variant_size v = t.size v + 1

  abbrev pub write_variant : A → Result EncodingError Bytes
  write_variant v = do bs ← t.write v; ok (t.type_key ∷ bs)

  abbrev pub read_variant : (A → ValueType) → Read ValueType
  read_variant variant input = do (v, input) ← t.read input; ok (variant v, input)

  abbrev pub measure_variant : Cursor → Result EncodingError (ℕ × Cursor)
  measure_variant c = do (size, c) ← t.read_size c; ok (size + 1, c)

unfoldable pub value_const_size : ValueType → Option ℕ
value_const_size (string v) = variant_const_size string_type v
value_const_size (bytes v) = variant_const_size byte_vec_type v
value_const_size (bool v) = variant_const_size bool_type v
value_const_size (u8 v) = variant_const_size u8_type v
value_const_size (u16 v) = variant_const_size u16_type v
value_const_size (u32 v) = variant_const_size u32_type v
value_const_size (u64 v) = variant_const_size u64_type v
value_const_size (i8 v) = variant_const_size i8_type v
value_const_size (i16 v) = variant_const_size i16_type v
value_const_size (i32 v) = variant_const_size i32_type v
value_const_size (i64 v) = variant_const_size i64_type v
value_const_size (f32 v) = variant_const_size f32_type v
value_const_size (f64 v) = variant_const_size f64_type v
value_const_size (date v) = variant_const_size date_type v
value_const_size (time v) = variant_const_size time_type v
value_const_size (raw_date_time v) = variant_const_size date_time_type v

unfoldable pub value_size : ValueType → ℕ
value_size (string v) = variant_size string_type v
value_size (bytes v) = variant_size byte_vec_type v
value_size (bool v) = variant_size bool_type v
value_size (u8 v) = variant_size u8_type v
value_size (u16 v) = variant_size u16_type v
value_size (u32 v) = variant_size u32_type v
value_size (u64 v) = variant_size u64_type v
value_size (i8 v) = variant_size i8_type v
value_size (i16 v) = variant_size i16_type v
value_size (i32 v) = variant_size i32_type v
value_size (i64 v) = variant_size i64_type v
value_size (f32 v) = variant_size f32_type v
value_size (f64 v) = variant_size f64_type v
value_size (date v) = variant_size date_type v
value_size (time v) = variant_size time_type v
value_size (raw_date_time v) = variant_size date_time_type v

unfoldable pub write_value : ValueType → Result EncodingError Bytes
write_value (string v) = write_variant string_type v
write_value (bytes v) = write_variant byte_vec_type v
write_value (bool v) = write_variant bool_type v
write_value (u8 v) = write_variant u8_type v
write_value (u16 v) = write_variant u16_type v
write_value (u32 v) = write_variant u32_type v
write_value (u64 v) = write_variant u64_type v
write_value (i8 v) = write_variant i8_type v
write_value (i16 v) = write_variant i16_type v
write_value (i32 v) = write_variant i32_type v
write_value (i64 v) = write_variant i64_type v
write_value (f32 v) = write_variant f32_type v
write_value (f64 v) = write_variant f64_type v
write_value (date v) = write_variant date_type v
write_value (time v) = write_variant time_type v
write_value (raw_date_time v) = write_variant date_time_type v

unfoldable pub read_by_key : ℕ → Read ValueType
unfolding string_type byte_vec_type bool_type u8_type u16_type u32_type u64_type i8_type i16_type
    i32_type i64_type f32_type f64_type date_type time_type date_time_type
read_by_key type_key input =
    if type_key == string_type.type_key
    then read_variant string_type string input
    else if type_key == byte_vec_type.type_key
    then read_variant byte_vec_type bytes input
    else if type_key == bool_type.type_key
    then read_variant bool_type bool input
    else if type_key == u8_type.type_key
    then read_variant u8_type u8 input
    else if type_key == u16_type.type_key
    then read_variant u16_type u16 input
    else if type_key == u32_type.type_key
    then read_variant u32_type u32 input
    else if type_key == u64_type.type_key
    then read_variant u64_type u64 input
    else if type_key == i8_type.type_key
    then read_variant i8_type i8 input
    else if type_key == i16_type.type_key
    then read_variant i16_type i16 input
    else if type_key == i32_type.type_key
    then read_variant i32_type i32 input
    else if type_key == i64_type.type_key
    then read_variant i64_type i64 input
    else if type_key == f32_type.type_key
    then read_variant f32_type f32 input
    else if type_key == f64_type.type_key
    then read_variant f64_type f64 input
    else if type_key == date_type.type_key
    then read_variant date_type date input
    else if type_key == time_type.type_key
    then read_variant time_type time input
    else if type_key == date_time_type.type_key
    then read_variant date_time_type raw_date_time input
    else err (unknown_type_key type_key)

unfoldable pub measure_by_key : ℕ → Cursor → Result EncodingError (ℕ × Cursor)
unfolding string_type byte_vec_type bool_type u8_type u16_type u32_type u64_type i8_type i16_type
    i32_type i64_type f32_type f64_type date_type time_type date_time_type
measure_by_key type_key c =
    if type_key == string_type.type_key
    then measure_variant string_type c
    else if type_key == byte_vec_type.type_key
    then measure_variant byte_vec_type c
    else if type_key == bool_type.type_key
    then measure_variant bool_type c
    else if type_key == u8_type.type_key
    then measure_variant u8_type c
    else if type_key == u16_type.type_key
    then measure_variant u16_type c
    else if type_key == u32_type.type_key
    then measure_variant u32_type c
    else if type_key == u64_type.type_key
    then measure_variant u64_type c
    else if type_key == i8_type.type_key
    then measure_variant i8_type c
    else if type_key == i16_type.type_key
    then measure_variant i16_type c
    else if type_key == i32_type.type_key
    then measure_variant i32_type c
    else if type_key == i64_type.type_key
    then measure_variant i64_type c
    else if type_key == f32_type.type_key
    then measure_variant f32_type c
    else if type_key == f64_type.type_key
    then measure_variant f64_type c
    else if type_key == date_type.type_key
    then measure_variant date_type c
    else if type_key == time_type.type_key
    then measure_variant time_type c
    else if type_key == date_time_type.type_key
    then measure_variant date_time_type c
    else err (unknown_type_key type_key)

unfoldable pub read_value : Read ValueType
read_value input = do (type_key, input) ← u8_type.read input; read_by_key type_key input

unfoldable pub measure_value : Cursor → Result EncodingError (ℕ × Cursor)
measure_value c = do (type_key, c) ← on_cursor u8_type.read c; measure_by_key type_key c

unfoldable pub value_type : ObjectType ValueType
unfolding value_const_size value_size write_value read_value measure_value
value_type = record {
  const_size = value_const_size;
  size = value_size;
  write = write_value;
  read = read_value;
  read_from_bytes = read_whole read_value;
  read_size = measure_value;
  skip = skip_by_reading read_value;
}
