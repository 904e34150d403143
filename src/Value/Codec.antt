-- ===== src/Value/Codec.antt =====
-- `ValueType` keeps the invariant of the traits, on every variant.
use tux_io_encoding.Prelude.{ℕ, ◌^◌, ◌≡◌, refl, sym, ap, ◌∙◌, some, ◌++◌, length}
use tux_io_encoding.Error.{ok}
use tux_io_encoding.Io.{Bytes, AreBytes, between}
use tux_io_encoding.Io.{between-append}
use tux_io_encoding.Codec.{skip_by_reading-between, TypedObjectType, Agrees, read_whole-append}
use tux_io_encoding.Word.Signed.{IsSigned}
use tux_io_encoding.Types.Number.{
  u8_type, u16_type, u32_type, u64_type, i8_type, i16_type, i32_type, i64_type, f32_type, f64_type,
}
use tux_io_encoding.Types.Number.{IsUnsigned}
use tux_io_encoding.Types.Number.Agreement.{
  u8_type-Agrees, u16_type-Agrees, u32_type-Agrees, u64_type-Agrees, i8_type-Agrees,
  i16_type-Agrees, i32_type-Agrees, i64_type-Agrees, f32_type-Agrees, f64_type-Agrees,
}
use tux_io_encoding.Types.Text.{string_type, IsString, string_type-Agrees}
use tux_io_encoding.Types.Block.ByteVec.{byte_vec_type, byte_vec_type-Agrees}
use tux_io_encoding.Types.Scalar.{bool_type, IsBool, IsBool-Agrees}
use tux_io_encoding.Types.Time.Date.{
  date_type, time_type, IsDate, IsTime, IsDate-Agrees, IsTime-Agrees,
}
use tux_io_encoding.Types.Time.DateTime.{date_time_type, IsDateTime, IsDateTime-Agrees}
use tux_io_encoding.Value.{ValueType, variant_size, write_variant}
use tux_io_encoding.Value.{
  read_value, measure_value, value_type, value_const_size, value_size, write_value,
}
use tux_io_encoding.Value.{
  string, bytes, bool, u8, u16, u32, u64, i8, i16, i32, i64, f32, f64, date, time, raw_date_time,
}
use tux_io_encoding.Value.Variant.{variant-constant, variant-shape, variant-read, variant-measure}
use tux_io_encoding.Value.Arms.{
  Arm, IsValue, string_arm, bytes_arm, bool_arm, u8_arm, u16_arm, u32_arm, u64_arm, i8_arm, i16_arm,
  i32_arm, i64_arm, f32_arm, f64_arm, date_arm, time_arm, raw_date_time_arm,
}

-- The invariant at one value.
record Holds (v : ValueType) : Type 0 where
  shape : (bs : Bytes) → write_value v ≡ ok bs → AreBytes bs × (length bs ≡ value_size v)
  decoded : (bs rest : Bytes) → write_value v ≡ ok bs → read_value (bs ++ rest) ≡ ok (v, rest)
  measured :
      (front bs rest : Bytes)
      → write_value v ≡ ok bs
      → (p : ℕ) × (measure_value (between front (bs ++ rest))
          ≡ ok (value_size v, record { bytes = front ++ (bs ++ rest); position = p }))

Arm-Holds :
    {A : Type 0} (t : TypedObjectType A) (variant : A → ValueType) (IsValid : A → Type 0)
    → Arm t variant IsValid
    → (v : A) → IsValid v
    → value_size (variant v) ≡ variant_size t v
    → write_value (variant v) ≡ write_variant t v
    → Holds (variant v)
Arm-Holds t variant IsValid arm v valid size write = record {
  shape = λ bs h. rw size (
      variant-shape t variant IsValid arm.law arm.key_fits arm.reads arm.measures v valid bs
        (sym write ∙ h));
  decoded = λ bs rest h.
      variant-read t variant IsValid arm.law arm.key_fits arm.reads arm.measures v valid bs rest
        (sym write ∙ h);
  measured = λ front bs rest h. rw size (
      variant-measure t variant IsValid arm.law arm.key_fits arm.reads arm.measures v valid front bs
        rest (sym write ∙ h));
}

value-Holds : (v : ValueType) → IsValue v → Holds v
unfolding value_size write_value
value-Holds (string v) valid = Arm-Holds string_type string IsString string_arm v valid refl refl
value-Holds (bytes v) valid = Arm-Holds byte_vec_type bytes AreBytes bytes_arm v valid refl refl
value-Holds (bool v) valid = Arm-Holds bool_type bool IsBool bool_arm v valid refl refl
value-Holds (u8 v) valid = Arm-Holds u8_type u8 (IsUnsigned 1) u8_arm v valid refl refl
value-Holds (u16 v) valid = Arm-Holds u16_type u16 (IsUnsigned 2) u16_arm v valid refl refl
value-Holds (u32 v) valid = Arm-Holds u32_type u32 (IsUnsigned 4) u32_arm v valid refl refl
value-Holds (u64 v) valid = Arm-Holds u64_type u64 (IsUnsigned 8) u64_arm v valid refl refl
value-Holds (i8 v) valid = Arm-Holds i8_type i8 (IsSigned (2 ^ 7)) i8_arm v valid refl refl
value-Holds (i16 v) valid = Arm-Holds i16_type i16 (IsSigned (2 ^ 15)) i16_arm v valid refl refl
value-Holds (i32 v) valid = Arm-Holds i32_type i32 (IsSigned (2 ^ 31)) i32_arm v valid refl refl
value-Holds (i64 v) valid = Arm-Holds i64_type i64 (IsSigned (2 ^ 63)) i64_arm v valid refl refl
value-Holds (f32 v) valid = Arm-Holds f32_type f32 (IsUnsigned 4) f32_arm v valid refl refl
value-Holds (f64 v) valid = Arm-Holds f64_type f64 (IsUnsigned 8) f64_arm v valid refl refl
value-Holds (date v) valid = Arm-Holds date_type date IsDate date_arm v valid refl refl
value-Holds (time v) valid = Arm-Holds time_type time IsTime time_arm v valid refl refl
value-Holds (raw_date_time v) valid =
    Arm-Holds date_time_type raw_date_time IsDateTime raw_date_time_arm v valid refl refl

value-constant : (v : ValueType) (n : ℕ) → value_const_size v ≡ some n → n ≡ value_size v
unfolding value_const_size value_size
value-constant (string v) n h = variant-constant string_type IsString string_type-Agrees v n h
value-constant (bytes v) n h = variant-constant byte_vec_type AreBytes byte_vec_type-Agrees v n h
value-constant (bool v) n h = variant-constant bool_type IsBool IsBool-Agrees v n h
value-constant (u8 v) n h = variant-constant u8_type (IsUnsigned 1) u8_type-Agrees v n h
value-constant (u16 v) n h = variant-constant u16_type (IsUnsigned 2) u16_type-Agrees v n h
value-constant (u32 v) n h = variant-constant u32_type (IsUnsigned 4) u32_type-Agrees v n h
value-constant (u64 v) n h = variant-constant u64_type (IsUnsigned 8) u64_type-Agrees v n h
value-constant (i8 v) n h = variant-constant i8_type (IsSigned (2 ^ 7)) i8_type-Agrees v n h
value-constant (i16 v) n h = variant-constant i16_type (IsSigned (2 ^ 15)) i16_type-Agrees v n h
value-constant (i32 v) n h = variant-constant i32_type (IsSigned (2 ^ 31)) i32_type-Agrees v n h
value-constant (i64 v) n h = variant-constant i64_type (IsSigned (2 ^ 63)) i64_type-Agrees v n h
value-constant (f32 v) n h = variant-constant f32_type (IsUnsigned 4) f32_type-Agrees v n h
value-constant (f64 v) n h = variant-constant f64_type (IsUnsigned 8) f64_type-Agrees v n h
value-constant (date v) n h = variant-constant date_type IsDate IsDate-Agrees v n h
value-constant (time v) n h = variant-constant time_type IsTime IsTime-Agrees v n h
value-constant (raw_date_time v) n h =
    variant-constant date_time_type IsDateTime IsDateTime-Agrees v n h

-- The invariant holds of `ValueType`.
pub value_type-Agrees : Agrees value_type IsValue
unfolding value_type
value_type-Agrees = record {
  constant = value-constant;
  encoded = λ v bs valid h. ((value-Holds v valid).shape bs h).0;
  sized = λ v bs valid h. ((value-Holds v valid).shape bs h).1;
  decoded = λ v bs rest valid h. (value-Holds v valid).decoded bs rest h;
  parsed = λ v bs rest valid h.
      read_whole-append read_value bs rest v ((value-Holds v valid).decoded bs rest h);
  measured = λ v front bs rest valid h. (value-Holds v valid).measured front bs rest h;
}

-- Skipping a valid value that was encoded moves the cursor from its first byte to behind its last.
pub value-skip :
    (v : ValueType) (front bs rest : Bytes)
    → IsValue v
    → value_type.write v ≡ ok bs
    → value_type.skip (between front (bs ++ rest)) ≡ ok (between (front ++ bs) rest)
unfolding value_type
value-skip v front bs rest valid h =
    skip_by_reading-between read_value front bs rest v ((value-Holds v valid).decoded bs rest h)
    ∙ ap ok (between-append front bs rest)
