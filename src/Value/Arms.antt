-- ===== src/Value/Arms.antt =====
-- The arms of the readers that the derive generates for `ValueType`: each key leads to its variant.
use tux_io_encoding.Prelude.{◌^◌, ◌<◌, ◌≡◌, refl, arith}
use tux_io_encoding.Io.{Bytes, AreBytes, Cursor}
use tux_io_encoding.Codec.{TypedObjectType, Agrees}
use tux_io_encoding.Word.Signed.{IsSigned}
use tux_io_encoding.Types.Number.{
  u8_type, u16_type, u32_type, u64_type, i8_type, i16_type, i32_type, i64_type, f32_type, f64_type,
}
use tux_io_encoding.Types.Number.{IsUnsigned}
use tux_io_encoding.Types.Number.Agreement.{
  u8_type-Agrees, u16_type-Agrees, u32_type-Agrees, u64_type-Agrees, i8_type-Agrees,
  i16_type-Agrees, i32_type-Agrees, i64_type-Agrees, f32_type-Agrees, f64_type-Agrees,
}
use tux_io_encoding.Types.Text.{string_type, IsString, string_type-Agrees}
use tux_io_encoding.Types.Block.ByteVec.{byte_vec_type, byte_vec_type-Agrees}
use tux_io_encoding.Types.Scalar.{bool_type, IsBool, IsBool-Agrees}
use tux_io_encoding.Types.Time.Date.{
  date_type, time_type, IsDate, IsTime, IsDate-Agrees, IsTime-Agrees,
}
use tux_io_encoding.Types.Time.DateTime.{date_time_type, IsDateTime, IsDateTime-Agrees}
use tux_io_encoding.Value.{ValueType, read_variant, measure_variant}
use tux_io_encoding.Value.{read_by_key, measure_by_key}
use tux_io_encoding.Value.{
  string, bytes, bool, u8, u16, u32, u64, i8, i16, i32, i64, f32, f64, date, time, raw_date_time,
}

-- The values of the Rust type.
abbrev pub IsValue : ValueType → Type 0
IsValue (string v) = IsString v
IsValue (bytes v) = AreBytes v
IsValue (bool v) = IsBool v
IsValue (u8 v) = IsUnsigned 1 v
IsValue (u16 v) = IsUnsigned 2 v
IsValue (u32 v) = IsUnsigned 4 v
IsValue (u64 v) = IsUnsigned 8 v
IsValue (i8 v) = IsSigned (2 ^ 7) v
IsValue (i16 v) = IsSigned (2 ^ 15) v
IsValue (i32 v) = IsSigned (2 ^ 31) v
IsValue (i64 v) = IsSigned (2 ^ 63) v
IsValue (f32 v) = IsUnsigned 4 v
IsValue (f64 v) = IsUnsigned 8 v
IsValue (date v) = IsDate v
IsValue (time v) = IsTime v
IsValue (raw_date_time v) = IsDateTime v

-- What makes a variant readable: its inner type keeps the invariant, and its key leads the readers to it.
pub record Arm {A : Type 0} (t : TypedObjectType A) (variant : A → ValueType) (IsValid : A → Type 0)
    : Type 0 where
  pub law : Agrees t.object IsValid
  pub key_fits : t.type_key < 256
  pub reads : (input : Bytes) → read_by_key t.type_key input ≡ read_variant t variant input
  pub measures : (c : Cursor) → measure_by_key t.type_key c ≡ measure_variant t c

arm_of :
    {A : Type 0} {t : TypedObjectType A} {variant : A → ValueType} {IsValid : A → Type 0}
    → Agrees t.object IsValid
    → t.type_key < 256
    → ((input : Bytes) → read_by_key t.type_key input ≡ read_variant t variant input)
    → ((c : Cursor) → measure_by_key t.type_key c ≡ measure_variant t c)
    → Arm t variant IsValid
arm_of law key_fits reads measures = record {
  law = law;
  key_fits = key_fits;
  reads = reads;
  measures = measures;
}

pub string_arm : Arm string_type string IsString
unfolding read_by_key measure_by_key
string_arm = arm_of string_type-Agrees (omega arith) (λ input. refl) (λ c. refl)

pub bytes_arm : Arm byte_vec_type bytes AreBytes
unfolding read_by_key measure_by_key
bytes_arm = arm_of byte_vec_type-Agrees (omega arith) (λ input. refl) (λ c. refl)

pub bool_arm : Arm bool_type bool IsBool
unfolding read_by_key measure_by_key
bool_arm = arm_of IsBool-Agrees (omega arith) (λ input. refl) (λ c. refl)

pub u8_arm : Arm u8_type u8 (IsUnsigned 1)
unfolding read_by_key measure_by_key
u8_arm = arm_of u8_type-Agrees (omega arith) (λ input. refl) (λ c. refl)

pub u16_arm : Arm u16_type u16 (IsUnsigned 2)
unfolding read_by_key measure_by_key
u16_arm = arm_of u16_type-Agrees (omega arith) (λ input. refl) (λ c. refl)

pub u32_arm : Arm u32_type u32 (IsUnsigned 4)
unfolding read_by_key measure_by_key
u32_arm = arm_of u32_type-Agrees (omega arith) (λ input. refl) (λ c. refl)

pub u64_arm : Arm u64_type u64 (IsUnsigned 8)
unfolding read_by_key measure_by_key
u64_arm = arm_of u64_type-Agrees (omega arith) (λ input. refl) (λ c. refl)

pub i8_arm : Arm i8_type i8 (IsSigned (2 ^ 7))
unfolding read_by_key measure_by_key
i8_arm = arm_of i8_type-Agrees (omega arith) (λ input. refl) (λ c. refl)

pub i16_arm : Arm i16_type i16 (IsSigned (2 ^ 15))
unfolding read_by_key measure_by_key
i16_arm = arm_of i16_type-Agrees (omega arith) (λ input. refl) (λ c. refl)

pub i32_arm : Arm i32_type i32 (IsSigned (2 ^ 31))
unfolding read_by_key measure_by_key
i32_arm = arm_of i32_type-Agrees (omega arith) (λ input. refl) (λ c. refl)

pub i64_arm : Arm i64_type i64 (IsSigned (2 ^ 63))
unfolding read_by_key measure_by_key
i64_arm = arm_of i64_type-Agrees (omega arith) (λ input. refl) (λ c. refl)

pub f32_arm : Arm f32_type f32 (IsUnsigned 4)
unfolding read_by_key measure_by_key
f32_arm = arm_of f32_type-Agrees (omega arith) (λ input. refl) (λ c. refl)

pub f64_arm : Arm f64_type f64 (IsUnsigned 8)
unfolding read_by_key measure_by_key
f64_arm = arm_of f64_type-Agrees (omega arith) (λ input. refl) (λ c. refl)

pub date_arm : Arm date_type date IsDate
unfolding read_by_key measure_by_key
date_arm = arm_of IsDate-Agrees (omega arith) (λ input. refl) (λ c. refl)

pub time_arm : Arm time_type time IsTime
unfolding read_by_key measure_by_key
time_arm = arm_of IsTime-Agrees (omega arith) (λ input. refl) (λ c. refl)

pub raw_date_time_arm : Arm date_time_type raw_date_time IsDateTime
unfolding read_by_key measure_by_key
raw_date_time_arm = arm_of IsDateTime-Agrees (omega arith) (λ input. refl) (λ c. refl)
