-- ===== src/Types/Time/Date.antt =====
-- `RawDate`, `RawTime` and `RawTimeZone`.
use tux_io_encoding.Prelude.{ℕ, ◌^◌, ◌≤◌, ◌<◌, ◌≡◌, refl, ◌++◌, append_assoc, arith, length}
use tux_io_encoding.Error.{EncodingError, Result, ok, ◌>>=◌}
use tux_io_encoding.Io.{Read, Bytes, AreBytes}
use tux_io_encoding.Codec.{TypedObjectType, Agrees}
use tux_io_encoding.Word.Endian.{to_le_bytes}
use tux_io_encoding.Word.Signed.{ℤ, to_bits, IsSigned}
use tux_io_encoding.Types.Number.{u8_type, u16_type, u32_type, i32_type}
use tux_io_encoding.Types.Number.Agreement.{u8-read, u16-read, u32-read, i32-read}
use tux_io_encoding.Types.Time.Derive.{fixed_type, fixed-Agrees}

pub record RawDate : Type 0 where
  pub year : ℕ
  pub month : ℕ
  pub day : ℕ

unfoldable pub write_date : RawDate → Result EncodingError Bytes
unfolding u16_type u8_type
write_date d = do
  year ← u16_type.write d.year
  month ← u8_type.write d.month
  day ← u8_type.write d.day
  ok (year ++ (month ++ day))

unfoldable pub read_date : Read RawDate
read_date input = do
  (year, input) ← u16_type.read input
  (month, input) ← u8_type.read input
  (day, input) ← u8_type.read input
  ok (record { year = year; month = month; day = day }, input)

unfoldable pub date_type : TypedObjectType RawDate
unfolding fixed_type
date_type = fixed_type 4 13 write_date read_date

pub record RawTime : Type 0 where
  pub seconds_from_midnight : ℕ
  pub nanoseconds : ℕ

unfoldable pub write_time : RawTime → Result EncodingError Bytes
unfolding u32_type
write_time t = do
  seconds_from_midnight ← u32_type.write t.seconds_from_midnight
  nanoseconds ← u32_type.write t.nanoseconds
  ok (seconds_from_midnight ++ nanoseconds)

unfoldable pub read_time : Read RawTime
read_time input = do
  (seconds_from_midnight, input) ← u32_type.read input
  (nanoseconds, input) ← u32_type.read input
  ok (record { seconds_from_midnight = seconds_from_midnight; nanoseconds = nanoseconds }, input)

unfoldable pub time_type : TypedObjectType RawTime
unfolding fixed_type
time_type = fixed_type 8 14 write_time read_time

pub record RawTimeZone : Type 0 where
  pub offset : ℤ

unfoldable pub write_zone : RawTimeZone → Result EncodingError Bytes
unfolding i32_type
write_zone z = i32_type.write z.offset

unfoldable pub read_zone : Read RawTimeZone
read_zone input = do (offset, input) ← i32_type.read input; ok (record { offset = offset }, input)

unfoldable pub zone_type : TypedObjectType RawTimeZone
unfolding fixed_type
zone_type = fixed_type 4 15 write_zone read_zone

-- The field ranges of the Rust types. The encoding does not ask that a date exists.
pub record IsDate (d : RawDate) : Type 0 where
  pub year_fits : d.year ≤ 65535
  pub month_fits : d.month < 256
  pub day_fits : d.day < 256

pub record IsTime (t : RawTime) : Type 0 where
  pub seconds_fit : t.seconds_from_midnight < 2 ^ 32
  pub nanoseconds_fit : t.nanoseconds < 2 ^ 32

abbrev pub IsZone : RawTimeZone → Type 0
IsZone z = IsSigned (2 ^ 31) z.offset

abbrev pub encode_date : RawDate → Bytes
encode_date d = to_le_bytes 2 d.year ++ (to_le_bytes 1 d.month ++ to_le_bytes 1 d.day)

abbrev pub encode_time : RawTime → Bytes
encode_time t = to_le_bytes 4 t.seconds_from_midnight ++ to_le_bytes 4 t.nanoseconds

abbrev pub encode_zone : RawTimeZone → Bytes
encode_zone z = to_le_bytes 4 (to_bits (2 ^ 31) z.offset)

pub write_date_lem : (d : RawDate) → write_date d ≡ ok (encode_date d)
unfolding write_date
write_date_lem d = refl

pub read_date-append :
    (d : RawDate) (rest : Bytes) → IsDate d → read_date (encode_date d ++ rest) ≡ ok (d, rest)
unfolding read_date
read_date-append d rest v =
    let year = to_le_bytes 2 d.year in
    let month = to_le_bytes 1 d.month in
    let day = to_le_bytes 1 d.day in
    rw (
      append_assoc year (month ++ day) rest,
      append_assoc month day rest,
      u16-read d.year (month ++ (day ++ rest)) v.year_fits,
      u8-read d.month (day ++ rest) v.month_fits,
      u8-read d.day rest v.day_fits,
    )

pub write_time_lem : (t : RawTime) → write_time t ≡ ok (encode_time t)
unfolding write_time
write_time_lem t = refl

pub read_time-append :
    (t : RawTime) (rest : Bytes) → IsTime t → read_time (encode_time t ++ rest) ≡ ok (t, rest)
unfolding read_time
read_time-append t rest v =
    let seconds = to_le_bytes 4 t.seconds_from_midnight in
    let nanos = to_le_bytes 4 t.nanoseconds in
    rw (
      append_assoc seconds nanos rest,
      u32-read t.seconds_from_midnight (nanos ++ rest) v.seconds_fit,
      u32-read t.nanoseconds rest v.nanoseconds_fit,
    )

pub write_zone_lem : (z : RawTimeZone) → write_zone z ≡ ok (encode_zone z)
unfolding write_zone
write_zone_lem z = refl

pub read_zone-append :
    (z : RawTimeZone) (rest : Bytes) → IsZone z → read_zone (encode_zone z ++ rest) ≡ ok (z, rest)
unfolding read_zone
read_zone-append z rest v = rw (i32-read z.offset rest v)

pub date_shape : (d : RawDate) → AreBytes (encode_date d) × (length (encode_date d) ≡ 4)
unfolding to_le_bytes
date_shape d = omega arith

pub time_shape : (t : RawTime) → AreBytes (encode_time t) × (length (encode_time t) ≡ 8)
unfolding to_le_bytes
time_shape t = omega arith

pub zone_shape : (z : RawTimeZone) → AreBytes (encode_zone z) × (length (encode_zone z) ≡ 4)
unfolding to_le_bytes
zone_shape z = omega arith

-- The invariant holds of `RawDate`.
pub IsDate-Agrees : Agrees date_type.object IsDate
unfolding date_type
IsDate-Agrees =
    fixed-Agrees 4 13 write_date read_date IsDate encode_date write_date_lem date_shape
      read_date-append

-- The invariant holds of `RawTime`.
pub IsTime-Agrees : Agrees time_type.object IsTime
unfolding time_type
IsTime-Agrees =
    fixed-Agrees 8 14 write_time read_time IsTime encode_time write_time_lem time_shape
      read_time-append

-- The invariant holds of `RawTimeZone`.
pub IsZone-Agrees : Agrees zone_type.object IsZone
unfolding zone_type
IsZone-Agrees =
    fixed-Agrees 4 15 write_zone read_zone IsZone encode_zone write_zone_lem zone_shape
      read_zone-append
