-- ===== src/Types/Time/DateTime.antt =====
-- `RawDateTime`: a date, a time and a time zone.
use tux_io_encoding.Prelude.{◌≡◌, ◌++◌, append_assoc, arith, length, length-append, All-append}
use tux_io_encoding.Error.{EncodingError, Result, ok, ◌>>=◌}
use tux_io_encoding.Io.{Read, Bytes, IsByte, AreBytes}
use tux_io_encoding.Codec.{TypedObjectType, Agrees}
use tux_io_encoding.Types.Time.Derive.{fixed_type, fixed-Agrees}
use tux_io_encoding.Types.Time.Date.{
  RawDate, RawTime, RawTimeZone, write_date, write_time, write_zone, read_date, read_time,
  read_zone,
}
use tux_io_encoding.Types.Time.Date.{
  IsDate, IsTime, IsZone, encode_date, encode_time, encode_zone, write_date_lem, write_time_lem,
  write_zone_lem,
}
use tux_io_encoding.Types.Time.Date.{
  read_date-append, read_time-append, read_zone-append, date_shape, time_shape, zone_shape,
}

pub record RawDateTime : Type 0 where
  pub date : RawDate
  pub time : RawTime
  pub timezone : RawTimeZone

unfoldable pub write_date_time : RawDateTime → Result EncodingError Bytes
write_date_time d = do
  date ← write_date d.date
  time ← write_time d.time
  timezone ← write_zone d.timezone
  ok (date ++ (time ++ timezone))

unfoldable pub read_date_time : Read RawDateTime
read_date_time input = do
  (date, input) ← read_date input
  (time, input) ← read_time input
  (timezone, input) ← read_zone input
  ok (record { date = date; time = time; timezone = timezone }, input)

unfoldable pub date_time_type : TypedObjectType RawDateTime
unfolding fixed_type
date_time_type = fixed_type 16 16 write_date_time read_date_time

pub record IsDateTime (d : RawDateTime) : Type 0 where
  pub date_valid : IsDate d.date
  pub time_valid : IsTime d.time
  pub zone_valid : IsZone d.timezone

abbrev encode_date_time : RawDateTime → Bytes
encode_date_time d = encode_date d.date ++ (encode_time d.time ++ encode_zone d.timezone)

write_date_time_lem : (d : RawDateTime) → write_date_time d ≡ ok (encode_date_time d)
unfolding write_date_time
write_date_time_lem d = rw (write_date_lem d.date, write_time_lem d.time, write_zone_lem d.timezone)

date_time_shape :
    (d : RawDateTime) → AreBytes (encode_date_time d) × (length (encode_date_time d) ≡ 16)
date_time_shape d =
    let date = date_shape d.date in
    let time = time_shape d.time in
    let zone = zone_shape d.timezone in
    let tail = encode_time d.time ++ encode_zone d.timezone in
    (
      All-append IsByte (encode_date d.date) tail date.0
          (All-append IsByte (encode_time d.time) (encode_zone d.timezone) time.0 zone.0),
      omega (
        arith,
        length-append {0} (encode_date d.date) tail,
        length-append {0} (encode_time d.time) (encode_zone d.timezone),
        date.1,
        time.1,
        zone.1,
      ),
    )

read_date_time-append :
    (d : RawDateTime) (rest : Bytes)
    → IsDateTime d
    → read_date_time (encode_date_time d ++ rest) ≡ ok (d, rest)
unfolding read_date_time
read_date_time-append d rest v =
    let date = encode_date d.date in
    let time = encode_time d.time in
    let zone = encode_zone d.timezone in
    rw (
      append_assoc date (time ++ zone) rest,
      append_assoc time zone rest,
      read_date-append d.date (time ++ (zone ++ rest)) v.date_valid,
      read_time-append d.time (zone ++ rest) v.time_valid,
      read_zone-append d.timezone rest v.zone_valid,
    )

-- The invariant holds of `RawDateTime`.
pub IsDateTime-Agrees : Agrees date_time_type.object IsDateTime
unfolding date_time_type
IsDateTime-Agrees =
    fixed-Agrees 16 16 write_date_time read_date_time IsDateTime encode_date_time
      write_date_time_lem date_time_shape read_date_time-append
