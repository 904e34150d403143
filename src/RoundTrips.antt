-- ===== src/RoundTrips.antt =====
-- Round trips: for each implementation of the traits in lib.rs, every value of its Rust type that its length prefix
-- can describe is written, and the bytes are an encoding of it (`Encodes` of Codec).
use tux_io_encoding.Prelude.{
  ℕ, ◌+◌, ◌%◌, ◌^◌, ◌≤◌, ◌<◌, ◌≡◌, refl, ◌∙◌, Bool, ◌++◌, arith, le→ltb, length,
}
use tux_io_encoding.Error.{ok}
use tux_io_encoding.Types.Time.Date.{write_time}
use tux_io_encoding.Types.Time.Date.{write_date}
use tux_io_encoding.Types.Time.Date.{write_zone}
use tux_io_encoding.Io.{Bytes, AreBytes}
use tux_io_encoding.Codec.{Agrees, Encodes, Writes, Agrees-Encodes, Agrees-Writes}
use tux_io_encoding.Word.Endian.{to_le_bytes}
use tux_io_encoding.Word.Signed.{ℤ, IsSigned}
use tux_io_encoding.Types.Number.{number, unsigned, signed}
use tux_io_encoding.Types.Number.Agreement.{unsigned-Agrees, signed-Agrees}
use tux_io_encoding.Types.Text.{string_type, IsString, string_type-Agrees, string-write}
use tux_io_encoding.Types.Block.ByteVec.{byte_vec_type, byte_vec_type-Agrees, byte_vec-write}
use tux_io_encoding.Types.Block.Array.{array_type, IsArray-Agrees, write_array}
use tux_io_encoding.Types.Limit.{length_is_allowed_le}
use tux_io_encoding.Types.Number.Agreement.{u16-write}
use tux_io_encoding.Types.Scalar.{bool_type, IsBool-Agrees}
use tux_io_encoding.Types.Time.Date.{
  RawDate, RawTime, RawTimeZone, date_type, time_type, zone_type, IsDate, IsTime, IsZone,
  IsDate-Agrees, IsTime-Agrees, IsZone-Agrees,
}
use tux_io_encoding.Types.Time.DateTime.{
  write_date_time, RawDateTime, date_time_type, IsDateTime, IsDateTime-Agrees,
}
use tux_io_encoding.Compression.{
  CompressionTypes, compression_type, IsCompression, compression_type-Agrees, write_compression_lem,
}
use tux_io_encoding.Header.{ObjectHeader, header_type}
use tux_io_encoding.Header.Codec.{IsHeader, header_type-Agrees, write_header_lem}
use tux_io_encoding.Value.{ValueType, value_type}
use tux_io_encoding.Value.Codec.{value_type-Agrees}
use tux_io_encoding.Value.Arms.{IsValue}
use tux_io_encoding.Tags.{Tags, TagKeyType, tags_type}
use tux_io_encoding.Tags.Codec.{IsTags, tags_type-Agrees}
use tux_io_encoding.Tags.Keys.MetaKey.{HeaderNames, meta_key_type, meta_key_type-Agrees}

-- Every unsigned integer of a width is written, and the bytes are an encoding of it.
pub unsigned-round_trip :
    (width key v : ℕ) (front rest : Bytes)
    → v < 256 ^ width
    → Writes (unsigned width key).object v front rest
unfolding unsigned number
unsigned-round_trip width key v front rest valid =
    Agrees-Writes _ _ (unsigned-Agrees width key) v front rest valid _ refl

-- Every signed integer of a width is written, as the two's complement that `half`, half the range, splits, and
-- the bytes are an encoding of it.
pub signed-round_trip :
    (width half key : ℕ) (z : ℤ) (front rest : Bytes)
    → half + half ≡ 256 ^ width
    → IsSigned half z
    → Writes (signed width half key).object z front rest
unfolding signed number
signed-round_trip width half key z front rest e valid =
    Agrees-Writes _ _ (signed-Agrees width half key e) z front rest valid _ refl

-- Both values of `bool` are written, and the byte is an encoding of the value.
pub bool-round_trip : (b : Bool) (front rest : Bytes) → Writes bool_type.object b front rest
unfolding bool_type
bool-round_trip b front rest = Agrees-Writes _ _ IsBool-Agrees b front rest tt _ refl

-- Every text of at most 65535 bytes is written, and the bytes are an encoding of it.
pub string-round_trip :
    (s : Bytes) (front rest : Bytes)
    → IsString s
    → length s ≤ 65535
    → Writes string_type.object s front rest
string-round_trip s front rest valid fits =
    Agrees-Writes _ _ string_type-Agrees s front rest valid (to_le_bytes 2 (length s) ++ s)
      (string-write s ∙ rw (le→ltb 65535 (length s) fits) refl)

-- Every `Vec<u8>` of at most 65535 bytes is written, and the bytes are an encoding of it.
pub byte_vec-round_trip :
    (s front rest : Bytes)
    → AreBytes s
    → length s ≤ 65535
    → Writes byte_vec_type.object s front rest
byte_vec-round_trip s front rest valid fits =
    Agrees-Writes _ _ byte_vec_type-Agrees s front rest valid _ (byte_vec-write s valid fits)

-- Every `[u8; N]` with N at most 65535 is written, and the bytes are an encoding of it.
pub array-round_trip :
    (n : ℕ) (a front rest : Bytes)
    → AreBytes a
    → length a ≡ n
    → n ≤ 65535
    → Writes (array_type n).object a front rest
unfolding array_type write_array
array-round_trip n a front rest valid len fits =
    let small : n % 2 ^ 16 ≡ n = omega arith in
    Agrees-Writes _ _ (IsArray-Agrees n) a front rest (valid, len) (to_le_bytes 2 n ++ a)
      (rw (length_is_allowed_le "[u8; N]" n fits, small, u16-write) refl)

-- Every `RawDate` is written, and the bytes are an encoding of it.
pub date-round_trip :
    (d : RawDate) (front rest : Bytes) → IsDate d → Writes date_type.object d front rest
unfolding date_type write_date
date-round_trip d front rest valid = Agrees-Writes _ _ IsDate-Agrees d front rest valid _ refl

-- Every `RawTime` is written, and the bytes are an encoding of it.
pub time-round_trip :
    (t : RawTime) (front rest : Bytes) → IsTime t → Writes time_type.object t front rest
unfolding time_type write_time
time-round_trip t front rest valid = Agrees-Writes _ _ IsTime-Agrees t front rest valid _ refl

-- Every `RawTimeZone` is written, and the bytes are an encoding of it.
pub zone-round_trip :
    (z : RawTimeZone) (front rest : Bytes) → IsZone z → Writes zone_type.object z front rest
unfolding zone_type write_zone
zone-round_trip z front rest valid = Agrees-Writes _ _ IsZone-Agrees z front rest valid _ refl

-- Every `RawDateTime` is written, and the bytes are an encoding of it.
pub date_time-round_trip :
    (d : RawDateTime) (front rest : Bytes)
    → IsDateTime d
    → Writes date_time_type.object d front rest
unfolding date_time_type write_date_time write_date write_time write_zone
date_time-round_trip d front rest valid =
    Agrees-Writes _ _ IsDateTime-Agrees d front rest valid _ refl

-- Every `CompressionTypes` is written, and the five bytes are an encoding of it.
pub compression-round_trip :
    (c : CompressionTypes) (front rest : Bytes)
    → IsCompression c
    → Writes compression_type c front rest
unfolding compression_type
compression-round_trip c front rest valid =
    Agrees-Writes _ _ compression_type-Agrees c front rest valid _ (write_compression_lem c)

-- Every header of the supported version is written, and the 32 bytes are an encoding of it.
pub header-round_trip :
    (h : ObjectHeader) (front rest : Bytes) → IsHeader h → Writes header_type h front rest
unfolding header_type
header-round_trip h front rest valid =
    Agrees-Writes _ _ header_type-Agrees h front rest valid _ (write_header_lem h)

-- What a successful write of a valid `ValueType` appends is an encoding of the value, whatever its variant.
pub value-round_trip :
    (v : ValueType) (bs front rest : Bytes)
    → IsValue v
    → value_type.write v ≡ ok bs
    → Encodes value_type v bs front rest
value-round_trip v bs front rest valid h =
    Agrees-Encodes _ _ value_type-Agrees v front rest valid bs h

-- What a successful write of a valid tag map appends is an encoding of the map, whatever the order that the map
-- is iterated in, for every key type that keeps the invariant.
pub tags-round_trip :
    {K : Type 0} (key : TagKeyType K) (IsKey : K → Type 0) (law : Agrees key.object IsKey)
    (tags : Tags K) (bs front rest : Bytes)
    → IsTags key IsKey law tags
    → (tags_type key).write tags ≡ ok bs
    → Encodes (tags_type key) tags bs front rest
tags-round_trip key IsKey law tags bs front rest valid h =
    Agrees-Encodes _ _ (tags_type-Agrees key IsKey law) tags front rest valid bs h

-- What a successful write of a `MetaKey` appends is an encoding of the header name, where the crate http keeps
-- what `HeaderNames` states.
pub meta_key-round_trip :
    {HeaderName : Type 0} (http : HeaderNames HeaderName) (name : HeaderName)
    (bs front rest : Bytes)
    → (meta_key_type http).object.write name ≡ ok bs
    → Encodes (meta_key_type http).object name bs front rest
meta_key-round_trip http name bs front rest h =
    Agrees-Encodes _ _ (meta_key_type-Agrees http) name front rest tt bs h
