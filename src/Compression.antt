-- ===== src/Compression.antt =====
-- compression_types.rs and compression_types/types.rs: the five bytes of the header that name a codec.
pub mod Level
use tux_io_encoding.Prelude.{
  ℕ, zero, suc, ◌^◌, ◌≤◌, ◌<◌, ◌≡◌, refl, sym, ap, ◌∙◌, ◌↔◌, inl, inr, some, [], ◌∷◌, ◌++◌,
  append-nil, arith, ltb, ◌==◌, if◌then◌else◌, ltb→lt, le→ltb, ltb→le, Bool-cases, length, take,
  get_or, length-append, take-append_eq,
}
use tux_io_encoding.Error.{
  EncodingError, invalid_compression_type, unexpected_eof, Result, ok, err, ◌>>=◌, ◌>>◌, map_ok,
  ok-injective,
}
use tux_io_encoding.Io.{Read, Bytes, IsByte, AreBytes, read_exact, read_exact-append}
use tux_io_encoding.Codec.{ObjectType, Agrees, Agrees_of_encoding, skip_by_reading}
use tux_io_encoding.Word.Endian.{to_le_bytes, length-to_le_bytes, AreBytes-to_le_bytes}
use tux_io_encoding.Word.Signed.{ℤ, to_bits, from_bits, IsSigned, from-to_bits, to_bits_bound}
use tux_io_encoding.Compression.Level.{
  level_of, parse_level, zstd_type, gzip_type, no_compression_type, zstd-parse, gzip-parse,
}

pub data CompressionTypes : Type 0 where
  no_compression : CompressionTypes
  zstd : ℤ → CompressionTypes
  gzip : ℕ → CompressionTypes

-- `TryFrom<[u8; 5]>`.
unfoldable pub compression_of_array : Bytes → Result EncodingError CompressionTypes
compression_of_array value =
    let key = get_or value 0 0 in
    if key == 0
    then ok no_compression
    else if key == 1
    then map_ok zstd (zstd_type.read_from_bytes value)
    else if key == 2
    then map_ok gzip (gzip_type.read_from_bytes value)
    else err (invalid_compression_type key)

-- `TryFrom<&[u8]>`, and `read_from_bytes`, which has the same body.
unfoldable pub compression_of_slice : Bytes → Result EncodingError CompressionTypes
unfolding compression_of_array
compression_of_slice value =
    if ltb (length value) 5 then err unexpected_eof else compression_of_array (take 5 value)

unfoldable pub write_compression : CompressionTypes → Result EncodingError Bytes
unfolding no_compression_type zstd_type gzip_type
write_compression no_compression = no_compression_type.write tt
write_compression (zstd level) = zstd_type.write level
write_compression (gzip level) = gzip_type.write level

unfoldable pub read_compression : Read CompressionTypes
unfolding compression_of_array
read_compression input = do
  (buffer, rest) ← read_exact 5 input
  compression ← compression_of_array buffer
  ok (compression, rest)

unfoldable pub compression_type : ObjectType CompressionTypes
unfolding compression_of_slice write_compression read_compression
compression_type = record {
  const_size = λ _. some 5;
  size = λ _. 5;
  write = write_compression;
  read = read_compression;
  read_from_bytes = compression_of_slice;
  read_size = λ c. ok (5, c);
  skip = skip_by_reading read_compression;
}

abbrev pub IsCompression : CompressionTypes → Type 0
IsCompression no_compression = Unit
IsCompression (zstd level) = IsSigned (2 ^ 31) level
IsCompression (gzip level) = level < 2 ^ 32

abbrev pub encode_compression : CompressionTypes → Bytes
encode_compression no_compression = 0 ∷ 0 ∷ 0 ∷ 0 ∷ 0 ∷ []
encode_compression (zstd level) = 1 ∷ to_le_bytes 4 (to_bits (2 ^ 31) level)
encode_compression (gzip level) = 2 ∷ to_le_bytes 4 level

pub write_compression_lem : (c : CompressionTypes) → write_compression c ≡ ok (encode_compression c)
unfolding write_compression
write_compression_lem no_compression = refl
write_compression_lem (zstd level) = refl
write_compression_lem (gzip level) = refl

pub compression_shape :
    (c : CompressionTypes) → AreBytes (encode_compression c) × (length (encode_compression c) ≡ 5)
compression_shape no_compression = omega arith
compression_shape (zstd level) = (
  (omega arith, AreBytes-to_le_bytes 4 (to_bits (2 ^ 31) level)),
  ap suc (length-to_le_bytes 4 (to_bits (2 ^ 31) level)),
)
compression_shape (gzip level) =
    ((omega arith, AreBytes-to_le_bytes 4 level), ap suc (length-to_le_bytes 4 level))

pub compression_of_array-encode :
    (c : CompressionTypes) → IsCompression c → compression_of_array (encode_compression c) ≡ ok c
unfolding compression_of_array
compression_of_array-encode no_compression v = refl
compression_of_array-encode (zstd level) v =
    let e = rw append-nil at (zstd-parse level [] v) in rw e
compression_of_array-encode (gzip level) v =
    let e = rw append-nil at (gzip-parse level [] v) in rw e

pub compression_of_slice-encode :
    (c : CompressionTypes) (rest : Bytes)
    → IsCompression c
    → compression_of_slice (encode_compression c ++ rest) ≡ ok c
unfolding compression_of_slice
compression_of_slice-encode c rest v =
    let len = (compression_shape c).1 in
    rw
      (
        le→ltb (length (encode_compression c ++ rest)) 5
            (omega (arith, len, length-append {0} (encode_compression c) rest)),
        take-append_eq 5 (encode_compression c) rest len,
      )
      (compression_of_array-encode c v)

read_compression-encode :
    (c : CompressionTypes) (rest : Bytes)
    → IsCompression c
    → read_compression (encode_compression c ++ rest) ≡ ok (c, rest)
unfolding read_compression
read_compression-encode c rest v = rw (
  read_exact-append 5 (encode_compression c) rest (compression_shape c).1,
  compression_of_array-encode c v,
)

-- The invariant holds of `CompressionTypes`.
pub compression_type-Agrees : Agrees compression_type IsCompression
unfolding compression_type
compression_type-Agrees =
    Agrees_of_encoding _ IsCompression encode_compression
      (λ c bs v h. sym (ok-injective (sym (write_compression_lem c) ∙ h))) (λ c n h. cc)
      (λ c v h. compression_shape c)
      (λ c rest v h. (read_compression-encode c rest v, compression_of_slice-encode c rest v))
      (λ c front rest v h. (length front, refl))

-- Each of the three discriminators is read, whatever four bytes follow.
compression_of_array_known :
    (key : ℕ) (bs : Bytes)
    → key ≤ 2
    → length bs ≡ 4
    → (c : CompressionTypes) × (compression_of_array (key ∷ bs) ≡ ok c)
unfolding compression_of_array zstd_type gzip_type parse_level level_of
compression_of_array_known zero bs small len = (no_compression, refl)
compression_of_array_known (suc zero) bs small len =
    rw (le→ltb (suc (length bs)) 5 (omega arith)) (_, refl)
compression_of_array_known (suc (suc zero)) bs small len =
    rw (le→ltb (suc (length bs)) 5 (omega arith)) (_, refl)
compression_of_array_known (suc (suc (suc key))) bs small len = absurd (omega arith)

-- The discriminator decides: five bytes are refused as an unknown codec exactly if the first of them is above 2.
pub compression_of_array_unknown :
    (key : ℕ) (bs : Bytes)
    → length bs ≡ 4
    → (compression_of_array (key ∷ bs) ≡ err (invalid_compression_type key)) ↔ (2 < key)
unfolding compression_of_array
compression_of_array_unknown key bs len = (
  (λ refused. elim (Bool-cases (ltb 2 key)) [
    | inl beyond ↦ ltb→lt 2 key beyond
    | inr known ↦
        let (c, found) = compression_of_array_known key bs (ltb→le 2 key known) len in
        cc (sym found ∙ refused)
  ]),
  λ beyond. ground arith,
)
