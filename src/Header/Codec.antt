-- ===== src/Header/Codec.antt =====
-- The header's encoding keeps the invariant of the traits.
use tux_io_encoding.Prelude.{
  ℕ, ◌^◌, ◌<◌, ◌≡◌, refl, sym, ◌∙◌, true, false, [], ◌∷◌, ◌++◌, append-nil, arith, ltb, ◌==◌,
  le→ltb, ==_iff, length, replicate, length-append, All-append,
}
use tux_io_encoding.Error.{ok, ok-injective}
use tux_io_encoding.Io.{Bytes, IsByte, AreBytes, read_exact-append}
use tux_io_encoding.Codec.{Agrees, Agrees_of_encoding}
use tux_io_encoding.Word.Endian.{to_le_bytes, from-to_le_bytes}
use tux_io_encoding.Types.Number.{u16_type, u32_type, u64_type}
use tux_io_encoding.Compression.{
  IsCompression, encode_compression, write_compression_lem, compression_shape, compression_type,
  compression_of_slice, compression_of_slice-encode,
}
use tux_io_encoding.Header.{ObjectHeader, header_type, parse_header, read_header, write_header}

-- The field ranges of the Rust type, at the one version that is supported.
pub record IsHeader (h : ObjectHeader) : Type 0 where
  pub is_current : h.version ≡ 0
  pub compression_valid : IsCompression h.compression
  pub tags_start_fits : h.tags_start < 2 ^ 16
  pub content_start_fits : h.content_start < 2 ^ 32
  pub content_length_fits : h.content_length < 2 ^ 64
  pub bit_flags_fit : h.bit_flags < 256

-- The layout of the 32 bytes.
abbrev pub encode_header : ObjectHeader → Bytes
encode_header h =
    0x54
    ∷ 0x55
    ∷ 0x58
    ∷ h.version
    ∷ (encode_compression h.compression
        ++ (to_le_bytes 2 h.tags_start
            ++ (to_le_bytes 4 h.content_start
                ++ (to_le_bytes 8 h.content_length ++ (h.bit_flags ∷ replicate 8 0)))))

pub write_header_lem : (h : ObjectHeader) → write_header h ≡ ok (encode_header h)
unfolding write_header compression_type u16_type u32_type u64_type
write_header_lem h = rw (write_compression_lem h.compression)

-- The fields behind the compression type.
abbrev tail : ObjectHeader → Bytes
tail h =
    to_le_bytes 2 h.tags_start
    ++ (to_le_bytes 4 h.content_start
        ++ (to_le_bytes 8 h.content_length ++ (h.bit_flags ∷ replicate 8 0)))

tail_shape : (h : ObjectHeader) → IsHeader h → AreBytes (tail h) × (length (tail h) ≡ 23)
unfolding to_le_bytes
tail_shape h v = omega arith

header_shape :
    (h : ObjectHeader) → IsHeader h → AreBytes (encode_header h) × (length (encode_header h) ≡ 32)
header_shape h v =
    let c = compression_shape h.compression in
    let t = tail_shape h v in
    (
      (
        omega arith,
        (
          omega arith,
          (
            omega arith,
            (
              omega (arith, v.is_current),
              All-append IsByte (encode_compression h.compression) (tail h) c.0 t.0,
            ),
          ),
        ),
      ),
      omega (arith, c.1, t.1, length-append {0} (encode_compression h.compression) (tail h)),
    )

-- Five bytes, one by one.
five_bytes :
    (bs : Bytes)
    → length bs ≡ 5
    → (a : ℕ) × (b : ℕ) × (c : ℕ) × (d : ℕ) × (e : ℕ) × (bs ≡ a ∷ b ∷ c ∷ d ∷ e ∷ [])
five_bytes (a ∷ b ∷ c ∷ d ∷ e ∷ []) h = (a, b, c, d, e, refl)
five_bytes bs h = absurd (omega arith)

parse_fields :
    (h : ObjectHeader) (a b c d e : ℕ) (rest : Bytes)
    → IsHeader h
    → compression_of_slice (a ∷ b ∷ c ∷ d ∷ e ∷ []) ≡ ok h.compression
    → parse_header (0x54 ∷ 0x55 ∷ 0x58 ∷ h.version ∷ a ∷ b ∷ c ∷ d ∷ e ∷ (tail h ++ rest)) ≡ ok h
unfolding parse_header to_le_bytes
parse_fields h a b c d e rest v compression =
    let content = 0x54 ∷ 0x55 ∷ 0x58 ∷ h.version ∷ a ∷ b ∷ c ∷ d ∷ e ∷ (tail h ++ rest) in
    let long : ltb (length content) 32 ≡ false = le→ltb (length content) 32 (omega arith) in
    let current : (h.version == 0) ≡ true = (==_iff h.version 0).1 v.is_current in
    rw (
      long,
      current,
      compression,
      from-to_le_bytes 2 h.tags_start v.tags_start_fits,
      from-to_le_bytes 4 h.content_start v.content_start_fits,
      from-to_le_bytes 8 h.content_length v.content_length_fits,
    )

-- The header is parsed back from its 32 bytes, whatever follows them.
parse_header-encode :
    (h : ObjectHeader) (rest : Bytes) → IsHeader h → parse_header (encode_header h ++ rest) ≡ ok h
parse_header-encode h rest v =
    let (a, b, c, d, e, eq) =
      five_bytes (encode_compression h.compression) (compression_shape h.compression).1 in
    let slice =
      rw (append-nil, eq) at (compression_of_slice-encode h.compression [] v.compression_valid) in
    rw eq (parse_fields h a b c d e rest v slice)

read_header-encode :
    (h : ObjectHeader) (rest : Bytes)
    → IsHeader h
    → read_header (encode_header h ++ rest) ≡ ok (h, rest)
unfolding read_header
read_header-encode h rest v =
    let parsed = rw append-nil at (parse_header-encode h [] v) in
    rw (read_exact-append 32 (encode_header h) rest (header_shape h v).1, parsed)

-- The invariant holds of `ObjectHeader`, at the supported version.
pub header_type-Agrees : Agrees header_type IsHeader
unfolding header_type
header_type-Agrees =
    Agrees_of_encoding _ IsHeader encode_header
      (λ h bs v e. sym (ok-injective (sym (write_header_lem h) ∙ e))) (λ h n e. cc)
      (λ h v e. header_shape h v)
      (λ h rest v e. (read_header-encode h rest v, parse_header-encode h rest v))
      (λ h front rest v e. (length front, refl))
