-- ===== src/Compression/Level.antt =====
-- compression_types/types.rs: the codecs' parameters, each a discriminator byte and four bytes.
use tux_io_encoding.Prelude.{
  ℕ, suc, ◌^◌, ◌<◌, ◌≡◌, refl, sym, ap, not, some, [], ◌∷◌, ◌++◌, append-nil, arith, ltb, ◌==◌,
  if◌then◌else◌, le→ltb, ==_self, length, take, drop, get_or, length-append, take-append_eq,
}
use tux_io_encoding.Error.{
  EncodingError, invalid_compression_type, unexpected_eof, Result, ok, err, ◌>>=◌, ok-injective,
}
use tux_io_encoding.Io.{Read, Bytes, read_exact, read_exact-append}
use tux_io_encoding.Codec.{ObjectType, Agrees, Agrees_of_encoding, skip_by_reading}
use tux_io_encoding.Word.Endian.{
  to_le_bytes, from_le_bytes, from-to_le_bytes, length-to_le_bytes, AreBytes-to_le_bytes,
}
use tux_io_encoding.Word.Signed.{ℤ, to_bits, from_bits, IsSigned, from-to_bits, to_bits_bound}

-- The checks and the conversion that both decoders of a codec share.
unfoldable pub level_of : {A : Type 0} → ℕ → (ℕ → A) → Bytes → Result EncodingError A
level_of tag from_word buffer =
    let found = get_or buffer 0 0 in
    if not (found == tag)
    then err (invalid_compression_type found)
    else ok (from_word (from_le_bytes (take 4 (drop 1 buffer))))

unfoldable pub read_level : {A : Type 0} → ℕ → (ℕ → A) → Read A
read_level tag from_word input = do
  (buffer, rest) ← read_exact 5 input
  level ← level_of tag from_word buffer
  ok (level, rest)

unfoldable pub parse_level : {A : Type 0} → ℕ → (ℕ → A) → Bytes → Result EncodingError A
parse_level tag from_word bytes =
    if ltb (length bytes) 5 then err unexpected_eof else level_of tag from_word bytes

-- The implementations for ZStdCompressionType and GzipCompressionType, which differ in the tag and the number type.
unfoldable pub level_type : {A : Type 0} → ℕ → (A → ℕ) → (ℕ → A) → ObjectType A
unfolding read_level parse_level
level_type tag to_word from_word = record {
  const_size = λ _. some 5;
  size = λ _. 5;
  write = λ level. ok (tag ∷ to_le_bytes 4 (to_word level));
  read = read_level tag from_word;
  read_from_bytes = parse_level tag from_word;
  read_size = λ c. ok (5, c);
  skip = skip_by_reading (read_level tag from_word);
}

unfoldable pub zstd_type : ObjectType ℤ
unfolding level_type
zstd_type = level_type 1 (to_bits (2 ^ 31)) (from_bits (2 ^ 31))

unfoldable pub gzip_type : ObjectType ℕ
unfolding level_type
gzip_type = level_type 2 (λ w. w) (λ w. w)

-- `NoCompression` writes five zeros, and reads any four bytes behind its tag.
unfoldable pub no_compression_type : ObjectType (Unit {0})
unfolding read_level parse_level
no_compression_type = record {
  const_size = λ _. some 5;
  size = λ _. 5;
  write = λ _. ok (0 ∷ 0 ∷ 0 ∷ 0 ∷ 0 ∷ []);
  read = read_level 0 (λ _. tt);
  read_from_bytes = parse_level 0 (λ _. tt);
  read_size = λ c. ok (5, c);
  skip = skip_by_reading (read_level 0 (λ _. tt));
}

module _ {A : Type 0} (tag : ℕ) (to_word : A → ℕ) (from_word : ℕ → A) (IsValid : A → Type 0)
    (tag_fits : tag < 256) (back : (a : A) → IsValid a → from_word (to_word a) ≡ a)
    (fits : (a : A) → IsValid a → to_word a < 2 ^ 32) where
  pub level_of-append :
      (a : A) (rest : Bytes)
      → IsValid a
      → level_of tag from_word (tag ∷ (to_le_bytes 4 (to_word a) ++ rest)) ≡ ok a
  unfolding level_of
  level_of-append a rest v = rw (
    ==_self tag,
    take-append_eq 4 (to_le_bytes 4 (to_word a)) rest (length-to_le_bytes 4 _),
    from-to_le_bytes 4 (to_word a) (fits a v),
    back a v,
  )

  read_level-append :
      (a : A) (rest : Bytes)
      → IsValid a
      → read_level tag from_word (tag ∷ (to_le_bytes 4 (to_word a) ++ rest)) ≡ ok (a, rest)
  unfolding read_level
  read_level-append a rest v =
      let whole =
        read_exact-append 5 (tag ∷ to_le_bytes 4 (to_word a)) rest
          (ap suc (length-to_le_bytes 4 _)) in
      let level : level_of tag from_word (tag ∷ to_le_bytes 4 (to_word a)) ≡ ok a =
        rw append-nil at (level_of-append a [] v) in
      rw (whole, level)

  pub parse_level-append :
      (a : A) (rest : Bytes)
      → IsValid a
      → parse_level tag from_word (tag ∷ (to_le_bytes 4 (to_word a) ++ rest)) ≡ ok a
  unfolding parse_level
  parse_level-append a rest v =
      let word = to_le_bytes 4 (to_word a) in
      rw (
        le→ltb (suc (length (word ++ rest))) 5
            (omega (arith, length-append {0} word rest, length-to_le_bytes 4 (to_word a))),
        level_of-append a rest v,
      )

  pub level_type-Agrees : Agrees (level_type tag to_word from_word) IsValid
  unfolding level_type
  level_type-Agrees =
      Agrees_of_encoding _ IsValid (λ a. tag ∷ to_le_bytes 4 (to_word a))
        (λ a bs v h. sym (ok-injective h)) (λ a n h. cc)
        (λ a v h. (
          (tag_fits, AreBytes-to_le_bytes 4 (to_word a)),
          ap suc (length-to_le_bytes 4 (to_word a)),
        ))
        (λ a rest v h. (read_level-append a rest v, parse_level-append a rest v))
        (λ a front rest v h. (length front, refl))

pub zstd-parse :
    (z : ℤ) (rest : Bytes)
    → IsSigned (2 ^ 31) z
    → zstd_type.read_from_bytes (1 ∷ (to_le_bytes 4 (to_bits (2 ^ 31) z) ++ rest)) ≡ ok z
unfolding zstd_type
zstd-parse z rest v =
    parse_level-append 1 (to_bits (2 ^ 31)) (from_bits (2 ^ 31)) (IsSigned (2 ^ 31)) (omega arith)
      (from-to_bits (2 ^ 31)) (λ a h. omega (arith, to_bits_bound (2 ^ 31) a h)) z rest v

pub gzip-parse :
    (n : ℕ) (rest : Bytes)
    → n < 2 ^ 32
    → gzip_type.read_from_bytes (2 ∷ (to_le_bytes 4 n ++ rest)) ≡ ok n
unfolding gzip_type
gzip-parse n rest v =
    parse_level-append 2 (λ w. w) (λ w. w) (λ w. w < 2 ^ 32) (omega arith) (λ a h. refl) (λ a h. h)
      n rest v
