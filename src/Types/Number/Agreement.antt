-- ===== src/Types/Number/Agreement.antt =====
-- The number types keep the invariant of the traits, and length prefixes are read back.
use tux_io_encoding.Prelude.{
  ℕ, ◌+◌, ◌%◌, ◌^◌, ◌≤◌, ◌<◌, ◌≡◌, refl, sym, ◌∷◌, ◌++◌, arith, le→ltb, length, length-append,
  take-append_eq,
}
use tux_io_encoding.Error.{ok, ok-injective}
use tux_io_encoding.Io.{between}
use tux_io_encoding.Io.{on_cursor, on_cursor-between, Bytes, read_exact-append}
use tux_io_encoding.Codec.{Agrees_of_encoding, Agrees}
use tux_io_encoding.Word.Endian.{
  to_le_bytes, from_le_bytes, length-to_le_bytes, AreBytes-to_le_bytes,
}
use tux_io_encoding.Word.Endian.{from-to_le_bytes}
use tux_io_encoding.Word.Signed.{ℤ, to_bits, from_bits, IsSigned, from-to_bits, to_bits_bound}
use tux_io_encoding.Types.Number.{
  IsUnsigned, f32_type, f64_type, i16_type, i32_type, i64_type, i8_type, number, parse_number,
  read_number, signed, u16_type, u32_type, u64_type, u8_type, unsigned, word,
}

module _ {A : Type 0} (width key : ℕ) (to_word : A → ℕ) (from_word : ℕ → A) (IsValid : A → Type 0)
    (back : (a : A) → IsValid a → from_word (to_word a) ≡ a)
    (fits : (a : A) → IsValid a → to_word a < 256 ^ width) where
  word_back : (a : A) → IsValid a → from_word (from_le_bytes (to_le_bytes width (to_word a))) ≡ a
  word_back a h = rw (from-to_le_bytes width (to_word a) (fits a h)) (back a h)

  read_number-append :
      (a : A) (rest : Bytes)
      → IsValid a
      → read_number width key to_word from_word (to_le_bytes width (to_word a) ++ rest)
        ≡ ok (a, rest)
  unfolding read_number
  read_number-append a rest h = rw (
    read_exact-append width (to_le_bytes width (to_word a)) rest (length-to_le_bytes width _),
    word_back a h,
  )

  parse_number-append :
      (a : A) (rest : Bytes)
      → IsValid a
      → parse_number width key to_word from_word (to_le_bytes width (to_word a) ++ rest) ≡ ok a
  unfolding parse_number
  parse_number-append a rest h =
      let n = length-to_le_bytes width (to_word a) in
      rw (
        le→ltb (length (to_le_bytes width (to_word a) ++ rest)) width
            (omega (arith, n, length-append {0} (to_le_bytes width (to_word a)) rest)),
        take-append_eq width (to_le_bytes width (to_word a)) rest n,
        word_back a h,
      )

  pub number-Agrees : Agrees (number width key to_word from_word).object IsValid
  unfolding number
  number-Agrees =
      Agrees_of_encoding _ IsValid (λ a. to_le_bytes width (to_word a))
        (λ a bs v h. sym (ok-injective h)) (λ a n h. cc)
        (λ a v h. (AreBytes-to_le_bytes width (to_word a), length-to_le_bytes width (to_word a)))
        (λ a rest v h. (read_number-append a rest v, parse_number-append a rest v))
        (λ a front rest v h. (length front, refl))

pub unsigned-Agrees : (width key : ℕ) → Agrees (unsigned width key).object (IsUnsigned width)
unfolding unsigned
unsigned-Agrees width key = number-Agrees width key word word _ (λ a h. refl) (λ a h. h)

pub signed-Agrees :
    (width half key : ℕ)
    → half + half ≡ 256 ^ width
    → Agrees (signed width half key).object (IsSigned half)
unfolding signed
signed-Agrees width half key e =
    number-Agrees width key (to_bits half) (from_bits half) (IsSigned half) (from-to_bits half)
      (λ a h. omega (arith, to_bits_bound half a h))

pub u8_type-Agrees : Agrees u8_type.object (IsUnsigned 1)
unfolding u8_type
u8_type-Agrees = unsigned-Agrees 1 0

pub u16_type-Agrees : Agrees u16_type.object (IsUnsigned 2)
unfolding u16_type
u16_type-Agrees = unsigned-Agrees 2 1

-- A `u16` length prefix or count, written and read back.
pub u16-write : (n : ℕ) → u16_type.write n ≡ ok (to_le_bytes 2 n)
unfolding u16_type
u16-write n = refl

pub u16-read :
    (n : ℕ) (rest : Bytes) → n ≤ 65535 → u16_type.read (to_le_bytes 2 n ++ rest) ≡ ok (n, rest)
u16-read n rest h = u16_type-Agrees.decoded n _ rest (omega arith) (u16-write n)

pub u16-parse :
    (n : ℕ) (rest : Bytes) → n ≤ 65535 → u16_type.read_from_bytes (to_le_bytes 2 n ++ rest) ≡ ok n
u16-parse n rest h = u16_type-Agrees.parsed n _ rest (omega arith) (u16-write n)

pub u16-measure :
    (n : ℕ) (front rest : Bytes)
    → n ≤ 65535
    → on_cursor u16_type.read (between front (to_le_bytes 2 n ++ rest))
      ≡ ok (n, record { bytes = front ++ (to_le_bytes 2 n ++ rest); position = length front + 2 })
unfolding to_le_bytes
u16-measure n front rest h =
    on_cursor-between u16_type.read front (to_le_bytes 2 n) rest n (u16-read n rest h)

pub u8-read :
    (v : ℕ) (rest : Bytes) → v < 256 → u8_type.read (to_le_bytes 1 v ++ rest) ≡ ok (v, rest)
unfolding u8_type
u8-read v rest h = u8_type-Agrees.decoded v _ rest h refl

pub u32_type-Agrees : Agrees u32_type.object (IsUnsigned 4)
unfolding u32_type
u32_type-Agrees = unsigned-Agrees 4 2

pub u32-read :
    (v : ℕ) (rest : Bytes) → v < 2 ^ 32 → u32_type.read (to_le_bytes 4 v ++ rest) ≡ ok (v, rest)
unfolding u32_type
u32-read v rest h = u32_type-Agrees.decoded v _ rest h refl

pub u64_type-Agrees : Agrees u64_type.object (IsUnsigned 8)
unfolding u64_type
u64_type-Agrees = unsigned-Agrees 8 3

pub i32_type-Agrees : Agrees i32_type.object (IsSigned (2 ^ 31))
unfolding i32_type
i32_type-Agrees = signed-Agrees 4 (2 ^ 31) 6 refl

pub i32-read :
    (z : ℤ) (rest : Bytes)
    → IsSigned (2 ^ 31) z
    → i32_type.read (to_le_bytes 4 (to_bits (2 ^ 31) z) ++ rest) ≡ ok (z, rest)
unfolding i32_type
i32-read z rest h = i32_type-Agrees.decoded z _ rest h refl

pub u8-read_byte : (b : ℕ) (rest : Bytes) → b < 256 → u8_type.read (b ∷ rest) ≡ ok (b, rest)
unfolding to_le_bytes
u8-read_byte b rest h = let e : b % 256 ≡ b = omega arith in rw e at (u8-read b rest h)

pub i8_type-Agrees : Agrees i8_type.object (IsSigned (2 ^ 7))
unfolding i8_type
i8_type-Agrees = signed-Agrees 1 (2 ^ 7) 4 refl

pub i16_type-Agrees : Agrees i16_type.object (IsSigned (2 ^ 15))
unfolding i16_type
i16_type-Agrees = signed-Agrees 2 (2 ^ 15) 5 refl

pub i64_type-Agrees : Agrees i64_type.object (IsSigned (2 ^ 63))
unfolding i64_type
i64_type-Agrees = signed-Agrees 8 (2 ^ 63) 7 refl

pub f32_type-Agrees : Agrees f32_type.object (IsUnsigned 4)
unfolding f32_type
f32_type-Agrees = unsigned-Agrees 4 8

pub f64_type-Agrees : Agrees f64_type.object (IsUnsigned 8)
unfolding f64_type
f64_type-Agrees = unsigned-Agrees 8 9
