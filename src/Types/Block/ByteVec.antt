-- ===== src/Types/Block/ByteVec.antt =====
-- `Vec<u8>`, the byte block of the format: each byte goes through the encoding of `u8`.
use tux_io_encoding.Types.Block.{u16-write}
use tux_io_encoding.Types.Block.{count_is_allowed_le}
use tux_io_encoding.Types.Block.{write_vec}
use tux_io_encoding.Prelude.{
  ◌+◌, ◌%◌, ◌^◌, ◌≤◌, ◌≡◌, refl, sym, ◌∙◌, [], ◌∷◌, ◌++◌, append_assoc, arith, length, All-append,
}
use tux_io_encoding.Error.{ok, ok-injective}
use tux_io_encoding.Io.{Bytes, IsByte, AreBytes, between}
use tux_io_encoding.Codec.{TypedObjectType, Agrees, Agrees_of_encoding, read_whole-append}
use tux_io_encoding.Word.Endian.{to_le_bytes, AreBytes-to_le_bytes}
use tux_io_encoding.Types.Number.{u8_type}
use tux_io_encoding.Types.Number.Agreement.{u8_type-Agrees, u16-measure}
use tux_io_encoding.Types.Block.{
  read_vec, vec, vec-decoded, sum_sizes, write_items, write_vec-ok, measure_vec,
}

unfoldable pub byte_vec_type : TypedObjectType Bytes
unfolding vec
byte_vec_type = record { object = vec u8_type.object; type_key = 11 }

sum_sizes-length : (bs : Bytes) → sum_sizes u8_type.object bs ≡ length bs
unfolding sum_sizes u8_type
sum_sizes-length [] = refl
sum_sizes-length (b ∷ bs) = omega (arith, sum_sizes-length bs)

write_items-bytes : (bs : Bytes) → AreBytes bs → write_items u8_type.object bs ≡ ok bs
unfolding write_items u8_type to_le_bytes
write_items-bytes [] h = refl
write_items-bytes (b ∷ bs) h = let e : b % 256 ≡ b = omega arith in rw (write_items-bytes bs h.1, e)

pub write_vec-bytes :
    (s bs : Bytes)
    → AreBytes s
    → byte_vec_type.write s ≡ ok bs
    → (length s ≤ 65535) × (bs ≡ to_le_bytes 2 (length s) ++ s)
unfolding byte_vec_type
write_vec-bytes s bs v h =
    let (fits, items, ei, eq) = write_vec-ok u8_type.object s bs h in
    (fits, cc (eq, ok-injective (sym ei ∙ write_items-bytes s v)))

measure_vec-between :
    (s front rest : Bytes)
    → length s ≤ 65535
    → measure_vec u8_type.object (between front ((to_le_bytes 2 (length s) ++ s) ++ rest))
      ≡ ok (
        sum_sizes u8_type.object s + 2,
        record {
          bytes = front ++ ((to_le_bytes 2 (length s) ++ s) ++ rest);
          position = length front + 2;
        },
      )
unfolding measure_vec
measure_vec-between s front rest fits = rw (
  append_assoc (to_le_bytes 2 (length s)) s rest,
  u16-measure (length s) front (s ++ rest) fits,
  sum_sizes-length,
)

-- The invariant holds of `Vec<u8>`.
pub byte_vec_type-Agrees : Agrees byte_vec_type.object AreBytes
unfolding byte_vec_type
byte_vec_type-Agrees =
    Agrees_of_encoding _ AreBytes (λ s. to_le_bytes 2 (length s) ++ s)
      (λ s bs v h. (write_vec-bytes s bs v h).1) (λ s n h. cc)
      (λ s v h. (
        All-append IsByte (to_le_bytes 2 (length s)) s (AreBytes-to_le_bytes 2 (length s)) v,
        (vec-decoded u8_type.object _ u8_type-Agrees s _ [] v h).1,
      ))
      (λ s rest v h.
        let back = (vec-decoded u8_type.object _ u8_type-Agrees s _ rest v h).0 in
        (
          back,
          read_whole-append (read_vec u8_type.object) (to_le_bytes 2 (length s) ++ s) rest s back,
        ))
      (λ s front rest v h.
        (length front + 2, measure_vec-between s front rest (write_vec-bytes s _ v h).0))

pub byte_vec-size : (s : Bytes) → byte_vec_type.size s ≡ length s + 2
unfolding byte_vec_type
byte_vec-size s = rw (sum_sizes-length s)

pub byte_vec-write :
    (s : Bytes)
    → AreBytes s
    → length s ≤ 65535
    → byte_vec_type.write s ≡ ok (to_le_bytes 2 (length s) ++ s)
unfolding byte_vec_type write_vec
byte_vec-write s v fits =
    let small : length s % 2 ^ 16 ≡ length s = omega arith in
    rw (
      count_is_allowed_le "Vec" (length s) fits,
      small,
      u16-write (length s),
      write_items-bytes s v,
    )

pub byte_vec-ok :
    (s bs : Bytes)
    → AreBytes s
    → byte_vec_type.write s ≡ ok bs
    → (length s ≤ 65535) × (bs ≡ to_le_bytes 2 (length s) ++ s)
byte_vec-ok = write_vec-bytes
