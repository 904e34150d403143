-- ===== src/Types/Block/Array.antt =====
-- `[u8; N]` of types.rs: a byte block of a fixed length.
use tux_io_encoding.Prelude.{
  ℕ, ◌+◌, ◌%◌, ◌^◌, ◌≤◌, ◌≡◌, refl, sym, not, some, ◌++◌, append_assoc, arith, ◌==◌, if◌then◌else◌,
  ==_self, length, All-append,
}
use tux_io_encoding.Error.{
  EncodingError, length_mismatch, Result, ok, err, ◌>>=◌, ◌>>◌, >>=-eq-ok, ok-injective,
}
use tux_io_encoding.Io.{Read, Bytes, IsByte, AreBytes, read_exact, read_exact-append}
use tux_io_encoding.Codec.{
  TypedObjectType, Agrees, Agrees_of_encoding, read_whole, read_whole-append, skip_by_reading,
}
use tux_io_encoding.Word.Endian.{to_le_bytes, length-two_bytes, AreBytes-to_le_bytes}
use tux_io_encoding.Types.Number.{u16_type}
use tux_io_encoding.Types.Number.Agreement.{u16-write, u16-read}
use tux_io_encoding.Types.Limit.{length_is_allowed, length_is_allowed-ok}

module _ (n : ℕ) where
  unfoldable pub write_array : Bytes → Result EncodingError Bytes
  write_array a = do
    length_is_allowed "[u8; N]" n
    prefix ← u16_type.write (n % 2 ^ 16)
    ok (prefix ++ a)

  unfoldable pub read_array : Read Bytes
  read_array input = do
    (len, input) ← u16_type.read input
    if not (len == n) then err (length_mismatch "[u8; N]" n len) else read_exact n input

  unfoldable pub array_type : TypedObjectType Bytes
  unfolding write_array read_array
  array_type = record {
    object = record {
      const_size = λ _. some (n + 2);
      size = λ _. n + 2;
      write = write_array;
      read = read_array;
      read_from_bytes = read_whole read_array;
      read_size = λ c. ok (n + 2, c);
      skip = skip_by_reading read_array;
    };
    type_key = 11;
  }

  -- The values of `[u8; N]`.
  abbrev pub IsArray : Bytes → Type 0
  IsArray a = AreBytes a × (length a ≡ n)

  write_array-ok :
      (a bs : Bytes) → write_array a ≡ ok bs → (n ≤ 65535) × (bs ≡ to_le_bytes 2 n ++ a)
  unfolding write_array
  write_array-ok a bs h =
      let (u, e, k) = >>=-eq-ok (length_is_allowed "[u8; N]" n) _ h in
      let fits = length_is_allowed-ok "[u8; N]" n e in
      let small : n % 2 ^ 16 ≡ n = omega arith in
      (fits, sym (ok-injective (rw (small, u16-write) at k)))

  read_array-append :
      (a rest : Bytes)
      → n ≤ 65535
      → length a ≡ n
      → read_array ((to_le_bytes 2 n ++ a) ++ rest) ≡ ok (a, rest)
  unfolding read_array
  read_array-append a rest fits e = rw (
    append_assoc (to_le_bytes 2 n) a rest,
    u16-read n (a ++ rest) fits,
    ==_self n,
    read_exact-append n a rest e,
  )

  -- The invariant holds of `[u8; N]`.
  pub IsArray-Agrees : Agrees array_type.object IsArray
  unfolding array_type
  IsArray-Agrees =
      Agrees_of_encoding _ IsArray (λ a. to_le_bytes 2 n ++ a)
        (λ a bs v h. (write_array-ok a bs h).1) (λ a n h. cc)
        (λ a v h. (
          All-append IsByte (to_le_bytes 2 n) a (AreBytes-to_le_bytes 2 n) v.0,
          omega (arith, v.1, length-two_bytes n a),
        ))
        (λ a rest v h.
          let back = read_array-append a rest (write_array-ok a _ h).0 v.1 in
          (back, read_whole-append read_array (to_le_bytes 2 n ++ a) rest a back))
        (λ a front rest v h. (length front, refl))
