-- ===== src/Types/Block.antt =====
-- Counted blocks: `Vec<T>` of types/alloc.rs, and the byte array `[u8; N]` of types.rs.
pub mod ByteVec
pub mod Array
use tux_io_encoding.Prelude.{
  ℕ, zero, suc, ◌+◌, ◌%◌, ◌^◌, ◌≤◌, ◌≡◌, sym, none, List, [], ◌∷◌, ◌++◌, append_assoc, arith,
  length, All, length-append,
}
use tux_io_encoding.Error.{EncodingError, Result, ok, ◌>>=◌, ◌>>◌, >>=-eq-ok, ok-injective}
use tux_io_encoding.Io.{Read, Bytes, Cursor, on_cursor}
use tux_io_encoding.Codec.{ObjectType, TypedObjectType, Agrees, read_whole, skip_by_reading}
use tux_io_encoding.Word.Endian.{length-two_bytes, to_le_bytes}
use tux_io_encoding.Types.Number.{u8_type, u16_type}
use tux_io_encoding.Types.Number.Agreement.{u16-write, u16-read}
use tux_io_encoding.Types.Limit.{count_is_allowed, count_is_allowed_le, count_is_allowed-ok}

module _ {A : Type 0} (t : ObjectType A) where
  pub sum_sizes : List A → ℕ
  sum_sizes [] = 0
  sum_sizes (x ∷ xs) = t.size x + sum_sizes xs

  pub write_items : List A → Result EncodingError Bytes
  write_items [] = ok []
  write_items (x ∷ xs) = do bs ← t.write x; cs ← write_items xs; ok (bs ++ cs)

  unfoldable pub write_vec : List A → Result EncodingError Bytes
  write_vec xs = do
    count_is_allowed "Vec" (length xs)
    prefix ← u16_type.write (length xs % 2 ^ 16)
    items ← write_items xs
    ok (prefix ++ items)

  -- The loop `for _ in 0..length`.
  pub read_items : ℕ → Read (List A)
  read_items zero input = ok ([], input)
  read_items (suc n) input = do
    (x, input) ← t.read input
    (xs, input) ← read_items n input
    ok (x ∷ xs, input)

  unfoldable pub read_vec : Read (List A)
  read_vec input = do (len, input) ← u16_type.read input; read_items len input

  unfoldable pub measure_vec : Cursor → Result EncodingError (ℕ × Cursor)
  measure_vec c = do (len, c) ← on_cursor u16_type.read c; ok (len + 2, c)

  unfoldable pub vec : ObjectType (List A)
  unfolding sum_sizes write_vec read_vec measure_vec
  vec = record {
    const_size = λ _. none;
    size = λ xs. sum_sizes xs + 2;
    write = write_vec;
    read = read_vec;
    read_from_bytes = read_whole read_vec;
    read_size = measure_vec;
    skip = skip_by_reading read_vec;
  }

  pub write_vec-ok :
      (xs : List A) (bs : Bytes)
      → write_vec xs ≡ ok bs
      → (length xs ≤ 65535)
        × (items : Bytes) × (write_items xs ≡ ok items)
        × (bs ≡ to_le_bytes 2 (length xs) ++ items)
  unfolding write_vec
  write_vec-ok xs bs h =
      let (u, e, k) = >>=-eq-ok (count_is_allowed "Vec" (length xs)) _ h in
      let fits = count_is_allowed-ok "Vec" (length xs) e in
      let small : length xs % 2 ^ 16 ≡ length xs = omega arith in
      let (items, ei, k') = >>=-eq-ok (write_items xs) _ (rw (small, u16-write) at k) in
      (fits, items, ei, sym (ok-injective k'))

  module _ (IsValid : A → Type 0) (law : Agrees t IsValid) where
    read_items-append :
        (xs : List A) (bs rest : Bytes)
        → All IsValid xs
        → write_items xs ≡ ok bs
        → read_items (length xs) (bs ++ rest) ≡ ok (xs, rest)
    unfolding read_items write_items
    read_items-append [] bs rest v h = rw (← ok-injective h)
    read_items-append (x ∷ xs) bs rest v h =
        let (b, eb, k) = >>=-eq-ok (t.write x) _ h in
        let (cs, ec, k') = >>=-eq-ok (write_items xs) _ k in
        rw (
          ← ok-injective k',
          append_assoc b cs rest,
          law.decoded x b (cs ++ rest) v.0 eb,
          read_items-append xs cs rest v.1 ec,
        )

    length-write_items :
        (xs : List A) (bs : Bytes)
        → All IsValid xs
        → write_items xs ≡ ok bs
        → length bs ≡ sum_sizes xs
    unfolding sum_sizes write_items
    length-write_items [] bs v h = rw (← ok-injective h)
    length-write_items (x ∷ xs) bs v h =
        let (b, eb, k) = >>=-eq-ok (t.write x) _ h in
        let (cs, ec, k') = >>=-eq-ok (write_items xs) _ k in
        rw (← ok-injective k') (
          omega
            (arith, length-append {0} b cs, law.sized x b v.0 eb, length-write_items xs cs v.1 ec))

    -- `Vec<T>`: what is written is read back, and is as long as `size` says, for every element type that keeps
    -- the invariant.
    pub vec-decoded :
        (xs : List A) (bs rest : Bytes)
        → All IsValid xs
        → vec.write xs ≡ ok bs
        → (vec.read (bs ++ rest) ≡ ok (xs, rest)) × (length bs ≡ vec.size xs)
    unfolding vec
    vec-decoded xs bs rest v h =
        let (fits, items, ei, eq) = write_vec-ok xs bs h in
        let prefix = to_le_bytes 2 (length xs) in
        (
          rw (eq, append_assoc prefix items rest)
              (unfold read_vec in
                rw (u16-read (length xs) (items ++ rest) fits)
                  (read_items-append xs items rest v ei)),
          rw eq
              (omega (arith, length-two_bytes (length xs) items, length-write_items xs items v ei)),
        )
