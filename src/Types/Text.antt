-- ===== src/Types/Text.antt =====
-- `String` of types/alloc.rs, by its bytes.
use tux_io_encoding.Prelude.{
  ℕ, ◌+◌, ◌%◌, ◌^◌, ◌≤◌, ◌≡◌, refl, sym, ap, ◌∙◌, inl, inr, none, [], ◌++◌, append_assoc, arith,
  ltb, if◌then◌else◌, le→ltb, ltb→le, Bool-cases, length, take, drop, length-append, take-append,
  All-append,
}
use tux_io_encoding.Error.{
  EncodingError, unexpected_eof, type_too_large, Result, ok, err, panicked, ◌>>=◌, ◌>>◌, >>=-eq-ok,
  ok-injective,
}
use tux_io_encoding.Prelude.{All-append, Bool-cases, ltb→le}
use tux_io_encoding.Io.{
  IsByte, Bytes, AreBytes, Cursor, between, on_cursor, seek_current, read_exact, read_exact-append,
}
use tux_io_encoding.Codec.{TypedObjectType, Agrees, Agrees_of_encoding}
use tux_io_encoding.Prelude.{le→ltb, length-append, take-append}
use tux_io_encoding.Word.Endian.{
  take-to_le_bytes, drop-to_le_bytes, length-two_bytes, to_le_bytes, AreBytes-to_le_bytes,
}
use tux_io_encoding.Types.Number.{u16_type}
use tux_io_encoding.Types.Number.Agreement.{u16-write, u16-read, u16-parse, u16-measure}
use tux_io_encoding.Types.Limit.{length_is_allowed, length_is_allowed_le, length_is_allowed-ok}
use tux_io_encoding.Types.Utf8.{IsUtf8, from_utf8, from_utf8-IsUtf8}

-- `bytes.len() as u16` is the length mod 2 ^ 16.
unfoldable pub write_string : Bytes → Result EncodingError Bytes
write_string s = do
  length_is_allowed "String" (length s)
  prefix ← u16_type.write (length s % 2 ^ 16)
  ok (prefix ++ s)

unfoldable pub read_string : Bytes → Result EncodingError (Bytes × Bytes)
read_string input = do
  (len, input) ← u16_type.read input
  (buffer, input) ← read_exact len input
  s ← from_utf8 buffer
  ok (s, input)

-- The slice `bytes[0..2]` panics where there are fewer bytes.
unfoldable pub parse_string : Bytes → Result EncodingError Bytes
parse_string bytes = if ltb (length bytes) 2 then panicked else (do
  len ← u16_type.read_from_bytes (take 2 bytes)
  if ltb (length bytes) (len + 2) then err unexpected_eof else from_utf8 (take len (drop 2 bytes)))

unfoldable pub measure_string : Cursor → Result EncodingError (ℕ × Cursor)
measure_string c = do (len, c) ← on_cursor u16_type.read c; ok (len + 2, c)

unfoldable pub skip_string : Cursor → Result EncodingError Cursor
skip_string c = do (len, c) ← on_cursor u16_type.read c; ok (seek_current len c)

unfoldable pub string_type : TypedObjectType Bytes
unfolding write_string read_string parse_string measure_string skip_string
string_type = record {
  object = record {
    const_size = λ _. none;
    size = λ s. length s + 2;
    write = write_string;
    read = read_string;
    read_from_bytes = parse_string;
    read_size = measure_string;
    skip = skip_string;
  };
  type_key = 12;
}

abbrev pub IsString : Bytes → Type 0
IsString s = AreBytes s × IsUtf8 s

abbrev prefixed : Bytes → Bytes
prefixed s = to_le_bytes 2 (length s) ++ s

write_string_fits : (s : Bytes) → length s ≤ 65535 → write_string s ≡ ok (prefixed s)
unfolding write_string
write_string_fits s h =
    let e : length s % 2 ^ 16 ≡ length s = omega arith in
    rw (length_is_allowed_le "String" (length s) h, e, u16-write)

write_string-ok : (s bs : Bytes) → write_string s ≡ ok bs → (length s ≤ 65535) × (bs ≡ prefixed s)
unfolding write_string
write_string-ok s bs h =
    let (u, e, _) = >>=-eq-ok (length_is_allowed "String" (length s)) _ h in
    let fits = length_is_allowed-ok "String" (length s) e in
    (fits, ok-injective (sym h ∙ write_string_fits s fits))

module _ (s : Bytes) (fits : length s ≤ 65535) where
  read_string-prefixed : (rest : Bytes) → IsUtf8 s → read_string (prefixed s ++ rest) ≡ ok (s, rest)
  unfolding read_string
  read_string-prefixed rest valid = rw (
    append_assoc (to_le_bytes 2 (length s)) s rest,
    u16-read (length s) (s ++ rest) fits,
    read_exact-append (length s) s rest refl,
    from_utf8-IsUtf8 s valid,
  )

  parse_string-prefixed : (rest : Bytes) → IsUtf8 s → parse_string (prefixed s ++ rest) ≡ ok s
  unfolding parse_string
  parse_string-prefixed rest valid =
      let n = length s in
      let all = s ++ rest in
      let len : length (to_le_bytes 2 n ++ all) ≡ n + length rest + 2 =
        omega (arith, length-two_bytes n all, length-append {0} s rest) in
      rw (
        append_assoc (to_le_bytes 2 n) s rest,
        len,
        le→ltb (n + length rest + 2) 2 (omega arith),
        take-to_le_bytes n all,
        drop-to_le_bytes n all,
        u16-parse n [] fits,
        le→ltb (n + length rest + 2) (n + 2) (omega arith),
        take-append s rest,
        from_utf8-IsUtf8 s valid,
      )

  measure_string-prefixed :
      (front rest : Bytes)
      → measure_string (between front (prefixed s ++ rest))
        ≡ ok (
          length s + 2,
          record { bytes = front ++ (prefixed s ++ rest); position = length front + 2 },
        )
  unfolding measure_string
  measure_string-prefixed front rest = rw (
    append_assoc (to_le_bytes 2 (length s)) s rest,
    u16-measure (length s) front (s ++ rest) fits,
  )

  skip_string-prefixed :
      (front rest : Bytes)
      → skip_string (between front (prefixed s ++ rest))
        ≡ ok (record {
          bytes = front ++ (prefixed s ++ rest);
          position = length front + length (prefixed s);
        })
  unfolding skip_string seek_current
  skip_string-prefixed front rest =
      rw
        (
          append_assoc (to_le_bytes 2 (length s)) s rest,
          u16-measure (length s) front (s ++ rest) fits,
          length-two_bytes (length s) s,
        )
        (ap
          (λ n.
            ok
              (record { bytes = front ++ (to_le_bytes 2 (length s) ++ (s ++ rest)); position = n }))
          (omega arith))

-- The invariant holds of `String`, on every text.
pub string_type-Agrees : Agrees string_type.object IsString
unfolding string_type
string_type-Agrees =
    Agrees_of_encoding _ IsString prefixed (λ s bs v h. (write_string-ok s bs h).1) (λ s n h. cc)
      (λ s v h. (
        All-append IsByte (to_le_bytes 2 (length s)) s (AreBytes-to_le_bytes 2 (length s)) v.0,
        length-two_bytes (length s) s,
      ))
      (λ s rest v h.
        let fits = (write_string-ok s _ h).0 in
        (read_string-prefixed s fits rest v.1, parse_string-prefixed s fits rest v.1))
      (λ s front rest v h.
        (length front + 2, measure_string-prefixed s (write_string-ok s _ h).0 front rest))

-- A `String` is written exactly if its length fits the prefix; otherwise the limit is reported.
pub string-write :
    (s : Bytes)
    → string_type.write s ≡ (
        if ltb 65535 (length s)
        then err (type_too_large "String" (length s) 65535)
        else ok (to_le_bytes 2 (length s) ++ s))
unfolding string_type
string-write s = elim (Bool-cases (ltb 65535 (length s))) [
  | inl over ↦ rw over (unfold write_string length_is_allowed in rw over)
  | inr fits ↦ rw fits (write_string_fits s (ltb→le 65535 (length s) fits))
]
