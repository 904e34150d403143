-- ===== src/Types/Canonical.antt =====
-- What the readers of length-prefixed types and of `bool` accept: the bytes that the writer appends, and no others.
use tux_io_encoding.Prelude.{
  ℕ, ◌%◌, ◌^◌, ◌≤◌, ◌≡◌, refl, sym, ap, ◌∙◌, inl, inr, Bool, true, false, [], ◌∷◌, ◌++◌,
  append_assoc, arith, ltb, ◌==◌, le→ltb, ltb→le, ==_iff, Bool-cases, length, take, drop, get_or,
  take-append-drop, length-take,
}
use tux_io_encoding.Error.{ok, >>=-eq-ok, ok-injective}
use tux_io_encoding.Io.{Bytes, AreBytes, read_exact}
use tux_io_encoding.Word.Endian.{to_le_bytes, from_le_bytes, to-from_le_bytes, from_le_bytes_bound}
use tux_io_encoding.Types.Number.{u16_type}
use tux_io_encoding.Types.Limit.{length_is_allowed_le}
use tux_io_encoding.Types.Number.Agreement.{u16-write}
use tux_io_encoding.Types.Utf8.{is_utf8, from_utf8}
use tux_io_encoding.Types.Text.{string_type, read_string, string-write, IsString}
use tux_io_encoding.Types.Block.Array.{array_type, read_array, write_array}
use tux_io_encoding.Types.Scalar.{bool_byte, bool_of_byte, bool_type, read_bool}

split-All : (xs ys : Bytes) → AreBytes (xs ++ ys) → AreBytes xs × AreBytes ys
split-All [] ys h = (tt, h)
split-All (x ∷ xs) ys h = let (a, b) = split-All xs ys h.1 in ((h.0, a), b)

read_exact-ok :
    (n : ℕ) (input bs rest : Bytes)
    → read_exact n input ≡ ok (bs, rest)
    → (input ≡ bs ++ rest) × (length bs ≡ n)
unfolding read_exact
read_exact-ok n input bs rest h = elim (Bool-cases (ltb (length input) n)) [
  | inl short ↦ cc (rw short at h)
  | inr enough ↦
      let e = ok-injective (rw enough at h) in
      let front : take n input ≡ bs = ap (λ p. p.0) e in
      let back : drop n input ≡ rest = ap (λ p. p.1) e in
      (
        rw (← front, ← back, take-append-drop n input) refl,
        rw (← front) (omega (arith, length-take n input, ltb→le (length input) n enough)),
      )
]

-- A length prefix that was read stands in front of the input.
u16-read-ok :
    (input : Bytes) (n : ℕ) (rest : Bytes)
    → AreBytes input
    → u16_type.read input ≡ ok (n, rest)
    → (input ≡ to_le_bytes 2 n ++ rest) × (n ≤ 65535) × AreBytes rest
unfolding u16_type
u16-read-ok input n rest bytes h =
    let (p, e, k) = >>=-eq-ok (read_exact 2 input) _ h in
    let (cut, two) = read_exact-ok 2 input p.0 p.1 e in
    let value : from_le_bytes p.0 ≡ n = ap (λ q. q.0) (ok-injective k) in
    let tail : p.1 ≡ rest = ap (λ q. q.1) (ok-injective k) in
    let (front, back) = split-All p.0 p.1 (rw cut at bytes) in
    let again : to_le_bytes 2 (from_le_bytes p.0) ≡ p.0 =
      ap (λ w. to_le_bytes w (from_le_bytes p.0)) (sym two) ∙ to-from_le_bytes p.0 front in
    let bound = rw (value, two) at (from_le_bytes_bound p.0 front) in
    (rw (← value, again, ← tail) cut, omega (arith, bound), rw (← tail) back)

-- `String` is read only from what its writer appends: the text that was read is valid, and writing it gives the bytes that
-- were taken off the input.
pub string-read_canonical :
    (input s rest : Bytes)
    → AreBytes input
    → string_type.read input ≡ ok (s, rest)
    → (bs : Bytes) × (string_type.write s ≡ ok bs) × (input ≡ bs ++ rest) × IsString s
unfolding string_type read_string from_utf8
string-read_canonical input s rest bytes h =
    let (p, e, k) = >>=-eq-ok (u16_type.read input) _ h in
    let (cut, fits, tail_bytes) = u16-read-ok input p.0 p.1 bytes e in
    let (q, e', k') = >>=-eq-ok (read_exact p.0 p.1) _ k in
    let (cut', len) = read_exact-ok p.0 p.1 q.0 q.1 e' in
    let (front, back) = split-All q.0 q.1 (rw cut' at tail_bytes) in
    elim (Bool-cases (is_utf8 q.0)) [
      | inr invalid ↦ cc (rw invalid at k')
      | inl valid ↦
          let same = ok-injective (rw valid at k') in
          let text : q.0 ≡ s = ap (λ r. r.0) same in
          let behind : q.1 ≡ rest = ap (λ r. r.1) same in
          rw (← text, ← behind)
            (
              to_le_bytes 2 (length q.0) ++ q.0,
              string-write q.0 ∙ rw (le→ltb 65535 (length q.0) (omega arith)) refl,
              rw len (
                  cut
                  ∙ ap (λ r. to_le_bytes 2 p.0 ++ r) cut'
                  ∙ sym (append_assoc (to_le_bytes 2 p.0) q.0 q.1)),
              (front, valid),
            )
    ]

-- `[u8; N]` is read only from what its writer appends: N bytes behind a prefix that is N.
pub array-read_canonical :
    (n : ℕ) (input a rest : Bytes)
    → AreBytes input
    → (array_type n).read input ≡ ok (a, rest)
    → (bs : Bytes) × ((array_type n).write a ≡ ok bs) × (input ≡ bs ++ rest) × (length a ≡ n)
unfolding array_type read_array write_array
array-read_canonical n input a rest bytes h =
    let (p, e, k) = >>=-eq-ok (u16_type.read input) _ h in
    let (cut, fits, tail_bytes) = u16-read-ok input p.0 p.1 bytes e in
    elim (Bool-cases (p.0 == n)) [
      | inr differs ↦ cc (rw differs at k)
      | inl same ↦
          let here : p.0 ≡ n = (==_iff p.0 n).0 same in
          let (cut', len) = read_exact-ok n p.1 a rest (rw same at k) in
          let small : n % 2 ^ 16 ≡ n = omega arith in
          (
            to_le_bytes 2 n ++ a,
            rw (length_is_allowed_le "[u8; N]" n (omega arith), small, u16-write) refl,
            rw (← here) (
                cut
                ∙ ap (λ r. to_le_bytes 2 p.0 ++ r) cut'
                ∙ sym (append_assoc (to_le_bytes 2 p.0) a rest)),
            len,
          )
    ]

bool_of_byte-ok : (byte : ℕ) (b : Bool) → bool_of_byte byte ≡ ok b → byte ≡ bool_byte b
unfolding bool_of_byte
bool_of_byte-ok byte true h = ground arith
bool_of_byte-ok byte false h = ground arith

one_byte : (bs : Bytes) → length bs ≡ 1 → bs ≡ get_or bs 0 0 ∷ []
one_byte (b ∷ []) h = refl
one_byte bs h = absurd (omega arith)

-- `bool` is read only from what its writer appends: any other byte, and no byte, is refused.
pub bool-read_canonical :
    (input : Bytes) (b : Bool) (rest : Bytes)
    → bool_type.read input ≡ ok (b, rest)
    → (bs : Bytes) × (bool_type.write b ≡ ok bs) × (input ≡ bs ++ rest)
unfolding bool_type read_bool
bool-read_canonical input b rest h =
    let (p, e, k) = >>=-eq-ok (read_exact 1 input) _ h in
    let (cut, one) = read_exact-ok 1 input p.0 p.1 e in
    let (c, e', k') = >>=-eq-ok (bool_of_byte (get_or p.0 0 0)) _ k in
    let same = ok-injective k' in
    let value : c ≡ b = ap (λ r. r.0) same in
    let behind : p.1 ≡ rest = ap (λ r. r.1) same in
    let byte = bool_of_byte-ok (get_or p.0 0 0) b (e' ∙ ap ok value) in
    (
      bool_byte b ∷ [],
      refl,
      cut
          ∙ ap (λ bs. bs ++ p.1) (one_byte p.0 one ∙ ap (λ x. x ∷ []) byte)
          ∙ ap (λ r. bool_byte b ∷ r) behind,
    )
