-- ===== src/Io.antt =====
-- `std::io::Read` and `Seek` over bytes in memory, as the decoders of the crate use them.
use tux_io_encoding.Prelude.{
  ℕ, ◌+◌, ◌-◌, ◌<◌, ◌≡◌, refl, ap, List, ◌++◌, append_assoc, arith, ltb, if◌then◌else◌, lt→ltb,
  le→ltb, length, take, drop, All, length-append, take-append, drop-append,
}
use tux_io_encoding.Error.{unexpected_end, EncodingError, io_error, Result, ok, err, ◌>>=◌}

abbrev pub Bytes : Type 0
Bytes = List ℕ

abbrev pub IsByte : ℕ → Type 0
IsByte b = b < 256

abbrev pub AreBytes : Bytes → Type 0
AreBytes = All IsByte

-- A decoder under the bound `Read`: it takes bytes off the front of what is left of the input.
-- What a failed read leaves is not kept, since every caller drops the reader on an error.
abbrev pub Read : Type 0 → Type 0
Read A = Bytes → Result EncodingError (A × Bytes)

unfoldable pub read_exact : ℕ → Read Bytes
read_exact n input =
    if ltb (length input) n then err (io_error unexpected_end) else ok (take n input, drop n input)

-- `std::io::Cursor`: a position that may stand behind the end, where reads find nothing.
pub record Cursor : Type 0 where
  pub bytes : Bytes
  pub position : ℕ

unfoldable pub seek_start : ℕ → Cursor → Cursor
seek_start n c = record c { position = n }

unfoldable pub seek_current : ℕ → Cursor → Cursor
seek_current n c = record c { position = c.position + n }

-- A cursor as a `Read`: the position moves on by what the decoder took.
unfoldable pub on_cursor : {A : Type 0} → Read A → Cursor → Result EncodingError (A × Cursor)
on_cursor read c = do
  (a, rest) ← read (drop c.position c.bytes)
  ok (a, record c { position = c.position + (length (drop c.position c.bytes) - length rest) })

-- A cursor behind `front`, with `back` still to read.
abbrev pub between : Bytes → Bytes → Cursor
between front back = record { bytes = front ++ back; position = length front }

pub read_exact-append :
    (n : ℕ) (bs rest : Bytes) → length bs ≡ n → read_exact n (bs ++ rest) ≡ ok (bs, rest)
unfolding read_exact
read_exact-append n bs rest h = rw (
  ← h,
  le→ltb (length (bs ++ rest)) (length bs) (omega (arith, length-append {0} bs rest)),
  take-append,
  drop-append,
)

pub read_exact_short :
    (n : ℕ) (input : Bytes) → length input < n → read_exact n input ≡ err (io_error unexpected_end)
unfolding read_exact
read_exact_short n input h = rw (lt→ltb _ _ h) refl

pub on_cursor-between :
    {A : Type 0} (read : Read A) (front bs rest : Bytes) (a : A)
    → read (bs ++ rest) ≡ ok (a, rest)
    → on_cursor read (between front (bs ++ rest))
      ≡ ok (a, record { bytes = front ++ (bs ++ rest); position = length front + length bs })
unfolding on_cursor
on_cursor-between read front bs rest a h =
    rw (drop-append front (bs ++ rest), h, length-append bs rest)
      (ap (λ n. ok (a, record { bytes = front ++ (bs ++ rest); position = length front + n }))
        (omega arith))

-- A cursor that has passed `mid` stands behind it.
pub between-append :
    (front mid back : Bytes)
    → ◌≡◌ {A = Cursor}
        (record { bytes = front ++ (mid ++ back); position = length front + length mid })
        (between (front ++ mid) back)
between-append front mid back = rw (append_assoc front mid back, length-append front mid)

-- Seeking to the end of `mid`, wherever the cursor stood.
pub seek_start-between :
    (n p : ℕ) (front mid back : Bytes)
    → n ≡ length front + length mid
    → seek_start n (record { bytes = front ++ (mid ++ back); position = p })
      ≡ between (front ++ mid) back
unfolding seek_start
seek_start-between n p front mid back h = rw h (between-append front mid back)
