-- ===== src/Types/Optional.antt =====
-- types/option.rs: `Option<T>` as a flag byte and, if it is set, the value.
use tux_io_encoding.Prelude.{
  ℕ, ◌+◌, ◌≡◌, refl, not, Option, none, some, [], ◌∷◌, ◌++◌, arith, ◌==◌, if◌then◌else◌, length,
}
use tux_io_encoding.Error.{EncodingError, Result, ok, ◌>>=◌, >>=-eq-ok, ok-injective}
use tux_io_encoding.Io.{Bytes, Cursor, Read, AreBytes, between}
use tux_io_encoding.Codec.{ObjectType, Agrees, read_whole, read_whole-append, skip_by_reading}
use tux_io_encoding.Types.Number.{u8_type, unsigned, number}
use tux_io_encoding.Types.Number.Agreement.{u8-read_byte}

module _ {A : Type 0} (t : ObjectType A) where
  unfoldable pub option_size : Option A → ℕ
  option_size none = 1
  option_size (some inner) = 1 + t.size inner

  unfoldable pub write_option : Option A → Result EncodingError Bytes
  write_option none = ok (0 ∷ [])
  write_option (some inner) = do bs ← t.write inner; ok (1 ∷ bs)

  unfoldable pub read_option : Read (Option A)
  read_option input = do
    (flag, input) ← u8_type.read input
    let value = (do (inner, input) ← t.read input; ok (some inner, input))
    if not (flag == 0) then value else ok (none, input)

  -- The flag is not read: the inner type measures what stands at the flag.
  unfoldable pub measure_option : Cursor → Result EncodingError (ℕ × Cursor)
  measure_option c = do (size, c) ← t.read_size c; ok (1 + size, c)

  unfoldable pub option_type : ObjectType (Option A)
  unfolding option_size write_option read_option measure_option
  option_type = record {
    const_size = λ _. none;
    size = option_size;
    write = write_option;
    read = read_option;
    read_from_bytes = read_whole read_option;
    read_size = measure_option;
    skip = skip_by_reading read_option;
  }

module _ {A : Type 0} (t : ObjectType A) (IsValid : A → Type 0) (law : Agrees t IsValid) where
  -- The values of `Option<T>`.
  abbrev pub IsOption : Option A → Type 0
  IsOption none = Unit
  IsOption (some inner) = IsValid inner

  read_option-append :
      (o : Option A) (bs rest : Bytes)
      → IsOption o
      → write_option t o ≡ ok bs
      → (AreBytes bs × (length bs ≡ option_size t o)) × (read_option t (bs ++ rest) ≡ ok (o, rest))
  unfolding write_option read_option option_size
  read_option-append none bs rest valid h =
      let e : 0 ∷ [] ≡ bs = ok-injective h in
      rw (← e) ((omega arith, refl), rw (u8-read_byte 0 rest (omega arith)) refl)
  read_option-append (some inner) bs rest valid h =
      let (ib, e, k) = >>=-eq-ok (t.write inner) _ h in
      let eq : 1 ∷ ib ≡ bs = ok-injective k in
      rw (← eq) (
        ((omega arith, law.encoded inner ib valid e), omega (arith, law.sized inner ib valid e)),
        rw (u8-read_byte 1 (ib ++ rest) (omega arith), law.decoded inner ib rest valid e) refl,
      )

  -- What a successful write of an `Option` appends has the announced size, and both readers give the value back, for every
  -- inner type that keeps the invariant. (`read_size` is not part of this.)
  pub option-round_trip :
      (o : Option A) (bs rest : Bytes)
      → IsOption o
      → (option_type t).write o ≡ ok bs
      → AreBytes bs
        × (length bs ≡ (option_type t).size o)
        × ((option_type t).read (bs ++ rest) ≡ ok (o, rest))
        × ((option_type t).read_from_bytes (bs ++ rest) ≡ ok o)
  unfolding option_type
  option-round_trip o bs rest valid h =
      let (shape, back) = read_option-append o bs rest valid h in
      (shape.0, shape.1, back, read_whole-append (read_option t) bs rest o back)

-- `read_size` disagrees with `size` on `None`: over an integer of `width` bytes it announces a flag and `width` bytes, where
-- the value is the flag alone.
pub option-measure_none :
    (width key : ℕ) (front rest : Bytes)
    → ((option_type (unsigned width key).object).read_size (between front ((0 ∷ []) ++ rest))
        ≡ ok (1 + width, between front ((0 ∷ []) ++ rest)))
      × ((option_type (unsigned width key).object).write none ≡ ok (0 ∷ []))
      × ((option_type (unsigned width key).object).size none ≡ 1)
unfolding option_type unsigned number
option-measure_none width key front rest = (refl, refl, refl)
