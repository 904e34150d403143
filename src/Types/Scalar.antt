-- ===== src/Types/Scalar.antt =====
-- `bool` of types.rs.
use tux_io_encoding.Prelude.{
  ℕ, ◌<◌, ◌≡◌, refl, sym, Bool, true, false, some, [], ◌∷◌, arith, ◌==◌, if◌then◌else◌, length,
  get_or,
}
use tux_io_encoding.Error.{EncodingError, invalid_value, Result, ok, err, ◌>>=◌, ok-injective}
use tux_io_encoding.Io.{Read, Bytes, read_exact}
use tux_io_encoding.Codec.{TypedObjectType, Agrees, Agrees_of_encoding, read_whole, skip_by_reading}

-- `*self as u8`.
abbrev pub bool_byte : Bool → ℕ
bool_byte false = 0
bool_byte true = 1

unfoldable pub bool_of_byte : ℕ → Result EncodingError Bool
bool_of_byte byte =
    if byte == 0 then ok false else if byte == 1 then ok true else err (invalid_value "bool" byte)

unfoldable pub read_bool : Read Bool
unfolding bool_of_byte read_exact
read_bool input = do
  (buffer, rest) ← read_exact 1 input
  b ← bool_of_byte (get_or buffer 0 0)
  ok (b, rest)

unfoldable pub bool_type : TypedObjectType Bool
unfolding read_bool
bool_type = record {
  object = record {
    const_size = λ _. some 1;
    size = λ _. 1;
    write = λ b. ok (bool_byte b ∷ []);
    read = read_bool;
    read_from_bytes = read_whole read_bool;
    read_size = λ c. ok (1, c);
    skip = skip_by_reading read_bool;
  };
  type_key = 10;
}

abbrev pub IsBool : Bool → Type 0
IsBool b = Unit

read_bool-append : (b : Bool) (rest : Bytes) → read_bool (bool_byte b ∷ rest) ≡ ok (b, rest)
unfolding read_bool
read_bool-append false rest = ground arith
read_bool-append true rest = ground arith

bool_byte-lt : (b : Bool) → bool_byte b < 256
bool_byte-lt false = omega arith
bool_byte-lt true = omega arith

-- The invariant holds of `bool`.
pub IsBool-Agrees : Agrees bool_type.object IsBool
unfolding bool_type
IsBool-Agrees =
    Agrees_of_encoding _ IsBool (λ b. bool_byte b ∷ []) (λ b bs v h. sym (ok-injective h))
      (λ b n h. cc) (λ b v h. ((bool_byte-lt b, tt), refl))
      (λ b rest v h. (read_bool-append b rest, rw (read_bool-append b rest)))
      (λ b front rest v h. (length front, refl))
