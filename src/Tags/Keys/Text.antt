-- ===== src/Tags/Keys/Text.antt =====
-- `impl TagKeyType for String`.
use tux_io_encoding.Prelude.{◌≡◌, ◌↔◌, Bool, true, false, ◌&&◌, [], ◌∷◌, arith, ◌==◌}
use tux_io_encoding.Io.{Bytes}
use tux_io_encoding.Types.Text.{string_type}
use tux_io_encoding.Map.{KeyEq}
use tux_io_encoding.Tags.{TagKeyType}

-- Equality of texts, byte by byte.
unfoldable pub bytes_eq : Bytes → Bytes → Bool
bytes_eq [] [] = true
bytes_eq (a ∷ as') (b ∷ bs) = a == b && bytes_eq as' bs
bytes_eq _ _ = false

pub bytes_eq_iff : (a b : Bytes) → (bytes_eq a b ≡ true) ↔ (a ≡ b)
unfolding bytes_eq
bytes_eq_iff [] [] = ground arith
bytes_eq_iff (a ∷ as') (b ∷ bs) = ground (arith, bytes_eq_iff as' bs)
bytes_eq_iff [] (b ∷ bs) = ground arith
bytes_eq_iff (a ∷ as') [] = ground arith

abbrev pub text_eq : KeyEq Bytes
text_eq = record { same = bytes_eq; same_iff = bytes_eq_iff }

abbrev pub string_key : TagKeyType Bytes
string_key = record { object = string_type.object; eq = text_eq }
