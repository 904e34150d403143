-- ===== src/Types/Limit.antt =====
-- The limits of types.rs on what a `u16` prefix can count.
use tux_io_encoding.Prelude.{ℕ, ◌≤◌, String, ◌≡◌, arith, ltb, if◌then◌else◌}
use tux_io_encoding.Error.{EncodingError, type_too_large, too_many_entries, Result, ok, err}

abbrev pub max_prefixed_length : ℕ
max_prefixed_length = 65535

unfoldable pub length_is_allowed : String → ℕ → Result EncodingError (Unit {0})
length_is_allowed type_name size =
    if ltb max_prefixed_length size
    then err (type_too_large type_name size max_prefixed_length)
    else ok tt

unfoldable pub count_is_allowed : String → ℕ → Result EncodingError (Unit {0})
count_is_allowed type_name count =
    if ltb max_prefixed_length count
    then err (too_many_entries type_name count max_prefixed_length)
    else ok tt

pub length_is_allowed_le : (s : String) (n : ℕ) → n ≤ 65535 → length_is_allowed s n ≡ ok tt
unfolding length_is_allowed
length_is_allowed_le s n h = ground arith

pub count_is_allowed_le : (s : String) (n : ℕ) → n ≤ 65535 → count_is_allowed s n ≡ ok tt
unfolding count_is_allowed
count_is_allowed_le s n h = ground arith

pub length_is_allowed-ok :
    (s : String) (n : ℕ) {u : Unit} → length_is_allowed s n ≡ ok u → n ≤ 65535
unfolding length_is_allowed
length_is_allowed-ok s n h = ground arith

pub count_is_allowed-ok : (s : String) (n : ℕ) {u : Unit} → count_is_allowed s n ≡ ok u → n ≤ 65535
unfolding count_is_allowed
count_is_allowed-ok s n h = ground arith
