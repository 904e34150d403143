-- ===== src/Types/Utf8.antt =====
-- UTF-8 validation, as `String::from_utf8` of the standard library does it: the well-formed byte sequences of the
-- Unicode standard, read byte by byte. A Rust `String` is modelled by its bytes.
use tux_io_encoding.Prelude.{
  ℕ, zero, suc, ◌<◌, ◌≡◌, refl, Bool, true, false, ◌&&◌, Option, none, some, [], ◌∷◌, arith, ltb,
  leb, ◌==◌, if◌then◌else◌, All,
}
use tux_io_encoding.Error.{EncodingError, invalid_utf8, Result, ok, err}
use tux_io_encoding.Io.{Bytes}

-- What the next byte must be: the start of a character, or the next of `more + 1` continuation bytes, the first of
-- which lies between `lo` and `hi`.
pub data State : Type 0 where
  start : State
  continuation : ℕ → ℕ → ℕ → State

abbrev within : ℕ → ℕ → ℕ → Bool
within lo hi b = leb lo b && leb b hi

lead : ℕ → Option State
lead b =
    if ltb b 0x80
    then some start
    else if within 0xc2 0xdf b
    then some (continuation 0x80 0xbf 0)
    else if b == 0xe0
    then some (continuation 0xa0 0xbf 1)
    else if b == 0xed
    then some (continuation 0x80 0x9f 1)
    else if within 0xe1 0xef b
    then some (continuation 0x80 0xbf 1)
    else if b == 0xf0
    then some (continuation 0x90 0xbf 2)
    else if within 0xf1 0xf3 b
    then some (continuation 0x80 0xbf 2)
    else if b == 0xf4
    then some (continuation 0x80 0x8f 2)
    else none

follow : ℕ → State
follow zero = start
follow (suc more) = continuation 0x80 0xbf more

step : State → ℕ → Option State
unfolding lead follow
step start b = lead b
step (continuation lo hi more) b = if within lo hi b then some (follow more) else none

run : State → Bytes → Option State
unfolding step
run s [] = some s
run s (b ∷ bs) = elim (step s b) [ none ↦ none | some s' ↦ run s' bs ]

-- The text ends between two characters.
complete : Option State → Bool
complete (some start) = true
complete _ = false

unfoldable pub is_utf8 : Bytes → Bool
unfolding run complete
is_utf8 bs = complete (run start bs)

abbrev pub IsUtf8 : Bytes → Type 0
IsUtf8 bs = is_utf8 bs ≡ true

unfoldable pub from_utf8 : Bytes → Result EncodingError Bytes
unfolding is_utf8
from_utf8 bs = if is_utf8 bs then ok bs else err invalid_utf8

pub from_utf8-IsUtf8 : (bs : Bytes) → IsUtf8 bs → from_utf8 bs ≡ ok bs
unfolding from_utf8
from_utf8-IsUtf8 bs h = rw h

is_ascii-step : (b : ℕ) → b < 0x80 → step start b ≡ some start
unfolding step
is_ascii-step b h = ground arith

-- Every ASCII text is valid.
pub IsUtf8-ascii : (bs : Bytes) → All (λ b. b < 0x80) bs → IsUtf8 bs
unfolding is_utf8
IsUtf8-ascii [] h = refl
IsUtf8-ascii (b ∷ bs) (hb, hbs) = rw (is_ascii-step b hb, run) (IsUtf8-ascii bs hbs)
