-- ===== src/Signature/Utf8.antt =====
-- `core::str::from_utf8`, which signature.rs calls on the names that it reads: the well-formed
-- byte sequences of the Unicode standard (table 3-7), walked a byte at a time.
use externref.Prelude.{
  ℕ, zero, suc, ◌+◌, ◌≡◌, true, false, List, [], ◌∷◌, Option, none, some, ◌&&◌, leb, ◌==◌,
  if◌then◌else◌, Str,
}
use externref.Signature.Types.{Utf8Error}

-- Between two characters, or inside of one: the next byte lies between two bounds, and after it
-- come `more` bytes from 0x80 to 0xbf.
pub data Utf8State : Type 0 where
  boundary : Utf8State
  inside : ℕ → ℕ → ℕ → Utf8State

-- The state after the first byte of a character; `none` for a byte that begins none.
unfoldable pub lead : ℕ → Option Utf8State
lead b =
    if leb b 0x7f
    then some boundary
    else if leb b 0xc1
    then none
    else if leb b 0xdf
    then some (inside 0x80 0xbf 0)
    else if b == 0xe0
    then some (inside 0xa0 0xbf 1)
    else if b == 0xed
    then some (inside 0x80 0x9f 1)
    else if leb b 0xef
    then some (inside 0x80 0xbf 1)
    else if b == 0xf0
    then some (inside 0x90 0xbf 2)
    else if leb b 0xf3
    then some (inside 0x80 0xbf 2)
    else if b == 0xf4
    then some (inside 0x80 0x8f 2)
    else none

-- `valid` bytes precede the character that is being read, of which `seen` bytes were read.
unfoldable pub utf8_error_from : Utf8State → ℕ → ℕ → List ℕ → Option Utf8Error
utf8_error_from boundary valid seen [] = none
utf8_error_from (inside lo hi more) valid seen [] =
    some (record { valid_up_to = valid; error_len = none })
utf8_error_from boundary valid seen (b ∷ bs) = elim (lead b) [
  | none ↦ some (record { valid_up_to = valid; error_len = some 1 })
  | some boundary ↦ utf8_error_from boundary (valid + 1) 0 bs
  | some (inside lo hi more) ↦ utf8_error_from (inside lo hi more) valid 1 bs
]
utf8_error_from (inside lo hi zero) valid seen (b ∷ bs) = elim (leb lo b && leb b hi) [
  | true ↦ utf8_error_from boundary (valid + seen + 1) 0 bs
  | false ↦ some (record { valid_up_to = valid; error_len = some seen })
]
utf8_error_from (inside lo hi (suc more)) valid seen (b ∷ bs) = elim (leb lo b && leb b hi) [
  | true ↦ utf8_error_from (inside 0x80 0xbf more) valid (seen + 1) bs
  | false ↦ some (record { valid_up_to = valid; error_len = some seen })
]

unfoldable pub utf8_error : List ℕ → Option Utf8Error
utf8_error bs = utf8_error_from boundary 0 0 bs

abbrev pub IsUtf8 : Str → Type 0
IsUtf8 s = utf8_error s ≡ none
