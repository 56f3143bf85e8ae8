-- ===== src/Prelude/Ascii.antt =====
-- The functions of Rust's standard library on texts that look at bytes: `trim`, `str::from_utf8`,
-- `parse::<u8>`.
use Prim.Native.Nat.{ℕ, ◌+◌, ◌-◌, ◌*◌}
use mathlib.Core.Bool.{Bool, true, false, ◌&&◌, ◌||◌}
use mathlib.Core.Option.{Option, none, some}
use mathlib.Core.List.{[], ◌∷◌, reverse}
use grcache.Prelude.Tests.{nat_beq, leb, ltb, if◌then◌else◌}
use grcache.Prelude.Equality.{Text}

-- The white space among the ASCII characters.
abbrev pub is_whitespace : ℕ → Bool
is_whitespace c = nat_beq c 32 || leb 9 c && leb c 13

unfoldable pub trim_start : Text → Text
trim_start [] = []
trim_start (c ∷ s) = let rest = trim_start s in if is_whitespace c then rest else c ∷ s

-- `trim`, of a text of ASCII characters
unfoldable pub trim : Text → Text
unfolding trim_start
trim s = reverse (trim_start (reverse (trim_start s)))

abbrev within : ℕ → ℕ → ℕ → Bool
within lo hi b = leb lo b && leb b hi

-- A continuation byte.
abbrev is_tail : ℕ → Bool
is_tail = within 0x80 0xbf

-- Whether the bytes are well-formed UTF-8: the table of byte sequences of the Unicode standard.
unfoldable pub is_utf8 : Text → Bool
is_utf8 [] = true
is_utf8 (a ∷ []) = ltb a 0x80
is_utf8 (a ∷ b ∷ []) = ltb a 0x80 && is_utf8 (b ∷ []) || within 0xc2 0xdf a && is_tail b
is_utf8 (a ∷ b ∷ c ∷ []) =
    ltb a 0x80 && is_utf8 (b ∷ c ∷ [])
    || within 0xc2 0xdf a && is_tail b && is_utf8 (c ∷ [])
    || nat_beq a 0xe0 && within 0xa0 0xbf b && is_tail c
    || (within 0xe1 0xec a || within 0xee 0xef a) && is_tail b && is_tail c
    || nat_beq a 0xed && within 0x80 0x9f b && is_tail c
is_utf8 (a ∷ b ∷ c ∷ d ∷ s) =
    let one = is_utf8 (b ∷ c ∷ d ∷ s) in
    let two = is_utf8 (c ∷ d ∷ s) in
    let three = is_utf8 (d ∷ s) in
    let four = is_utf8 s in
    if ltb a 0x80
    then one
    else if within 0xc2 0xdf a
    then (if is_tail b then two else false)
    else if nat_beq a 0xe0
    then (if within 0xa0 0xbf b && is_tail c then three else false)
    else if within 0xe1 0xec a || within 0xee 0xef a
    then (if is_tail b && is_tail c then three else false)
    else if nat_beq a 0xed
    then (if within 0x80 0x9f b && is_tail c then three else false)
    else if nat_beq a 0xf0
    then (if within 0x90 0xbf b && is_tail c && is_tail d then four else false)
    else if within 0xf1 0xf3 a
    then (if is_tail b && is_tail c && is_tail d then four else false)
    else if nat_beq a 0xf4
    then (if within 0x80 0x8f b && is_tail c && is_tail d then four else false)
    else false

abbrev pub is_digit : ℕ → Bool
is_digit c = leb b'0' c && leb c b'9'

-- The digits of a `u8`, after those read into `acc`; `none` past the end of the type, or at a byte
-- that is no digit.
unfoldable pub u8_digits : ℕ → Text → Option ℕ
u8_digits acc [] = some acc
u8_digits acc (c ∷ s) =
    let rest = u8_digits (acc * 10 + (c - 48)) s in
    if is_digit c && ltb (acc * 10 + (c - 48)) 256 then rest else none

-- `parse::<u8>()`: an optional `+`, then at least one digit.
unfoldable pub parse_u8 : Text → Option ℕ
parse_u8 [] = none
parse_u8 (c ∷ []) = u8_digits 0 (c ∷ [])
parse_u8 (c ∷ d ∷ s) = if nat_beq c b'+' then u8_digits 0 (d ∷ s) else u8_digits 0 (c ∷ d ∷ s)
