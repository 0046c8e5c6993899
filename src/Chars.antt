-- ===== src/Chars.antt =====
-- crates/omsh-exec/src/expand/pattern.rs, `unit_at` and `boundaries`: reading a byte string as
-- characters, where a byte that is not valid UTF-8 is a character of its own.
pub mod Utf8
pub mod Decode
pub mod Boundaries
use oh_my_shell.Base.{
  ℕ, zero, suc, ◌+◌, ◌*◌, ◌%◌, Bytes, Bool, true, false, ◌&&◌, Option, none, some, List, [], ◌∷◌,
  ltb, leb, within, ◌==◌, if◌then◌else◌, length, drop,
}

abbrev pub invalid_base : ℕ
invalid_base = 0x11_0000

-- A UTF-8 continuation byte.
abbrev pub is_continuation : ℕ → Bool
is_continuation b = within 0x80 0xBF b

-- `str::from_utf8` on exactly two, three or four bytes with a lead byte of that length: the
-- code point, or none for an ill-formed sequence (overlong, surrogate or past U+10FFFF).
unfoldable pub from_utf8_2 : ℕ → Bytes → Option ℕ
from_utf8_2 a [] = none
from_utf8_2 a (b ∷ _) = if is_continuation b then some ((a % 32) * 64 + b % 64) else none

abbrev pub second_of_3 : ℕ → ℕ → Bool
second_of_3 a b =
    if a == 0xE0
    then within 0xA0 0xBF b
    else if a == 0xED
    then within 0x80 0x9F b
    else is_continuation b

unfoldable pub from_utf8_3 : ℕ → Bytes → Option ℕ
from_utf8_3 a [] = none
from_utf8_3 a (b ∷ []) = none
from_utf8_3 a (b ∷ c ∷ _) =
    if second_of_3 a b && is_continuation c
    then some ((a % 16) * 4096 + (b % 64) * 64 + c % 64)
    else none

abbrev pub second_of_4 : ℕ → ℕ → Bool
second_of_4 a b =
    if a == 0xF0
    then within 0x90 0xBF b
    else if a == 0xF4
    then within 0x80 0x8F b
    else is_continuation b

unfoldable pub from_utf8_4 : ℕ → Bytes → Option ℕ
from_utf8_4 a [] = none
from_utf8_4 a (b ∷ []) = none
from_utf8_4 a (b ∷ c ∷ []) = none
from_utf8_4 a (b ∷ c ∷ d ∷ _) =
    if second_of_4 a b && (is_continuation c && is_continuation d)
    then some ((a % 8) * 262144 + (b % 64) * 4096 + (c % 64) * 64 + d % 64)
    else none

-- The decoded character, or the lead byte alone.
abbrev pub or_invalid : ℕ → ℕ → Option ℕ → ℕ × ℕ
or_invalid first len none = (invalid_base + first, 1)
or_invalid first len (some c) = (c, len)

-- `unit_at` of the text that begins with the byte `first`, followed by `rest`.
unfoldable pub unit_at : ℕ → Bytes → ℕ × ℕ
unit_at first rest =
    if ltb first 0x80
    then (first, 1)
    else if within 0xC2 0xDF first
    then or_invalid first 2 (from_utf8_2 first rest)
    else if within 0xE0 0xEF first
    then or_invalid first 3 (from_utf8_3 first rest)
    else if within 0xF0 0xF4 first
    then or_invalid first 4 (from_utf8_4 first rest)
    else (invalid_base + first, 1)

-- The text after its first character: `&text[len..]`, `len` as `unit_at` gives it.
abbrev pub after_unit : ℕ → Bytes → Bytes
after_unit first rest = drop (unit_at first rest).1 (first ∷ rest)

-- The loop of `boundaries`, at the offset `at` with `rest` of the text left; it runs on fuel.
unfoldable pub boundaries_loop : ℕ → ℕ → Bytes → List ℕ
boundaries_loop f at [] = at ∷ []
boundaries_loop zero at (b ∷ rest) = []
boundaries_loop (suc f) at (b ∷ rest) =
    at ∷ boundaries_loop f (at + (unit_at b rest).1) (after_unit b rest)

unfoldable pub boundaries : Bytes → List ℕ
unfolding boundaries_loop
boundaries text = boundaries_loop (length text) 0 text

-- The characters of a text, each as its number.
unfoldable pub units_loop : ℕ → Bytes → List ℕ
units_loop f [] = []
units_loop zero (b ∷ rest) = []
units_loop (suc f) (b ∷ rest) = (unit_at b rest).0 ∷ units_loop f (after_unit b rest)

unfoldable pub units : Bytes → List ℕ
unfolding units_loop
units text = units_loop (length text) text
