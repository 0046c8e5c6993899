-- ===== src/Pattern.antt =====
-- crates/omsh-exec/src/expand/pattern.rs: the items of a compiled shell pattern.
pub mod Compile
pub mod Compiled
pub mod Matching
pub mod Meaning
pub mod Decide
pub mod Quoted
pub mod Affix
use mathlib.Core.Bool.{xor}
use oh_my_shell.Base.{
  ℕ, Bytes, Bool, true, false, not, ◌&&◌, ◌||◌, Option, none, some, List, [], ◌∷◌, ltb, leb, within,
  ◌==◌, if◌then◌else◌, any, codes, bytes_eq,
}

pub data Class : Type 0 where
  alpha digit alnum upper lower space blank punct print graph cntrl xdigit : Class

-- `Class::from_name`
unfoldable pub from_name : Bytes → Option Class
unfolding bytes_eq
from_name name =
    if bytes_eq name (codes "alpha")
    then some alpha
    else if bytes_eq name (codes "digit")
    then some digit
    else if bytes_eq name (codes "alnum")
    then some alnum
    else if bytes_eq name (codes "upper")
    then some upper
    else if bytes_eq name (codes "lower")
    then some lower
    else if bytes_eq name (codes "space")
    then some space
    else if bytes_eq name (codes "blank")
    then some blank
    else if bytes_eq name (codes "punct")
    then some punct
    else if bytes_eq name (codes "print")
    then some print
    else if bytes_eq name (codes "graph")
    then some graph
    else if bytes_eq name (codes "cntrl")
    then some cntrl
    else if bytes_eq name (codes "xdigit")
    then some xdigit
    else none

-- `u8::is_ascii_uppercase` and the like
abbrev is_upper : ℕ → Bool
is_upper c = within b'A' b'Z' c

abbrev is_lower : ℕ → Bool
is_lower c = within b'a' b'z' c

abbrev is_digit : ℕ → Bool
is_digit c = within b'0' b'9' c

abbrev is_alpha : ℕ → Bool
is_alpha c = is_upper c || is_lower c

abbrev is_graphic : ℕ → Bool
is_graphic c = within 0x21 0x7E c

abbrev is_punct : ℕ → Bool
is_punct c =
    within 0x21 0x2F c || (within 0x3A 0x40 c || (within 0x5B 0x60 c || within 0x7B 0x7E c))

abbrev ascii_class : Class → ℕ → Bool
ascii_class alpha c = is_alpha c
ascii_class digit c = is_digit c
ascii_class alnum c = is_alpha c || is_digit c
ascii_class upper c = is_upper c
ascii_class lower c = is_lower c
ascii_class space c = within 0x09 0x0D c || c == 0x20
ascii_class blank c = c == 0x20 || c == 0x09
ascii_class punct c = is_punct c
ascii_class print c = is_graphic c || c == 0x20
ascii_class graph c = is_graphic c
ascii_class cntrl c = ltb c 0x20 || c == 0x7F
ascii_class xdigit c = is_digit c || (within b'A' b'F' c || within b'a' b'f' c)

-- `Class::contains`: only ASCII characters are in a class.
unfoldable pub class_contains : Class → ℕ → Bool
class_contains class unit = ltb unit 0x80 && ascii_class class unit

pub data Member : Type 0 where
  one : ℕ → Member
  range : ℕ → ℕ → Member
  class : Class → Member

pub record Set : Type 0 where
  pub negate : Bool
  pub members : List Member

unfoldable pub member_contains : ℕ → Member → Bool
unfolding class_contains
member_contains unit (one c) = c == unit
member_contains unit (range lo hi) = leb lo unit && leb unit hi
member_contains unit (class k) = class_contains k unit

-- `Set::contains`
unfoldable pub set_contains : Set → ℕ → Bool
unfolding member_contains xor
set_contains s unit = xor (any (member_contains unit) s.members) s.negate

pub data Item : Type 0 where
  char : ℕ → Item
  any_one any_many : Item
  set : Set → Item

-- `Pattern`: the items in order.
abbrev pub Pattern : Type 0
Pattern = List Item

-- Whether an item other than a star takes the character: the `step` of `matches`.
unfoldable pub takes : Item → ℕ → Bool
unfolding set_contains
takes (char c) unit = c == unit
takes any_one unit = true
takes any_many unit = false
takes (set s) unit = set_contains s unit

abbrev pub is_many : Item → Bool
is_many any_many = true
is_many _ = false

abbrev pub is_char : Item → Bool
is_char (char _) = true
is_char _ = false
