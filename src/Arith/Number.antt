-- ===== src/Arith/Number.antt =====
-- `parse_number`, and the decimal text that `to_string` writes.
pub mod Saturation
pub mod Decimal
pub mod Numerals
use oh_my_shell.Base.{
  ℕ, zero, suc, ◌+◌, ◌-◌, ◌*◌, ◌/◌, ◌%◌, Bytes, Bool, true, false, ◌||◌, Option, none, some, List,
  [], ◌∷◌, ◌++◌, ltb, leb, within, ◌==◌, if◌then◌else◌,
}
use oh_my_shell.Arith.Word.{word_mod, i64_max, is_negative, magnitude}

-- `char::to_digit`, for a radix up to 16.
unfoldable pub digit_value : ℕ → ℕ
digit_value c =
    if within b'0' b'9' c
    then c - b'0'
    else if within b'a' b'f' c
    then c - b'a' + 10
    else if within b'A' b'F' c
    then c - b'A' + 10
    else 36

unfoldable pub to_digit : ℕ → ℕ → Option ℕ
unfolding digit_value
to_digit radix c = if ltb (digit_value c) radix then some (digit_value c) else none

-- `checked_mul`, `checked_add`, and the largest number where one of them fails.
unfoldable pub push_digit : ℕ → ℕ → ℕ → ℕ
push_digit radix value digit =
    if leb (value * radix) i64_max
    then (if leb (value * radix + digit) i64_max then value * radix + digit else i64_max)
    else i64_max

-- The loop over the digits; `none`: a character that is no digit.
unfoldable pub digits_loop : ℕ → ℕ → Bytes → Option ℕ
unfolding to_digit push_digit
digits_loop radix value [] = some value
digits_loop radix value (b ∷ rest) = elim (to_digit radix b) [
  | none ↦ none
  | some digit ↦ digits_loop radix (push_digit radix value digit) rest
]

-- The digits without the prefix, and the radix.
unfoldable pub split_radix : Bytes → Bytes × ℕ
split_radix [] = ([], 10)
split_radix (a ∷ []) = (a ∷ [], 10)
split_radix (a ∷ b ∷ rest) =
    if a == b'0'
    then (if b == b'x' || b == b'X' then (rest, 16) else (b ∷ rest, 8))
    else (a ∷ b ∷ rest, 10)

unfoldable pub parse_digits : Bytes × ℕ → Option ℕ
unfolding digits_loop
parse_digits ([], radix) = none
parse_digits (b ∷ rest, radix) = digits_loop radix 0 (b ∷ rest)

unfoldable pub parse_number : Bytes → Option ℕ
unfolding parse_digits split_radix
parse_number text = parse_digits (split_radix text)

-- `u64::to_string`: the digits before `tail`; a number below 10 ^ fuel is written whole.
unfoldable pub decimal : ℕ → ℕ → Bytes → Bytes
decimal zero n tail = tail
decimal (suc f) n tail =
    let digit = b'0' + n % 10 in
    if ltb n 10 then digit ∷ tail else decimal f (n / 10) (digit ∷ tail)

-- `i64::to_string`: twenty digits are more than a word has.
unfoldable pub to_string : ℕ → Bytes
unfolding decimal
to_string a = if is_negative a then b'-' ∷ decimal 20 (magnitude a) [] else decimal 20 a []
