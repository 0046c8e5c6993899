-- ===== src/Arith/Word.antt =====
-- `i64` with the operations that wrap around: a value is its 64-bit pattern, a number below 2 ^ 64.
use oh_my_shell.Base.{
  ℕ, ◌+◌, ◌-◌, ◌*◌, ◌/◌, ◌%◌, ◌^◌, Bool, true, false, ltb, leb, if◌then◌else◌, not,
}

abbrev pub word_mod : ℕ
word_mod = 0x1_0000_0000_0000_0000

abbrev pub i64_max : ℕ
i64_max = 0x7FFF_FFFF_FFFF_FFFF

abbrev pub i64_min : ℕ
i64_min = 0x8000_0000_0000_0000

abbrev pub is_negative : ℕ → Bool
is_negative a = leb i64_min a

-- The absolute value, as a number.
abbrev pub magnitude : ℕ → ℕ
magnitude a = if is_negative a then word_mod - a else a

-- A number with a sign, wrapped.
abbrev pub with_sign : Bool → ℕ → ℕ
with_sign negative m = if negative then (word_mod - m) % word_mod else m % word_mod

abbrev differ : Bool → Bool → Bool
differ true b = not b
differ false b = b

unfoldable pub wrapping_add : ℕ → ℕ → ℕ
wrapping_add a b = (a + b) % word_mod

unfoldable pub wrapping_sub : ℕ → ℕ → ℕ
wrapping_sub a b = (a + word_mod - b) % word_mod

unfoldable pub wrapping_mul : ℕ → ℕ → ℕ
wrapping_mul a b = (a * b) % word_mod

unfoldable pub wrapping_neg : ℕ → ℕ
wrapping_neg a = (word_mod - a) % word_mod

-- `!value`
unfoldable pub bit_not : ℕ → ℕ
bit_not a = word_mod - 1 - a

-- Truncating division; the callers exclude a zero divisor.
unfoldable pub wrapping_div : ℕ → ℕ → ℕ
wrapping_div a b = with_sign (differ (is_negative a) (is_negative b)) (magnitude a / magnitude b)

unfoldable pub wrapping_rem : ℕ → ℕ → ℕ
wrapping_rem a b = with_sign (is_negative a) (magnitude a % magnitude b)

-- `right as u32`, and the count modulo 64.
abbrev pub shift_count : ℕ → ℕ
shift_count right = right % 0x1_0000_0000 % 64

unfoldable pub wrapping_shl : ℕ → ℕ → ℕ
wrapping_shl a right = a * 2 ^ shift_count right % word_mod

-- The arithmetic shift, which keeps the sign.
unfoldable pub wrapping_shr : ℕ → ℕ → ℕ
wrapping_shr a right =
    if is_negative a
    then word_mod - 1 - (word_mod - 1 - a) / 2 ^ shift_count right
    else a / 2 ^ shift_count right

-- The signed order.
abbrev biased : ℕ → ℕ
biased a = (a + i64_min) % word_mod

unfoldable pub less : ℕ → ℕ → Bool
less a b = ltb (biased a) (biased b)

unfoldable pub less_eq : ℕ → ℕ → Bool
less_eq a b = leb (biased a) (biased b)

-- `i64::from` of a bool
abbrev pub from_bool : Bool → ℕ
from_bool true = 1
from_bool false = 0
