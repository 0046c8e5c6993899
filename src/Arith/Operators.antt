-- ===== src/Arith/Operators.antt =====
-- The tables of operators of arith.rs: those that assign, `LEVELS`, and `apply`.
use Prim.Native.Nat.{bit_and, bit_or, bit_xor}
use oh_my_shell.Base.{ℕ, Bool, false, not, Option, none, some, ◌==◌, if◌then◌else◌}
use oh_my_shell.Arith.Word.{
  from_bool, wrapping_add, wrapping_sub, wrapping_mul, wrapping_div, wrapping_rem, wrapping_shl,
  wrapping_shr,
}
use oh_my_shell.Arith.Word
use oh_my_shell.Arith.Token.{
  Op, shl_assign, shr_assign, and_and, or_or, eq_eq, not_eq, less_eq, greater_eq, shl, shr,
  add_assign, sub_assign, mul_assign, div_assign, rem_assign, and_assign, xor_assign, or_assign,
  plus, minus, star, slash, percent, less, greater, amp, caret, bar, assign, division_by_zero,
  unknown_operator, Result, ok, err,
}

-- The operators that assign: the operator without its `=`, or none for `=` itself.
unfoldable pub assigns : Op → Option (Option Op)
assigns assign = some none
assigns shl_assign = some (some shl)
assigns shr_assign = some (some shr)
assigns add_assign = some (some plus)
assigns sub_assign = some (some minus)
assigns mul_assign = some (some star)
assigns div_assign = some (some slash)
assigns rem_assign = some (some percent)
assigns and_assign = some (some amp)
assigns xor_assign = some (some caret)
assigns or_assign = some (some bar)
assigns _ = none

-- `LEVELS`, by the position of the level that holds the operator.
unfoldable pub level_of : Op → Option ℕ
level_of or_or = some 0
level_of and_and = some 1
level_of bar = some 2
level_of caret = some 3
level_of amp = some 4
level_of eq_eq = some 5
level_of not_eq = some 5
level_of less = some 6
level_of less_eq = some 6
level_of greater = some 6
level_of greater_eq = some 6
level_of shl = some 7
level_of shr = some 7
level_of plus = some 8
level_of minus = some 8
level_of star = some 9
level_of slash = some 9
level_of percent = some 9
level_of _ = none

abbrev pub levels : ℕ
levels = 10

-- `LEVELS[level].contains(&op)`
abbrev pub at_level : ℕ → Option ℕ → Bool
at_level level none = false
at_level level (some l) = l == level

-- `apply`
unfoldable pub apply : Op → ℕ → ℕ → Result ℕ
unfolding wrapping_add wrapping_sub wrapping_mul wrapping_div wrapping_rem wrapping_shl wrapping_shr
    Word.less Word.less_eq
apply plus l r = ok (wrapping_add l r)
apply minus l r = ok (wrapping_sub l r)
apply star l r = ok (wrapping_mul l r)
apply slash l r = if r == 0 then err division_by_zero else ok (wrapping_div l r)
apply percent l r = if r == 0 then err division_by_zero else ok (wrapping_rem l r)
apply shl l r = ok (wrapping_shl l r)
apply shr l r = ok (wrapping_shr l r)
apply less l r = ok (from_bool (Word.less l r))
apply less_eq l r = ok (from_bool (Word.less_eq l r))
apply greater l r = ok (from_bool (Word.less r l))
apply greater_eq l r = ok (from_bool (Word.less_eq r l))
apply eq_eq l r = ok (from_bool (l == r))
apply not_eq l r = ok (from_bool (not (l == r)))
apply amp l r = ok (bit_and l r)
apply caret l r = ok (bit_xor l r)
apply bar l r = ok (bit_or l r)
apply _ l r = err unknown_operator
