-- ===== src/Pattern/Affix.antt =====
-- The parts of a value that `${x#p}`, `${x##p}`, `${x%p}` and `${x%%p}` cut off:
-- `shortest_prefix` and its three relatives in pattern.rs, and `trim` in expand/param.rs.
pub mod Extremal
use oh_my_shell.Base.{
  ℕ, Bytes, Bool, true, false, Option, none, some, List, [], ◌∷◌, take, drop, find, if◌then◌else◌,
}
use oh_my_shell.Base.Order.{backwards}
use oh_my_shell.Chars.{boundaries}
use oh_my_shell.Pattern.{Pattern}
use oh_my_shell.Pattern.Matching.{is_match}

unfoldable pub shortest_prefix : Pattern → Bytes → Option ℕ
unfolding boundaries is_match backwards
shortest_prefix p text = find (λ end. is_match p (take end text)) (boundaries text)

unfoldable pub longest_prefix : Pattern → Bytes → Option ℕ
unfolding boundaries is_match backwards
longest_prefix p text = find (λ end. is_match p (take end text)) (backwards (boundaries text))

unfoldable pub shortest_suffix : Pattern → Bytes → Option ℕ
unfolding boundaries is_match backwards
shortest_suffix p text = find (λ start. is_match p (drop start text)) (backwards (boundaries text))

unfoldable pub longest_suffix : Pattern → Bytes → Option ℕ
unfolding boundaries is_match backwards
longest_suffix p text = find (λ start. is_match p (drop start text)) (boundaries text)

-- The operators inside `${...}`; `trim` leaves the value alone for all but four of them.
pub data ParamOp : Type 0 where
  colon_dash colon_equals colon_question colon_plus dash equals question plus : ParamOp
  hash double_hash percent double_percent unsupported : ParamOp

abbrev pub or_whole : Bytes → Option Bytes → Bytes
or_whole value none = value
or_whole value (some rest) = rest

abbrev pub cut : (ℕ → Bytes) → Option ℕ → Option Bytes
cut f none = none
cut f (some n) = some (f n)

unfoldable pub trim : Pattern → ParamOp → Bytes → Bytes
unfolding shortest_prefix longest_prefix shortest_suffix longest_suffix
trim p hash value = or_whole value (cut (λ n. drop n value) (shortest_prefix p value))
trim p double_hash value = or_whole value (cut (λ n. drop n value) (longest_prefix p value))
trim p percent value = or_whole value (cut (λ n. take n value) (shortest_suffix p value))
trim p double_percent value = or_whole value (cut (λ n. take n value) (longest_suffix p value))
trim p _ value = or_whole value none
