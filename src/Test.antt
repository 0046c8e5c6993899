-- ===== src/Test.antt =====
-- crates/omsh-exec/src/builtins/test.rs: `test` and `[`. This file has the operators; Grammar has
-- the evaluator of an expression.
pub mod Grammar
pub mod Total
pub mod Counts
use oh_my_shell.Base.{
  ℕ, zero, suc, ◌+◌, ◌-◌, ◌*◌, ◌/◌, ◌%◌, ◌^◌, Bytes, Bool, true, false, not, ◌&&◌, ◌||◌, Option,
  none, some, List, [], ◌∷◌, ltb, leb, within, ◌==◌, if◌then◌else◌, any, is_empty, codes, bytes_eq,
}
use oh_my_shell.Chars.{units, invalid_base}
use oh_my_shell.Arith.Word.{word_mod, i64_max, less, wrapping_neg}
use oh_my_shell.Arith.Variable.{trim_chars}

pub data FileType : Type 0 where
  regular directory block_device char_device fifo socket symlink other_type : FileType

-- `std::fs::Metadata`: what the source reads of it. The times are 64-bit words.
pub record Metadata : Type 0 where
  pub file_type : FileType
  pub mode : ℕ
  pub size : ℕ
  pub mtime : ℕ
  pub mtime_nsec : ℕ
  pub dev : ℕ
  pub ino : ℕ
  pub uid : ℕ
  pub gid : ℕ

pub data Access : Type 0 where
  r_ok w_ok x_ok : Access

-- The operating system: `metadata` and `symlink_metadata` (none: an error), `access`, `geteuid`,
-- `getegid`, and whether an open descriptor is a terminal. A relative name is looked up in the
-- directory of the shell.
pub record Os : Type 0 where
  pub metadata : Bytes → Option Metadata
  pub symlink_metadata : Bytes → Option Metadata
  pub access : Bytes → Access → Bool
  pub euid : ℕ
  pub egid : ℕ
  pub is_terminal : ℕ → Bool

-- `Error`: why an expression could not be evaluated.
pub data Error : Type 0 where
  argument_expected closing_paren_expected : Error
  unexpected_operator unknown_operator illegal_number : Bytes → Error

pub data Result {ℓ} (A : Type ℓ) : Type ℓ where
  ok : A → Result A
  err : Error → Result A

-- Whether `op` is one of the literals of a `matches!`.
unfoldable pub one_of : Bytes → List Bytes → Bool
unfolding bytes_eq
one_of op names = any (bytes_eq op) names

abbrev pub binary_operators : List Bytes
binary_operators =
    codes "="
    ∷ codes "=="
    ∷ codes "!="
    ∷ codes "<"
    ∷ codes ">"
    ∷ codes "-eq"
    ∷ codes "-ne"
    ∷ codes "-lt"
    ∷ codes "-le"
    ∷ codes "-gt"
    ∷ codes "-ge"
    ∷ codes "-nt"
    ∷ codes "-ot"
    ∷ codes "-ef"
    ∷ []

abbrev pub unary_operators : List Bytes
unary_operators =
    codes "-b"
    ∷ codes "-c"
    ∷ codes "-d"
    ∷ codes "-e"
    ∷ codes "-f"
    ∷ codes "-g"
    ∷ codes "-h"
    ∷ codes "-k"
    ∷ codes "-L"
    ∷ codes "-n"
    ∷ codes "-p"
    ∷ codes "-r"
    ∷ codes "-S"
    ∷ codes "-s"
    ∷ codes "-t"
    ∷ codes "-u"
    ∷ codes "-w"
    ∷ codes "-x"
    ∷ codes "-z"
    ∷ codes "-O"
    ∷ codes "-G"
    ∷ []

unfoldable pub binary : Bytes → Bool
unfolding one_of
binary op = one_of op binary_operators

unfoldable pub unary : Bytes → Bool
unfolding one_of
unary op = one_of op unary_operators

-- The digits of `parse::<i64>`, of any length; `none`: a character that is no digit.
unfoldable pub decimal_digits : ℕ → List ℕ → Option ℕ
decimal_digits value [] = some value
decimal_digits value (c ∷ cs) =
    let rest = decimal_digits (value * 10 + (c - b'0')) cs in
    if within b'0' b'9' c then rest else none

-- The word of a magnitude up to `most`, with its sign; past it the parse fails.
abbrev bounded : ℕ → (ℕ → ℕ) → Option ℕ → Option ℕ
bounded most sign none = none
bounded most sign (some n) = if leb n most then some (sign n) else none

unfoldable pub magnitude_of : ℕ → (ℕ → ℕ) → List ℕ → Option ℕ
unfolding decimal_digits
magnitude_of most sign [] = none
magnitude_of most sign (c ∷ cs) = bounded most sign (decimal_digits 0 (c ∷ cs))

-- `parse::<i64>().ok()`
unfoldable pub parse_i64 : List ℕ → Option ℕ
unfolding magnitude_of wrapping_neg
parse_i64 [] = none
parse_i64 (c ∷ cs) =
    if c == b'-'
    then magnitude_of (suc i64_max) wrapping_neg cs
    else if c == b'+'
    then magnitude_of i64_max (λ n. n) cs
    else magnitude_of i64_max (λ n. n) (c ∷ cs)

-- `number`: text that is not UTF-8 is no number.
unfoldable pub number : Bytes → Result ℕ
unfolding units trim_chars parse_i64
number text =
    if any (leb invalid_base) (units text)
    then err (illegal_number text)
    else elim (parse_i64 (trim_chars (units text))) [
      | none ↦ err (illegal_number text)
      | some n ↦ ok n
    ]

-- `<` on byte strings
unfoldable pub bytes_less : Bytes → Bytes → Bool
bytes_less s [] = false
bytes_less [] (_ ∷ _) = true
bytes_less (a ∷ s) (b ∷ t) = ltb a b || ((a == b) && bytes_less s t)

-- The comparison that `op` names, on two words.
unfoldable pub compare_numbers : Bytes → ℕ → ℕ → Bool
unfolding bytes_eq less
compare_numbers op a b =
    if bytes_eq op (codes "-eq")
    then a == b
    else if bytes_eq op (codes "-ne")
    then not (a == b)
    else if bytes_eq op (codes "-lt")
    then less a b
    else if bytes_eq op (codes "-le")
    then not (less b a)
    else if bytes_eq op (codes "-gt")
    then less b a
    else not (less a b)

abbrev both_numbers : Bytes → Result ℕ → Result ℕ → Result Bool
both_numbers op (err e) b = err e
both_numbers op (ok a) (err e) = err e
both_numbers op (ok a) (ok b) = ok (compare_numbers op a b)

-- `(a.mtime(), a.mtime_nsec()) > (b.mtime(), b.mtime_nsec())`
unfoldable pub newer : Metadata → Metadata → Bool
unfolding less
newer a b = less b.mtime a.mtime || ((a.mtime == b.mtime) && less b.mtime_nsec a.mtime_nsec)

abbrev newer_than : Option Metadata → Option Metadata → Bool
newer_than (some a) (some b) = newer a b
newer_than (some _) none = true
newer_than none _ = false

abbrev same_file : Option Metadata → Option Metadata → Bool
same_file (some a) (some b) = (a.dev == b.dev) && a.ino == b.ino
same_file _ _ = false

unfoldable pub compare : Os → Bytes → Bytes → Bytes → Result Bool
unfolding one_of number bytes_less compare_numbers newer
compare os left op right =
    if one_of op (codes "=" ∷ codes "==" ∷ [])
    then ok (bytes_eq left right)
    else if bytes_eq op (codes "!=")
    then ok (not (bytes_eq left right))
    else if bytes_eq op (codes "<")
    then ok (bytes_less left right)
    else if bytes_eq op (codes ">")
    then ok (bytes_less right left)
    else if one_of op
        (codes "-eq" ∷ codes "-ne" ∷ codes "-lt" ∷ codes "-le" ∷ codes "-gt" ∷ codes "-ge" ∷ [])
    then both_numbers op (number left) (number right)
    else if bytes_eq op (codes "-nt")
    then ok (newer_than (os.metadata left) (os.metadata right))
    else if bytes_eq op (codes "-ot")
    then ok (newer_than (os.metadata right) (os.metadata left))
    else if bytes_eq op (codes "-ef")
    then ok (same_file (os.metadata left) (os.metadata right))
    else err (unknown_operator op)

abbrev is_type : FileType → FileType → Bool
is_type regular regular = true
is_type directory directory = true
is_type block_device block_device = true
is_type char_device char_device = true
is_type fifo fifo = true
is_type socket socket = true
is_type symlink symlink = true
is_type _ _ = false

-- `mode & bit != 0`, for one bit.
abbrev has_bit : ℕ → ℕ → Bool
has_bit mode bit = (mode / bit) % 2 == 1

abbrev terminal_test : Os → Result ℕ → Result Bool
terminal_test os (err e) = err e
terminal_test os (ok fd) = ok (ltb fd (2 ^ 32) && os.is_terminal fd)

abbrev link_test : Option Metadata → Bool
link_test none = false
link_test (some m) = is_type m.file_type symlink

-- The tests that need the metadata of the file.
unfoldable pub file_test : Os → Bytes → Option Metadata → Result Bool
unfolding bytes_eq
file_test os op none = ok false
file_test os op (some meta) =
    if bytes_eq op (codes "-e")
    then ok true
    else if bytes_eq op (codes "-f")
    then ok (is_type meta.file_type regular)
    else if bytes_eq op (codes "-d")
    then ok (is_type meta.file_type directory)
    else if bytes_eq op (codes "-b")
    then ok (is_type meta.file_type block_device)
    else if bytes_eq op (codes "-c")
    then ok (is_type meta.file_type char_device)
    else if bytes_eq op (codes "-p")
    then ok (is_type meta.file_type fifo)
    else if bytes_eq op (codes "-S")
    then ok (is_type meta.file_type socket)
    else if bytes_eq op (codes "-s")
    then ok (ltb 0 meta.size)
    else if bytes_eq op (codes "-g")
    then ok (has_bit meta.mode 0o2000)
    else if bytes_eq op (codes "-u")
    then ok (has_bit meta.mode 0o4000)
    else if bytes_eq op (codes "-k")
    then ok (has_bit meta.mode 0o1000)
    else if bytes_eq op (codes "-O")
    then ok (meta.uid == os.euid)
    else if bytes_eq op (codes "-G")
    then ok (meta.gid == os.egid)
    else err (unknown_operator op)

unfoldable pub unary_test : Os → Bytes → Bytes → Result Bool
unfolding one_of number file_test
unary_test os op operand =
    if bytes_eq op (codes "-n")
    then ok (not (is_empty operand))
    else if bytes_eq op (codes "-z")
    then ok (is_empty operand)
    else if bytes_eq op (codes "-t")
    then terminal_test os (number operand)
    else if one_of op (codes "-h" ∷ codes "-L" ∷ [])
    then ok (link_test (os.symlink_metadata operand))
    else if bytes_eq op (codes "-r")
    then ok (os.access operand r_ok)
    else if bytes_eq op (codes "-w")
    then ok (os.access operand w_ok)
    else if bytes_eq op (codes "-x")
    then ok (os.access operand x_ok)
    else file_test os op (os.metadata operand)
