-- ===== src/Umask.antt =====
-- crates/omsh-exec/src/builtins/umask.rs: the texts of a file creation mask. A mask is a number
-- below 0o1000, and so is `!mask & 0o777`, the complement in nine bits.
pub mod RoundTrip
pub mod Command
use Prim.Native.Nat.{bit_and, bit_or}
use oh_my_shell.Base.{
  ℕ, zero, suc, ◌+◌, ◌-◌, ◌*◌, ◌/◌, ◌%◌, Bytes, Bool, true, false, ◌||◌, Option, none, some, List,
  [], ◌∷◌, ◌++◌, ltb, leb, within, ◌==◌, if◌then◌else◌, codes,
}

-- `!mask & 0o777`
abbrev pub complement : ℕ → ℕ
complement mask = 0o777 - bit_and mask 0o777

-- One letter of `part`.
abbrev letter_if : ℕ → ℕ → ℕ → Bytes → Bytes
letter_if bits bit letter out = if bit_and bits bit == 0 then out else letter ∷ out

-- `part(shift)`, before `out`; `place` is 1 << shift.
abbrev part : ℕ → ℕ → Bytes → Bytes
part allowed place out =
    let bits = bit_and (allowed / place) 7 in
    letter_if bits 4 b'r' (letter_if bits 2 b'w' (letter_if bits 1 b'x' out))

unfoldable pub describe : ℕ → Bytes
describe mask =
    let allowed = complement mask in
    b'u'
    ∷ b'='
    ∷ part allowed 64 (b',' ∷ b'g' ∷ b'=' ∷ part allowed 8 (b',' ∷ b'o' ∷ b'=' ∷ part allowed 1 []))

-- `format!("{current:04o}")`
unfoldable pub octal : ℕ → Bytes
octal mask =
    (b'0' + mask / 512 % 8)
    ∷ (b'0' + mask / 64 % 8)
    ∷ (b'0' + mask / 8 % 8)
    ∷ (b'0' + mask % 8)
    ∷ []

-- The digits of `from_str_radix(t, 8)`; a number past 0o777 is refused by what follows.
unfoldable pub octal_digits : ℕ → Bytes → Option ℕ
octal_digits value [] = some value
octal_digits value (b ∷ rest) =
    let all = octal_digits (value * 8 + (b - b'0')) rest in if within b'0' b'7' b then all else none

abbrev pub up_to_777 : Option ℕ → Option ℕ
up_to_777 none = none
up_to_777 (some m) = if leb m 0o777 then some m else none

-- `clause.iter().position(..)`: what stands before the operator, the operator, and what follows.
unfoldable pub split_clause : Bytes → Option (Bytes × ℕ × Bytes)
split_clause [] = none
split_clause (b ∷ rest) =
    let later = split_clause rest in
    if (b == b'=') || ((b == b'+') || b == b'-')
    then some ([], b, rest)
    else elim later [ none ↦ none | some (who, op, perms) ↦ some (b ∷ who, op, perms) ]

unfoldable pub who_bits : ℕ → Bytes → Option ℕ
who_bits who [] = some who
who_bits who (b ∷ rest) =
    if b == b'u'
    then who_bits (bit_or who 0o700) rest
    else if b == b'g'
    then who_bits (bit_or who 0o070) rest
    else if b == b'o'
    then who_bits (bit_or who 0o007) rest
    else if b == b'a'
    then who_bits (bit_or who 0o777) rest
    else none

unfoldable pub perm_bits : ℕ → Bytes → Option ℕ
perm_bits bits [] = some bits
perm_bits bits (b ∷ rest) =
    if b == b'r'
    then perm_bits (bit_or bits 0o444) rest
    else if b == b'w'
    then perm_bits (bit_or bits 0o222) rest
    else if b == b'x'
    then perm_bits (bit_or bits 0o111) rest
    else none

-- The change that one clause makes to the permissions; `who` may be empty.
unfoldable pub apply_op : ℕ → ℕ → ℕ → ℕ → ℕ
apply_op op who perms allowed =
    let who' = if who == 0 then 0o777 else who in
    let bits = bit_and perms who' in
    if op == b'='
    then bit_or (bit_and allowed (complement who')) bits
    else if op == b'+'
    then bit_or allowed bits
    else bit_and allowed (complement bits)

abbrev pub with_bits : ℕ → ℕ → Option ℕ → Option ℕ → Option ℕ
with_bits op allowed none perms = none
with_bits op allowed (some who) none = none
with_bits op allowed (some who) (some perms) = some (apply_op op who perms allowed)

unfoldable pub clause : Option (Bytes × ℕ × Bytes) → ℕ → Option ℕ
unfolding who_bits perm_bits apply_op
clause none allowed = none
clause (some (who, op, perms)) allowed = with_bits op allowed (who_bits 0 who) (perm_bits 0 perms)

-- `text.split(|b| *b == b',')`
unfoldable pub split_commas : Bytes → Bytes × List Bytes
split_commas [] = ([], [])
split_commas (b ∷ rest) =
    let (first, others) = split_commas rest in
    if b == b',' then ([], first ∷ others) else (b ∷ first, others)

unfoldable pub clauses : List Bytes → ℕ → Option ℕ
unfolding split_clause clause
clauses [] allowed = some allowed
clauses (c ∷ cs) allowed = elim (clause (split_clause c) allowed) [
  | none ↦ none
  | some allowed' ↦ clauses cs allowed'
]

abbrev pub new_mask : Option ℕ → Option ℕ
new_mask none = none
new_mask (some allowed) = some (complement allowed)

abbrev pub symbolic : Bytes × List Bytes → ℕ → Option ℕ
symbolic (first, others) current = new_mask (clauses (first ∷ others) (complement current))

-- `parse_mode`; `none`: a message.
unfoldable pub parse_mode : Bytes → ℕ → Option ℕ
unfolding octal_digits split_commas clauses
parse_mode [] current = symbolic ([], []) current
parse_mode (b ∷ rest) current =
    if within b'0' b'9' b
    then up_to_777 (octal_digits 0 (b ∷ rest))
    else symbolic (split_commas (b ∷ rest)) current
