-- ===== src/AnsiC.antt =====
-- crates/omsh-exec/src/expand/ansi_c.rs: the text of `$'...'`. An offset is the list from there on.
pub mod NoNul
use oh_my_shell.Base.{
  ℕ, zero, suc, ◌+◌, ◌*◌, ◌%◌, ◌^◌, Bytes, Bool, true, false, not, ◌&&◌, ◌||◌, Option, none, some,
  List, [], ◌∷◌, ◌++◌, ltb, within, ◌==◌, if◌then◌else◌, length, take, drop,
}
use oh_my_shell.Base.Run.{Run, done, out_of_fuel, ◌>>=◌}
use oh_my_shell.Chars.Utf8.{encode}
use oh_my_shell.Arith.Number.{to_digit}

-- `number`: the value, and how many digits were read.
unfoldable pub number_loop : ℕ → ℕ → ℕ → Bytes → ℕ × ℕ
unfolding to_digit
number_loop radix zero value bytes = (value, 0)
number_loop radix (suc most) value [] = (value, 0)
number_loop radix (suc most) value (b ∷ rest) = elim (to_digit radix b) [
  | none ↦ (value, 0)
  | some digit ↦
      let (all, used) = number_loop radix most ((value * radix + digit) % 2 ^ 32) rest in
      (all, suc used)
]

unfoldable pub number : Bytes → ℕ → ℕ → ℕ × ℕ
unfolding number_loop
number bytes radix most = number_loop radix most 0 bytes

-- What one round of the loop does: some bytes and the text that is left, or the end of the string.
pub data Step : Type 0 where
  emit : Bytes → Bytes → Step
  stop : Step

unfoldable pub single : ℕ → Option ℕ
single e =
    if e == b'a'
    then some 0x07
    else if e == b'b'
    then some 0x08
    else if (e == b'e') || e == b'E'
    then some 0x1B
    else if e == b'f'
    then some 0x0C
    else if e == b'n'
    then some 0x0A
    else if e == b'r'
    then some 0x0D
    else if e == b't'
    then some 0x09
    else if e == b'v'
    then some 0x0B
    else if (e == b'\\') || ((e == b'\'') || ((e == b'"') || e == b'?'))
    then some e
    else none

-- A byte that ends the string if it is 0.
abbrev pub emit_byte : ℕ → Bytes → Step
emit_byte byte rest = if byte == 0 then stop else emit (byte ∷ []) rest

-- `char::from_u32(value)` is a character.
abbrev pub is_scalar : ℕ → Bool
is_scalar value = ltb value 0xD800 || within 0xE000 0x10FFFF value

-- `\nnn`, from its first digit on.
abbrev pub octal_escape : Bytes → ℕ × ℕ → Step
octal_escape text (value, used) = emit_byte (value % 256) (drop used text)

abbrev pub hex_escape : Bytes → ℕ × ℕ → Step
hex_escape rest (value, used) =
    if used == 0 then emit (b'\\' ∷ b'x' ∷ []) rest else emit_byte (value % 256) (drop used rest)

abbrev pub unicode_escape : ℕ → Bytes → ℕ × ℕ → Step
unicode_escape e rest (value, used) =
    if used == 0
    then emit (b'\\' ∷ e ∷ []) rest
    else if value == 0
    then stop
    else if is_scalar value
    then emit (encode value) (drop used rest)
    else emit (b'\\' ∷ e ∷ take used rest) (drop used rest)

abbrev pub control_escape : Bytes → Step
control_escape [] = emit (b'\\' ∷ b'c' ∷ []) []
control_escape (target ∷ rest) = emit_byte (if target == b'?' then 0x7F else target % 32) rest

-- After a backslash and the byte `e`: with the byte of a one-letter escape, and without.
unfoldable pub escape_of : ℕ → Bytes → Option ℕ → Step
unfolding number encode
escape_of e rest (some byte) = emit (byte ∷ []) rest
escape_of e rest none =
    if within b'0' b'7' e
    then octal_escape (e ∷ rest) (number (e ∷ rest) 8 3)
    else if e == b'x'
    then hex_escape rest (number rest 16 2)
    else if e == b'u'
    then unicode_escape e rest (number rest 16 4)
    else if e == b'U'
    then unicode_escape e rest (number rest 16 8)
    else if e == b'c'
    then control_escape rest
    else emit (b'\\' ∷ e ∷ []) rest

unfoldable pub escaped : ℕ → Bytes → Step
unfolding single escape_of
escaped e rest = escape_of e rest (single e)

unfoldable pub step : ℕ → Bytes → Step
unfolding escaped
step b [] = emit (b ∷ []) []
step b (e ∷ rest) = if b == b'\\' then escaped e rest else emit (b ∷ []) (e ∷ rest)

abbrev pub after_step : (Bytes → Run Bytes) → Step → Run Bytes
after_step loop stop = done []
after_step loop (emit out rest) = loop rest >>= λ more. done (out ++ more)

unfoldable pub decode_loop : ℕ → Bytes → Run Bytes
unfolding step
decode_loop f [] = done []
decode_loop zero (b ∷ rest) = out_of_fuel
decode_loop (suc f) (b ∷ rest) = after_step (decode_loop f) (step b rest)

-- `decode`: a round for each byte is enough.
unfoldable pub decode : Bytes → Run Bytes
unfolding decode_loop
decode text = decode_loop (length text) text
