-- ===== src/Echo.antt =====
-- crates/omsh-exec/src/builtins/echo.rs: what `echo` writes.
pub mod Escapes
use oh_my_shell.Base.{
  ℕ, zero, suc, ◌+◌, ◌-◌, ◌*◌, ◌%◌, Bytes, Bool, true, false, ◌&&◌, ◌||◌, Option, none, some, List,
  [], ◌∷◌, ◌++◌, within, ◌==◌, if◌then◌else◌, length, all, is_empty,
}
use oh_my_shell.Base.Run.{Run, done, out_of_fuel, ◌>>=◌}
use oh_my_shell.Arith.Number.{to_digit}

-- The letters of an option.
abbrev is_letter : ℕ → Bool
is_letter b = (b == b'n') || ((b == b'e') || b == b'E')

unfoldable pub is_option : Bytes → Bool
is_option [] = false
is_option (b ∷ []) = false
is_option (b ∷ c ∷ rest) = (b == b'-') && all is_letter (c ∷ rest)

-- `while taken < most && matches!(text[i], b'0'..=b'7')`: the value, and the text left.
unfoldable pub octal_digits : ℕ → ℕ → Bytes → ℕ × Bytes
octal_digits zero value text = (value, text)
octal_digits (suc most) value [] = (value, [])
octal_digits (suc most) value (b ∷ rest) =
    let more = octal_digits most (value * 8 + (b - b'0')) rest in
    if within b'0' b'7' b then more else (value, b ∷ rest)

-- The loop after `\x`, and how many digits it took.
unfoldable pub hex_digits : ℕ → ℕ → ℕ → Bytes → ℕ × ℕ × Bytes
unfolding to_digit
hex_digits zero value taken text = (value, taken, text)
hex_digits (suc most) value taken [] = (value, taken, [])
hex_digits (suc most) value taken (b ∷ rest) = elim (to_digit 16 b) [
  | none ↦ (value, taken, b ∷ rest)
  | some digit ↦ hex_digits most (value * 16 + digit) (suc taken) rest
]

-- One round of the loop of `push_escaped`: what is written and the text left, or `\c`.
pub data Step : Type 0 where
  write : Bytes → Bytes → Step
  stop : Step

abbrev pub octal_escape : ℕ × Bytes → Step
octal_escape (value, rest) = write (value % 256 ∷ []) rest

abbrev pub hex_escape : Bytes → ℕ × ℕ × Bytes → Step
hex_escape text (value, taken, rest) =
    if taken == 0 then write (b'\\' ∷ b'x' ∷ []) text else write (value % 256 ∷ []) rest

unfoldable pub escaped : ℕ → Bytes → Step
unfolding octal_digits hex_digits
escaped c rest =
    if c == b'\\'
    then write (b'\\' ∷ []) rest
    else if c == b'a'
    then write (7 ∷ []) rest
    else if c == b'b'
    then write (8 ∷ []) rest
    else if c == b'c'
    then stop
    else if (c == b'e') || c == b'E'
    then write (27 ∷ []) rest
    else if c == b'f'
    then write (12 ∷ []) rest
    else if c == b'n'
    then write (10 ∷ []) rest
    else if c == b'r'
    then write (13 ∷ []) rest
    else if c == b't'
    then write (9 ∷ []) rest
    else if c == b'v'
    then write (11 ∷ []) rest
    else if c == b'0'
    then octal_escape (octal_digits 3 0 rest)
    else if within b'1' b'7' c
    then octal_escape (octal_digits 2 (c - b'0') rest)
    else if c == b'x'
    then hex_escape rest (hex_digits 2 0 0 rest)
    else write (b'\\' ∷ c ∷ []) rest

unfoldable pub step : ℕ → Bytes → Step
unfolding escaped
step b [] = write (b ∷ []) []
step b (c ∷ rest) = if b == b'\\' then escaped c rest else write (b ∷ []) (c ∷ rest)

-- The bytes, and whether the output goes on.
abbrev pub Written : Type 0
Written = Bytes × Bool

abbrev pub before : Bytes → Written → Written
before out (more, go_on) = (out ++ more, go_on)

abbrev pub after_step : (Bytes → Run Written) → Step → Run Written
after_step loop stop = done ([], false)
after_step loop (write out rest) = loop rest >>= λ more. done (before out more)

unfoldable pub escaped_loop : ℕ → Bytes → Run Written
unfolding step
escaped_loop f [] = done ([], true)
escaped_loop zero (b ∷ rest) = out_of_fuel
escaped_loop (suc f) (b ∷ rest) = after_step (escaped_loop f) (step b rest)

-- `push_escaped`: a round for each byte is enough.
unfoldable pub push_escaped : Bytes → Run Written
unfolding escaped_loop
push_escaped text = escaped_loop (length text) text

-- `newline` and `escapes`
pub record Settings : Type 0 where
  pub newline : Bool
  pub escapes : Bool

abbrev set_letter : ℕ → Settings → Settings
set_letter b s =
    if b == b'n' then record s { newline = false } else record s { escapes = b == b'e' }

unfoldable pub set_letters : Bytes → Settings → Settings
set_letters [] s = s
set_letters (b ∷ rest) s = set_letters rest (set_letter b s)

abbrev after_dash : Bytes → Bytes
after_dash [] = []
after_dash (b ∷ rest) = rest

-- The loop over the options: the settings, and the other arguments.
unfoldable pub read_options : List Bytes → Settings → Settings × List Bytes
unfolding is_option set_letters
read_options [] s = (s, [])
read_options (arg ∷ args) s =
    let more = read_options args (set_letters (after_dash arg) s) in
    if is_option arg then more else (s, arg ∷ args)

abbrev pub write_arg : Bool → Bytes → Run Written
write_arg true arg = push_escaped arg
write_arg false arg = done (arg, true)

abbrev pub go_on_with : Run Written → Written → Run Written
go_on_with rest (out, true) = rest >>= λ more. done (before out more)
go_on_with rest (out, false) = done (out, false)

-- The loop over the arguments, with `prefix` before the next one.
unfoldable pub write_args : Bool → Bytes → List Bytes → Run Written
unfolding push_escaped
write_args escapes prefix [] = done ([], true)
write_args escapes prefix (arg ∷ args) =
    let rest = write_args escapes (b' ' ∷ []) args in
    write_arg escapes arg >>= λ w. go_on_with rest (before prefix w)

abbrev pub end_line : Bool → Written → Bytes
end_line newline (out, go_on) = if newline && go_on then out ++ 10 ∷ [] else out

abbrev pub write_all : Settings × List Bytes → Run Bytes
write_all (s, args) = write_args s.escapes [] args >>= λ w. done (end_line s.newline w)

-- `echo`: the bytes it writes to descriptor 1.
unfoldable pub echo : List Bytes → Run Bytes
unfolding read_options write_args
echo args = write_all (read_options args (record { newline = true; escapes = false }))
