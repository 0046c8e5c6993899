-- ===== src/Arith/Variable.antt =====
-- `variable_value`: the number in a variable, with a sign and blanks around it.
pub mod RoundTrip
use oh_my_shell.Base.{
  ℕ, Bytes, Bool, true, false, ◌||◌, Option, none, some, List, [], ◌∷◌, ◌++◌, within, ◌==◌, ltb,
  if◌then◌else◌,
}
use oh_my_shell.Chars.{invalid_base, units}
use oh_my_shell.Chars.Utf8.{encode}
use oh_my_shell.Arith.Word.{wrapping_neg}
use oh_my_shell.Arith.Number.{parse_number}
use oh_my_shell.Arith.Token.{Result, ok, err, illegal_number}

-- `char::is_whitespace`
abbrev pub is_whitespace : ℕ → Bool
is_whitespace u =
    within 0x09 0x0D u
    || (u == 0x20
        || (u == 0x85
            || (u == 0xA0
                || (u == 0x1680
                    || (within 0x2000 0x200A u
                        || (u == 0x2028
                            || (u == 0x2029 || (u == 0x202F || (u == 0x205F || u == 0x3000)))))))))

unfoldable pub trim_start : List ℕ → List ℕ
trim_start [] = []
trim_start (u ∷ us) = if is_whitespace u then trim_start us else u ∷ us

-- Characters back to front.
unfoldable pub flip : List ℕ → List ℕ → List ℕ
flip [] out = out
flip (u ∷ us) out = flip us (u ∷ out)

unfoldable pub trim_chars : List ℕ → List ℕ
unfolding trim_start flip
trim_chars us = flip (trim_start (flip (trim_start us) [])) []

-- A byte that is not UTF-8 shows as U+FFFD in `from_utf8_lossy`.
abbrev lossy : ℕ → ℕ
lossy u = if ltb u invalid_base then u else 0xFFFD

unfoldable pub encode_all : List ℕ → Bytes
unfolding encode
encode_all [] = []
encode_all (u ∷ us) = encode (lossy u) ++ encode_all us

-- `String::from_utf8_lossy(raw).trim()`, as bytes.
unfoldable pub trimmed : Bytes → Bytes
unfolding units trim_chars encode_all
trimmed raw = encode_all (trim_chars (units raw))

abbrev pub number_or_error : Option ℕ → Result ℕ
number_or_error none = err illegal_number
number_or_error (some n) = ok n

abbrev pub negated : Option ℕ → Result ℕ
negated none = err illegal_number
negated (some n) = ok (wrapping_neg n)

-- The value of a text that is trimmed.
unfoldable pub signed_value : Bytes → Result ℕ
unfolding parse_number wrapping_neg
signed_value [] = ok 0
signed_value (c ∷ rest) =
    if c == b'-'
    then negated (parse_number rest)
    else if c == b'+'
    then number_or_error (parse_number rest)
    else number_or_error (parse_number (c ∷ rest))

-- `variable_value`, of what `vars.get(name)` returns.
unfoldable pub variable_value : Option Bytes → Result ℕ
unfolding trimmed signed_value
variable_value none = ok 0
variable_value (some raw) = signed_value (trimmed raw)
