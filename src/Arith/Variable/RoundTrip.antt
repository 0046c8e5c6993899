-- ===== src/Arith/Variable/RoundTrip.antt =====
-- Numbers that an assignment wrote to a variable, read back.
use Prim.Native.Nat.{min}
use oh_my_shell.Base.{
  ℕ, zero, suc, ◌+◌, ◌-◌, ◌/◌, ◌≤◌, ◌<◌, Bytes, true, false, some, [], ◌∷◌, ◌≡◌, refl, ◌∙◌, ap, ltb,
  ◌==◌, if◌then◌else◌, length, Bool-cases, inl, inr, arith,
}
use oh_my_shell.Chars.{unit_at, units, units_loop}
use oh_my_shell.Chars.Utf8.{encode}
use oh_my_shell.Arith.Word.{word_mod, i64_max, i64_min, is_negative, wrapping_neg}
use oh_my_shell.Arith.Number.{decimal, to_string, parse_number}
use oh_my_shell.Arith.Number.Decimal.{parse_number-decimal}
use oh_my_shell.Arith.Token.{ok}
use oh_my_shell.Arith.Variable.{
  number_or_error, negated, trim_start, flip, trim_chars, encode_all, trimmed, signed_value,
  variable_value,
}

-- Printable ASCII characters, without the space.
abbrev AllPlain : Bytes → Type 0
AllPlain [] = Unit
AllPlain (b ∷ s) = (0x21 ≤ b) × (b ≤ 0x7E) × AllPlain s

unit_at_ascii : (b : ℕ) (s : Bytes) → b ≤ 0x7E → unit_at b s ≡ (b, 1)
unfolding unit_at
unit_at_ascii b s h = ground arith

units_loop-plain : (f : ℕ) (s : Bytes) → length s ≤ f → AllPlain s → units_loop f s ≡ s
unfolding units_loop
units_loop-plain f [] h p = refl
units_loop-plain zero (b ∷ s) h p = absurd (omega arith)
units_loop-plain (suc f) (b ∷ s) h (l, u, p) =
    rw (unit_at_ascii b s u) (ap (λ t. b ∷ t) (units_loop-plain f s (omega arith) p))

units-plain : (s : Bytes) → AllPlain s → units s ≡ s
unfolding units
units-plain s p = units_loop-plain (length s) s (omega arith) p

trim_start-plain : (s : Bytes) → AllPlain s → trim_start s ≡ s
unfolding trim_start
trim_start-plain [] p = refl
trim_start-plain (b ∷ s) (l, u, p) = ground arith

flip-AllPlain : (s out : Bytes) → AllPlain s → AllPlain out → AllPlain (flip s out)
unfolding flip
flip-AllPlain [] out p q = q
flip-AllPlain (b ∷ s) out (l, u, p) q = flip-AllPlain s (b ∷ out) p (l, u, q)

flip-flip : (s out : Bytes) → flip (flip s out) [] ≡ flip out s
unfolding flip
flip-flip [] out = refl
flip-flip (b ∷ s) out = flip-flip s (b ∷ out)

trim_chars-plain : (s : Bytes) → AllPlain s → trim_chars s ≡ s
unfolding trim_chars
trim_chars-plain s p =
    rw (trim_start-plain s p, trim_start-plain (flip s []) (flip-AllPlain s [] p tt))
      (flip-flip s [] ∙ unfold flip in refl)

encode_all-plain : (s : Bytes) → AllPlain s → encode_all s ≡ s
unfolding encode_all encode
encode_all-plain [] p = refl
encode_all-plain (b ∷ s) (l, u, p) = ground (arith, encode_all-plain s p)

trimmed-plain : (s : Bytes) → AllPlain s → trimmed s ≡ s
unfolding trimmed
trimmed-plain s p = rw (units-plain s p, trim_chars-plain s p) (encode_all-plain s p)

decimal-AllPlain : (f n : ℕ) (tail : Bytes) → AllPlain tail → AllPlain (decimal f n tail)
unfolding decimal
decimal-AllPlain zero n tail p = p
decimal-AllPlain (suc f) n tail p = elim (Bool-cases (ltb n 10)) [
  | inl e ↦ rw e (omega arith, omega arith, p)
  | inr e ↦ rw e (decimal-AllPlain f (n / 10) _ (omega arith, omega arith, p))
]

-- The text starts with no sign.
abbrev DigitFirst : Bytes → Type 0
DigitFirst [] = ⊥
DigitFirst (c ∷ _) = b'0' ≤ c

decimal-DigitFirst_tail : (f n : ℕ) (tail : Bytes) → DigitFirst tail → DigitFirst (decimal f n tail)
unfolding decimal
decimal-DigitFirst_tail zero n tail p = p
decimal-DigitFirst_tail (suc f) n tail p = elim (Bool-cases (ltb n 10)) [
  | inl e ↦ rw e (omega arith)
  | inr e ↦ rw e (decimal-DigitFirst_tail f (n / 10) _ (omega arith))
]

decimal-DigitFirst : (f n : ℕ) (tail : Bytes) → DigitFirst (decimal (suc f) n tail)
unfolding decimal
decimal-DigitFirst f n tail = elim (Bool-cases (ltb n 10)) [
  | inl e ↦ rw e (omega arith)
  | inr e ↦ rw e (decimal-DigitFirst_tail f (n / 10) _ (omega arith))
]

signed_value-minus : (s : Bytes) → signed_value (b'-' ∷ s) ≡ negated (parse_number s)
unfolding signed_value
signed_value-minus s = refl

not_sign : (c : ℕ) → b'0' ≤ c → ((c == b'-') ≡ false) × ((c == b'+') ≡ false)
not_sign c h = ground arith

signed_value-DigitFirst :
    (s : Bytes) → DigitFirst s → signed_value s ≡ number_or_error (parse_number s)
unfolding signed_value
signed_value-DigitFirst [] p = absurd p
signed_value-DigitFirst (c ∷ s) p = let (minus, plus) = not_sign c p in rw minus (rw plus refl)

to_string-negative :
    (a : ℕ) → is_negative a ≡ true → to_string a ≡ b'-' ∷ decimal 20 (word_mod - a) []
unfolding to_string
to_string-negative a e = rw e refl

to_string-positive : (a : ℕ) → is_negative a ≡ false → to_string a ≡ decimal 20 a []
unfolding to_string
to_string-positive a e = rw e refl

variable_value-plain : (s : Bytes) → AllPlain s → variable_value (some s) ≡ signed_value s
unfolding variable_value
variable_value-plain s p = ap signed_value (trimmed-plain s p)

-- What a word is read back as.
unfoldable pub read_back : ℕ → ℕ
read_back a = if a == i64_min then i64_min + 1 else a

negated_back :
    (a : ℕ)
    → a < word_mod
    → is_negative a ≡ true
    → negated (some (min (word_mod - a) i64_max)) ≡ ok (read_back a)
unfolding wrapping_neg read_back
negated_back a h e = ground arith

positive_back :
    (a : ℕ) → is_negative a ≡ false → number_or_error (some (min a i64_max)) ≡ ok (read_back a)
unfolding read_back
positive_back a e = ground arith

-- The decimal text of every 64-bit number, positive or negative, is read back as that number; only
-- that of the smallest one, -9223372036854775808, comes back as the number after it.
pub variable_value-to_string :
    (a : ℕ) → a < word_mod → variable_value (some (to_string a)) ≡ ok (read_back a)
variable_value-to_string a h = elim (Bool-cases (is_negative a)) [
  | inl e ↦
      let text : Bytes = decimal 20 (word_mod - a) [] in
      rw (to_string-negative a e) (
        variable_value-plain (b'-' ∷ text)
          (omega arith, omega arith, decimal-AllPlain 20 (word_mod - a) [] tt)
        ∙ (signed_value-minus text
            ∙ (ap negated (parse_number-decimal (word_mod - a) (omega arith))
                ∙ negated_back a h e)))
  | inr e ↦ rw (to_string-positive a e) (
      variable_value-plain (decimal 20 a []) (decimal-AllPlain 20 a [] tt)
      ∙ (signed_value-DigitFirst (decimal 20 a []) (decimal-DigitFirst 19 a [])
          ∙ (ap number_or_error (parse_number-decimal a (omega arith)) ∙ positive_back a e)))
]
