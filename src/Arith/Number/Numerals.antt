-- ===== src/Arith/Number/Numerals.antt =====
-- Numerals by the position of their digits, and `parse_number`.
use native.Mathlib.Nat.{pow-zero, pow-suc}
use oh_my_shell.Base.{
  ℕ, suc, ◌+◌, ◌*◌, ◌^◌, Bytes, ◌&&◌, ◌||◌, Bool-cases, Option, none, some, [], ◌∷◌, ◌≡◌, refl, ◌∙◌,
  ap, ltb, ◌==◌, if◌then◌else◌, any, take, drop, length, codes, bytes_eq, Option-cases, inl, inr,
  arith,
}
use oh_my_shell.Arith.Number.{digit_value, to_digit, split_radix, parse_number}
use oh_my_shell.Arith.Number.Saturation.{numeral, number_value, capped, parse_number_lem}

-- The place of a character in a text, counted from `n`.
abbrev pub place : ℕ → ℕ → Bytes → Option ℕ
place n c [] = none
place n c (b ∷ text) = if b == c then some n else place (suc n) c text

abbrev pub first_of : Option ℕ → Option ℕ → Option ℕ
first_of none n = n
first_of (some m) n = some m

-- The digits of a radix up to 16, in lower and in upper case; a digit is worth its place.
abbrev pub digit_of : ℕ → ℕ → Option ℕ
digit_of radix c =
    first_of (place 0 c (take radix (codes "0123456789abcdef")))
      (place 0 c (take radix (codes "0123456789ABCDEF")))

abbrev pub plus_rest : ℕ → Option ℕ → Option ℕ → Option ℕ
plus_rest weight none rest = none
plus_rest weight (some d) none = none
plus_rest weight (some d) (some n) = some (d * weight + n)

-- The sum of the digits, each times the power of the radix that its place gives.
unfoldable pub positional : ℕ → Bytes → Option ℕ
positional radix [] = some 0
positional radix (c ∷ text) =
    plus_rest (radix ^ length text) (digit_of radix c) (positional radix text)

abbrev pub unless_empty : ℕ → Bytes → Option ℕ
unless_empty radix [] = none
unless_empty radix (c ∷ text) = positional radix (c ∷ text)

-- What a text denotes: hexadecimal after `0x` or `0X`, octal after a `0` with something behind it,
-- and decimal otherwise.
unfoldable pub denoted : Bytes → Option ℕ
unfolding positional bytes_eq
denoted text =
    if any (bytes_eq (take 2 text)) (codes "0x" ∷ codes "0X" ∷ [])
    then unless_empty 16 (drop 2 text)
    else if bytes_eq (take 1 text) (codes "0") && ltb 1 (length text)
    then unless_empty 8 (drop 1 text)
    else unless_empty 10 text

to_digit-8 : (c : ℕ) → to_digit 8 c ≡ digit_of 8 c
unfolding to_digit digit_value
to_digit-8 c = ground arith

to_digit-10 : (c : ℕ) → to_digit 10 c ≡ digit_of 10 c
unfolding to_digit digit_value
to_digit-10 c = ground arith

to_digit-16 : (c : ℕ) → to_digit 16 c ≡ digit_of 16 c
unfolding to_digit digit_value
to_digit-16 c = ground arith

abbrev after : ℕ → ℕ → Option ℕ → Option ℕ
after value weight none = none
after value weight (some n) = some (value * weight + n)

regroup : (v r d w n : ℕ) → (v * r + d) * w + n ≡ v * (w * r) + (d * w + n)
regroup v r d w n = grind arith

after-plus_rest :
    (radix value d : ℕ) (text : Bytes) (rest : Option ℕ)
    → after (value * radix + d) (radix ^ length text) rest
      ≡ after value (radix ^ length (d ∷ text)) (plus_rest (radix ^ length text) (some d) rest)
after-plus_rest radix value d text none = refl
after-plus_rest radix value d text (some n) =
    let e : radix ^ suc (length text) ≡ radix ^ length text * radix = pow-suc radix (length text) in
    rw e (ap (λ (k : ℕ). some k) (regroup value radix d (radix ^ length text) n))

first_weight : (r v : ℕ) → v ≡ v * r ^ 0 + 0
first_weight r v = rw (pow-zero r) (omega arith)

numeral-positional :
    (radix : ℕ)
    → ((c : ℕ) → to_digit radix c ≡ digit_of radix c)
    → (value : ℕ) (text : Bytes)
    → numeral radix value text ≡ after value (radix ^ length text) (positional radix text)
unfolding numeral positional
numeral-positional radix same value [] = ap (λ (k : ℕ). some k) (first_weight radix value)
numeral-positional radix same value (c ∷ text) = elim (Option-cases (to_digit radix c)) [
  | inl e ↦ rw (numeral, e, ← same c, positional, e) refl
  | inr (d, e) ↦
      rw (numeral, ← same c, positional, e)
        (numeral-positional radix same (value * radix + d) text
          ∙ after-plus_rest radix value d text (positional radix text))
]

denoted-positional :
    (radix : ℕ)
    → ((c : ℕ) → to_digit radix c ≡ digit_of radix c)
    → (text : Bytes) → numeral radix 0 text ≡ positional radix text
denoted-positional radix same text =
    numeral-positional radix same 0 text ∙ from (positional radix text)
  where
    from : (o : Option ℕ) → after 0 (radix ^ length text) o ≡ o
    from none = refl
    from (some n) = ap (λ (k : ℕ). some k) (omega arith)

-- The radix is 8, 10 or 16.
same_digits :
    (text : Bytes) (c : ℕ) → to_digit (split_radix text).1 c ≡ digit_of (split_radix text).1 c
unfolding split_radix
same_digits [] c = to_digit-10 c
same_digits (a ∷ []) c = to_digit-10 c
same_digits (a ∷ b ∷ rest) c = elim (Bool-cases (a == b'0')) [
  | inl e ↦ rw e (elim (Bool-cases (b == b'x' || b == b'X')) [
    | inl x ↦ rw x (to_digit-16 c)
    | inr x ↦ rw x (to_digit-8 c)
  ])
  | inr e ↦ rw e (to_digit-10 c)
]

unless_empty-numeral :
    (radix : ℕ)
    → ((c : ℕ) → to_digit radix c ≡ digit_of radix c)
    → (digits : Bytes)
    → (elim digits as (λ _. Option ℕ) [ [] ↦ none | b ∷ s ↦ numeral radix 0 (b ∷ s) ])
      ≡ unless_empty radix digits
unless_empty-numeral radix same [] = refl
unless_empty-numeral radix same (b ∷ s) = denoted-positional radix same (b ∷ s)

denoted-split_radix :
    (text : Bytes) → unless_empty (split_radix text).1 (split_radix text).0 ≡ denoted text
unfolding split_radix denoted bytes_eq
denoted-split_radix [] = refl
denoted-split_radix (a ∷ []) = ground arith
denoted-split_radix (a ∷ b ∷ rest) = ground arith

number_value-denoted : (text : Bytes) → number_value text ≡ denoted text
unfolding number_value
number_value-denoted text =
    unless_empty-numeral (split_radix text).1 (same_digits text) (split_radix text).0
    ∙ denoted-split_radix text

-- `parse_number` accepts exactly the decimal, octal (`017`) and hexadecimal (`0x1F`, `0X1f`) numerals, and gives the
-- number they denote, the sum of the digits by their places, or the largest word that is positive if that is bigger.
pub parse_number-denoted : (text : Bytes) → parse_number text ≡ capped (denoted text)
parse_number-denoted text = parse_number_lem text ∙ ap capped (number_value-denoted text)
