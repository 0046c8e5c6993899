-- ===== src/Arith/Number/Saturation.antt =====
-- The digit loop of `parse_number` and the same loop over numbers of any size.
use Prim.Native.Nat.{min}
use oh_my_shell.Base.{
  ℕ, ◌+◌, ◌*◌, ◌≤◌, Bytes, Option, none, some, [], ◌∷◌, ◌≡◌, refl, arith, Option-cases, inl, inr,
}
use oh_my_shell.Arith.Word.{i64_max}
use oh_my_shell.Arith.Number.{
  to_digit, push_digit, digits_loop, split_radix, parse_digits, parse_number,
}

-- The value of a numeral, of any size.
unfoldable pub numeral : ℕ → ℕ → Bytes → Option ℕ
unfolding to_digit
numeral radix value [] = some value
numeral radix value (b ∷ rest) = elim (to_digit radix b) [
  | none ↦ none
  | some digit ↦ numeral radix (value * radix + digit) rest
]

abbrev pub capped : Option ℕ → Option ℕ
capped none = none
capped (some n) = some (min n i64_max)

push_digit_capped :
    (radix value digit : ℕ)
    → 2 ≤ radix
    → push_digit radix (min value i64_max) digit ≡ min (value * radix + digit) i64_max
unfolding push_digit
push_digit_capped radix value digit h = grind arith

digits_loop-numeral :
    (radix value : ℕ) (s : Bytes)
    → 2 ≤ radix
    → digits_loop radix (min value i64_max) s ≡ capped (numeral radix value s)
unfolding digits_loop numeral
digits_loop-numeral radix value [] h = refl
digits_loop-numeral radix value (b ∷ s) h = elim (Option-cases (to_digit radix b)) [
  | inl e ↦ rw (e, digits_loop, numeral) refl
  | inr (d, e) ↦
      rw (e, digits_loop, numeral, push_digit_capped radix value d h)
        (digits_loop-numeral radix (value * radix + d) s h)
]

parse_digits-numeral :
    (text : Bytes) (radix : ℕ)
    → 2 ≤ radix
    → parse_digits (text, radix)
      ≡ (elim text as (λ _. Option ℕ) [ [] ↦ none | b ∷ s ↦ capped (numeral radix 0 (b ∷ s)) ])
unfolding parse_digits
parse_digits-numeral [] radix h = refl
parse_digits-numeral (b ∷ s) radix h = digits_loop-numeral radix 0 (b ∷ s) h

-- The number that a text denotes in its radix, of any size.
unfoldable pub number_value : Bytes → Option ℕ
unfolding split_radix numeral
number_value text =
    let (digits, radix) = split_radix text in
    elim digits as (λ _. Option ℕ) [ [] ↦ none | b ∷ s ↦ numeral radix 0 (b ∷ s) ]

capped-parse_digits :
    (text : Bytes) (radix : ℕ)
    → 2 ≤ radix
    → parse_digits (text, radix)
      ≡ capped (elim text as (λ _. Option ℕ) [ [] ↦ none | b ∷ s ↦ numeral radix 0 (b ∷ s) ])
capped-parse_digits [] radix h = parse_digits-numeral [] radix h
capped-parse_digits (b ∷ s) radix h = parse_digits-numeral (b ∷ s) radix h

radix_bound : (text : Bytes) → 2 ≤ (split_radix text).1
unfolding split_radix
radix_bound [] = omega arith
radix_bound (a ∷ []) = omega arith
radix_bound (a ∷ b ∷ s) = ground arith

-- Over numbers of any size the digit loop gives `number_value`; `parse_number` is that, or the largest
-- word that is positive if it is bigger.
pub parse_number_lem : (text : Bytes) → parse_number text ≡ capped (number_value text)
unfolding parse_number number_value
parse_number_lem text =
    capped-parse_digits (split_radix text).0 (split_radix text).1 (radix_bound text)
