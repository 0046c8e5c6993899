-- ===== src/Arith/Number/Decimal.antt =====
-- Decimal text, written by `decimal` and read by `parse_number`.
use Prim.Native.Nat.{min}
use native.Mathlib.Nat.{pow-suc}
use native.Mathlib.Decide.{dec_lt}
use oh_my_shell.Base.{
  ℕ, zero, suc, ◌+◌, ◌*◌, ◌/◌, ◌%◌, ◌^◌, ◌≤◌, ◌<◌, Bytes, some, [], ◌∷◌, ◌≡◌, ◌≢◌, refl, ◌∙◌, ap,
  arith,
}
use oh_my_shell.Arith.Word.{i64_max}
use oh_my_shell.Arith.Number.{digit_value, to_digit, decimal, split_radix, parse_number}
use oh_my_shell.Arith.Number.Saturation.{numeral, number_value, capped, parse_number_lem}

to_digit-decimal : (d : ℕ) → d < 10 → to_digit 10 (b'0' + d) ≡ some d
unfolding to_digit digit_value
to_digit-decimal d h = ground arith

numeral_step :
    (v d m : ℕ) (tail : Bytes)
    → d < 10
    → v * 10 + d ≡ m
    → numeral 10 v ((b'0' + d) ∷ tail) ≡ numeral 10 m tail
unfolding numeral
numeral_step v d m tail h e =
    rw (numeral, to_digit-decimal d h) (ap (λ (k : ℕ). numeral 10 k tail) e)

decimal_small : (f n : ℕ) (tail : Bytes) → n < 10 → decimal (suc f) n tail ≡ (b'0' + n) ∷ tail
unfolding decimal
decimal_small f n tail h = ground arith

decimal_large :
    (f n : ℕ) (tail : Bytes)
    → 10 ≤ n
    → decimal (suc f) n tail ≡ decimal f (n / 10) ((b'0' + n % 10) ∷ tail)
unfolding decimal
decimal_large f n tail h = ground arith

tenth : (f n : ℕ) → n < 10 ^ suc f → n / 10 < 10 ^ f
tenth f n h = let e : 10 ^ suc f ≡ 10 ^ f * 10 = pow-suc 10 f in omega arith

-- Reading on after the digits that were written.
numeral-decimal :
    (f n : ℕ) (tail : Bytes)
    → n < 10 ^ suc f
    → numeral 10 0 (decimal (suc f) n tail) ≡ numeral 10 n tail
numeral-decimal zero n tail h =
    rw (decimal_small 0 n tail h) (numeral_step 0 n n tail h (omega arith))
numeral-decimal (suc f) n tail h = elim (dec_lt n 10) [
  | yes small ↦
      rw (decimal_small (suc f) n tail small) (numeral_step 0 n n tail small (omega arith))
  | no big ↦ rw (decimal_large (suc f) n tail (omega arith)) (
      numeral-decimal f (n / 10) ((b'0' + n % 10) ∷ tail) (tenth (suc f) n h)
      ∙ numeral_step (n / 10) (n % 10) n tail (omega arith) (omega arith))
]

-- The text starts with a digit that is not 0, if the number is not 0.
first_digit :
    (f n : ℕ) (tail : Bytes)
    → 0 < n
    → n < 10 ^ suc f
    → (c : ℕ) × (rest : Bytes) × (decimal (suc f) n tail ≡ c ∷ rest) × (b'0' < c) × (c ≤ b'9')
first_digit zero n tail p h = (b'0' + n, tail, decimal_small 0 n tail h, omega arith, omega arith)
first_digit (suc f) n tail p h = elim (dec_lt n 10) [
  | yes small ↦ (b'0' + n, tail, decimal_small (suc f) n tail small, omega arith, omega arith)
  | no big ↦
      let (c, rest, e, l, u) =
        first_digit f (n / 10) ((b'0' + n % 10) ∷ tail) (omega arith) (tenth (suc f) n h) in
      (c, rest, decimal_large (suc f) n tail (omega arith) ∙ e, l, u)
]

-- Text that does not start with 0 is read in radix 10.
number_value-decimal_text :
    (c : ℕ) (rest : Bytes) → c ≢ b'0' → number_value (c ∷ rest) ≡ numeral 10 0 (c ∷ rest)
unfolding number_value split_radix
number_value-decimal_text c [] h = refl
number_value-decimal_text c (d ∷ rest) h = ground arith

number_value-decimal : (f n : ℕ) → n < 10 ^ suc f → number_value (decimal (suc f) n []) ≡ some n
number_value-decimal f zero h =
    rw (decimal_small f 0 [] (omega arith))
      (unfold number_value split_radix numeral to_digit digit_value in refl)
number_value-decimal f (suc n) h =
    let (c, rest, e, l, u) = first_digit f (suc n) [] (omega arith) h in
    rw e (
      number_value-decimal_text c rest (omega arith)
      ∙ (rw (← e) (numeral-decimal f (suc n) [] h) ∙ none_left))
  where
    none_left : numeral 10 (suc n) [] ≡ some (suc n)
    none_left = unfold numeral in refl

-- The decimal text of a number of at most 20 digits is read back as that number, or as the largest
-- word that is positive if it is bigger.
pub parse_number-decimal :
    (n : ℕ) → n < 10 ^ 20 → parse_number (decimal 20 n []) ≡ some (min n i64_max)
parse_number-decimal n h =
    parse_number_lem (decimal 20 n []) ∙ ap capped (number_value-decimal 19 n h)
