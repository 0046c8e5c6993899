-- ===== src/Chars/Decode.antt =====
-- Decoding a whole text: its fuel, and its characters encoded again.
use mathlib.Core.List.{flat_map}
use mathlib.Core.Path.{ap₂}
use oh_my_shell.Base.{
  ℕ, zero, suc, ◌≤◌, ◌<◌, Bytes, [], ◌∷◌, ◌++◌, ◌≡◌, refl, ◌∙◌, ap, sym, length, length-drop,
  take-append-drop, arith,
}
use oh_my_shell.Chars.{unit_at, after_unit, units_loop, units}
use oh_my_shell.Chars.Utf8.{encode, unit_at_len, encode-unit_at}

-- What is left after a character is shorter.
pub after_unit_lt : (b : ℕ) (s : Bytes) → length (after_unit b s) < suc (length s)
after_unit_lt b s = omega (arith, unit_at_len b s, length-drop {0} (unit_at b s).1 (b ∷ s))

-- Any fuel that covers the text gives the same characters.
pub units_loop-fuel :
    (f : ℕ) (s : Bytes) → length s ≤ f → (g : ℕ) → length s ≤ g → units_loop f s ≡ units_loop g s
unfolding units_loop
units_loop-fuel f [] h g k = refl
units_loop-fuel zero (b ∷ s) h g k = absurd (omega arith)
units_loop-fuel (suc f) (b ∷ s) h zero k = absurd (omega arith)
units_loop-fuel (suc f) (b ∷ s) h (suc g) k =
    let m : length (after_unit b s) < suc (length s) = after_unit_lt b s in
    rw (units_loop-fuel f (after_unit b s) (omega arith) g (omega arith)) refl

pub units-cons : (b : ℕ) (s : Bytes) → units (b ∷ s) ≡ (unit_at b s).0 ∷ units (after_unit b s)
unfolding units units_loop
units-cons b s =
    let m : length (after_unit b s) < suc (length s) = after_unit_lt b s in
    ap (λ us. (unit_at b s).0 ∷ us)
      (units_loop-fuel (length s) (after_unit b s) (omega arith) (length (after_unit b s))
        (omega arith))

pub units-nil : units [] ≡ []
unfolding units units_loop
units-nil = refl

-- Induction on a text, a character at a time.
pub unit_induction :
    (P : Bytes → Type 0)
    → P []
    → ((b : ℕ) (s : Bytes) → P (after_unit b s) → P (b ∷ s))
    → (f : ℕ) (s : Bytes) → length s ≤ f
    → P s
unit_induction P base step f [] h = base
unit_induction P base step zero (b ∷ s) h = absurd (omega arith)
unit_induction P base step (suc f) (b ∷ s) h =
    step b s (unit_induction P base step f (after_unit b s) (omega (arith, after_unit_lt b s)))

-- Decoding loses nothing: the characters' encodings, put together, are the text.
pub flat_map-encode-units : (s : Bytes) → flat_map encode (units s) ≡ s
unfolding flat_map
flat_map-encode-units s =
    unit_induction (λ t. flat_map encode (units t) ≡ t) (rw units-nil refl)
      (λ b t ih.
        rw (units-cons b t)
          (ap₂ ◌++◌ (encode-unit_at b t) ih ∙ take-append-drop (unit_at b t).1 (b ∷ t)))
      (length s) s (omega arith)

-- Two texts with the same characters are the same.
pub units-injective : (s t : Bytes) → units s ≡ units t → s ≡ t
units-injective s t e =
    sym (flat_map-encode-units s) ∙ (ap (flat_map encode) e ∙ flat_map-encode-units t)
