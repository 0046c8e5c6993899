-- ===== src/Base/Run.antt =====
-- The result of a loop that runs on fuel.
use mathlib.Core.Path.{◌≡◌, refl}

pub data Run {ℓ} (A : Type ℓ) : Type ℓ where
  done : A → Run A
  out_of_fuel : Run A

infixl 5 ◌>>=◌
abbrev pub ◌>>=◌ {ℓ κ} : {A : Type ℓ} {B : Type κ} → Run A → (A → Run B) → Run B
done a >>= f = f a
out_of_fuel >>= f = out_of_fuel

-- The loop ended, with a value of which `P` holds.
abbrev pub Ends {ℓ} : {A : Type ℓ} → (A → Type 0) → Run A → Type 0
Ends P (done a) = P a
Ends P out_of_fuel = ⊥

pub Ends-bind {ℓ κ} :
    {A : Type ℓ} {B : Type κ} (P : A → Type 0) (Q : B → Type 0) (r : Run A) (f : A → Run B)
    → Ends P r
    → ((a : A) → P a → Ends Q (f a))
    → Ends Q (r >>= f)
Ends-bind P Q (done a) f h k = k a h
Ends-bind P Q out_of_fuel f h k = h

pub Ends→done {ℓ} : {A : Type ℓ} (P : A → Type 0) (r : Run A) → Ends P r → (a : A) × (r ≡ done a)
Ends→done P (done a) h = (a, refl)
Ends→done P out_of_fuel h = absurd h
