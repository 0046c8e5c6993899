-- ===== src/Base/Order.antt =====
-- Membership and order in lists of numbers, and what `find` finds in an ordered list.
use Prim.Native.Nat.{ℕ}
use mathlib.Core.Path.{◌≡◌, refl, sym}
use mathlib.Core.Logic.{◌⊎◌, inl, inr}
use mathlib.Core.Bool.{Bool, true, false}
use mathlib.Core.List.{List, [], ◌∷◌, ◌++◌}
use mathlib.Core.Option.{none, some}
use native.Mathlib.Omega.{arith}
use oh_my_shell.Base.Tests.{if◌then◌else◌, Bool-cases}
use oh_my_shell.Base.Lists.{find}

abbrev pub In : ℕ → List ℕ → Type 0
In n [] = ⊥
In n (x ∷ xs) = (n ≡ x) ⊎ In n xs

-- Each element is related to all that follow it.
abbrev pub Ordered : (ℕ → ℕ → Type 0) → List ℕ → Type 0
Ordered R [] = Unit
Ordered R (x ∷ xs) = ((m : ℕ) → In m xs → R x m) × Ordered R xs

pub In-append : (n : ℕ) (xs ys : List ℕ) → In n (xs ++ ys) → In n xs ⊎ In n ys
In-append n [] ys h = inr h
In-append n (x ∷ xs) ys (inl e) = inl (inl e)
In-append n (x ∷ xs) ys (inr h) = elim (In-append n xs ys h) [ inl k ↦ inl (inr k) | inr k ↦ inr k ]

pub append-In_left : (n : ℕ) (xs ys : List ℕ) → In n xs → In n (xs ++ ys)
append-In_left n [] ys h = elim h [ ]
append-In_left n (x ∷ xs) ys (inl e) = inl e
append-In_left n (x ∷ xs) ys (inr h) = inr (append-In_left n xs ys h)

pub append-In_right : (n : ℕ) (xs ys : List ℕ) → In n ys → In n (xs ++ ys)
append-In_right n [] ys h = h
append-In_right n (x ∷ xs) ys h = inr (append-In_right n xs ys h)

pub Ordered-append :
    (R : ℕ → ℕ → Type 0) (xs ys : List ℕ)
    → Ordered R xs
    → Ordered R ys
    → ((a b : ℕ) → In a xs → In b ys → R a b)
    → Ordered R (xs ++ ys)
Ordered-append R [] ys o q h = q
Ordered-append R (x ∷ xs) ys (p, o) q h = (
  λ m k. elim (In-append m xs ys k) [ inl a ↦ p m a | inr b ↦ h x m (inl refl) b ],
  Ordered-append R xs ys o q (λ a b i j. h a b (inr i) j),
)

-- `iter().rev()`
unfoldable pub backwards : List ℕ → List ℕ
backwards [] = []
backwards (x ∷ xs) = backwards xs ++ x ∷ []

pub In-backwards : (n : ℕ) (xs : List ℕ) → In n (backwards xs) → In n xs
unfolding backwards
In-backwards n [] h = h
In-backwards n (x ∷ xs) h = elim (In-append n (backwards xs) (x ∷ []) h) [
  | inl k ↦ inr (In-backwards n xs k)
  | inr (inl e) ↦ inl e
  | inr (inr k) ↦ absurd k
]

pub backwards-In : (n : ℕ) (xs : List ℕ) → In n xs → In n (backwards xs)
unfolding backwards
backwards-In n [] h = elim h [ ]
backwards-In n (x ∷ xs) (inl e) = append-In_right n (backwards xs) (x ∷ []) (inl e)
backwards-In n (x ∷ xs) (inr h) = append-In_left n (backwards xs) (x ∷ []) (backwards-In n xs h)

pub Ordered-backwards :
    (R : ℕ → ℕ → Type 0) (xs : List ℕ) → Ordered R xs → Ordered (λ a b. R b a) (backwards xs)
unfolding backwards
Ordered-backwards R [] o = tt
Ordered-backwards R (x ∷ xs) (p, o) =
    Ordered-append (λ a b. R b a) (backwards xs) (x ∷ []) (Ordered-backwards R xs o)
      (λ m k. absurd k, tt)
      (λ a b i j. elim j [ inl e ↦ rw e (p a (In-backwards a xs i)) | inr k ↦ absurd k ])

-- What `find` returns is in the list and passes the test, and all else that passes comes later.
pub find-some :
    (R : ℕ → ℕ → Type 0) (p : ℕ → Bool) (xs : List ℕ) (n : ℕ)
    → Ordered R xs
    → find p xs ≡ some n
    → In n xs × (p n ≡ true) × ((m : ℕ) → In m xs → p m ≡ true → (m ≡ n) ⊎ R n m)
find-some R p [] n o e = cc
find-some R p (x ∷ xs) n (later, o) e = elim (Bool-cases (p x)) [
  | inl h ↦
      let is : x ≡ n = found x n (p x) h e in (inl (sym is), rw (← is) h, λ m i _. first m n is i)
  | inr h ↦
      let (i, q, rest) = find-some R p xs n o (rw h at e) in
      (inr i, q, λ m k t. elim k [ inl same ↦ cc | inr k' ↦ rest m k' t ])
]
  where
    found : (y m : ℕ) (b : Bool) → b ≡ true → (if b then some y else find p xs) ≡ some m → y ≡ m
    found y m b h e = ground arith

    first : (m k : ℕ) → x ≡ k → In m (x ∷ xs) → (m ≡ k) ⊎ R k m
    first m k is (inl e) = inl (cc)
    first m k is (inr i) = inr (rw (← is) (later m i))

pub find-none : (p : ℕ → Bool) (xs : List ℕ) → find p xs ≡ none → (m : ℕ) → In m xs → p m ≡ false
find-none p [] e m i = absurd i
find-none p (x ∷ xs) e m i = elim (Bool-cases (p x)) [
  | inl h ↦ absurd (never (p x) h e)
  | inr h ↦ elim i [ inl same ↦ rw same h | inr k ↦ find-none p xs (rw h at e) m k ]
]
  where
    never : (b : Bool) → b ≡ true → (if b then some x else find p xs) ≡ none → ⊥
    never b h e = ground arith
