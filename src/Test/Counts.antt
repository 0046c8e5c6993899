-- ===== src/Test/Counts.antt =====
-- Expressions of up to three arguments, against a table by their count.
use oh_my_shell.Base.{
  ℕ, suc, Bytes, Bool, true, false, not, Option, none, some, List, [], ◌∷◌, ◌≡◌, refl, ap, ◌∙◌,
  if◌then◌else◌, is_empty, codes, bytes_eq, bytes_eq→eq, Bool-cases, inl, inr,
}
use oh_my_shell.Test.{Os, Result, ok, err, one_of, binary, unary, compare, unary_test}
use oh_my_shell.Test.Grammar.{
  Eval, continue, or_expr, primary, or_loop, and_loop, Rec, with_rest, whole, parse_or_loop,
  parse_and_loop, parse_not, parse_plain, parse_primary, body, eval_fuel, evaluate_test,
}

abbrev negated : Result Bool → Result Bool
negated (ok b) = ok (not b)
negated (err e) = err e

abbrev negated_if : Option (Result Bool) → Option (Result Bool)
negated_if none = none
negated_if (some r) = some (negated r)

-- POSIX's table for `test`, without its parentheses, `-a` and `-o`; `none`: it says nothing.
abbrev by_two : Os → Bytes → Bytes → Option (Result Bool)
by_two os a b =
    if bytes_eq a (codes "!")
    then some (ok (is_empty b))
    else if unary a
    then some (unary_test os a b)
    else none

unfoldable pub by_count : Os → List Bytes → Option (Result Bool)
by_count os [] = some (ok false)
by_count os (a ∷ []) = some (ok (not (is_empty a)))
by_count os (a ∷ b ∷ []) = by_two os a b
by_count os (a ∷ b ∷ c ∷ []) =
    if binary b
    then some (compare os a b c)
    else if bytes_eq a (codes "!")
    then negated_if (by_two os b c)
    else none
by_count os (a ∷ b ∷ c ∷ d ∷ args) = none

not-not : (b : Bool) → not (not b) ≡ b
not-not true = refl
not-not false = refl

whole_result : (r : Result Bool) → whole (with_rest [] r) ≡ some r
whole_result (ok b) = refl
whole_result (err e) = refl

one_argument : (os : Os) (a : Bytes) → evaluate_test os (a ∷ []) ≡ some (ok (not (is_empty a)))
unfolding evaluate_test eval_fuel body parse_not parse_primary parse_plain parse_or_loop
    parse_and_loop
one_argument os a = elim (Bool-cases (bytes_eq a (codes "!"))) [
  | inl e ↦
      rw e (elim (Bool-cases (bytes_eq a (codes "("))) [ inl f ↦ rw f refl | inr f ↦ rw f refl ])
  | inr e ↦
      rw e (elim (Bool-cases (bytes_eq a (codes "("))) [ inl f ↦ rw f refl | inr f ↦ rw f refl ])
]

abbrev nine : ℕ → ℕ
nine f = suc (suc (suc (suc (suc (suc (suc (suc (suc f))))))))

abbrev more : ℕ → ℕ
more f = suc (nine f)

-- Two arguments, read with fuel left over.
module _ (os : Os) (f : ℕ) (a b : Bytes) where
  two_not :
      bytes_eq a (codes "!") ≡ true
      → eval_fuel os (more f) or_expr (a ∷ b ∷ []) ≡ some (ok (is_empty b, []))
  unfolding eval_fuel body parse_not parse_primary parse_plain parse_or_loop parse_and_loop
  two_not e = rw e (elim (Bool-cases (bytes_eq b (codes "!"))) [
    | inl g ↦ rw g (elim (Bool-cases (bytes_eq b (codes "("))) [
      | inl h ↦ rw (h, not-not (is_empty b)) refl
      | inr h ↦ rw (h, not-not (is_empty b)) refl
    ])
    | inr g ↦ rw g (elim (Bool-cases (bytes_eq b (codes "("))) [
      | inl h ↦ rw (h, not-not (is_empty b)) refl
      | inr h ↦ rw (h, not-not (is_empty b)) refl
    ])
  ])

  two_unary :
      (r : Result Bool)
      → unary_test os a b ≡ r
      → bytes_eq a (codes "!") ≡ false
      → bytes_eq a (codes "(") ≡ false
      → unary a ≡ true
      → eval_fuel os (more f) or_expr (a ∷ b ∷ []) ≡ with_rest [] r
  unfolding eval_fuel body parse_not parse_primary parse_plain parse_or_loop parse_and_loop
  two_unary (ok v) t e p u = rw (e, p, u, t) refl
  two_unary (err v) t e p u = rw (e, p, u, t) refl

  no_paren : unary a ≡ true → bytes_eq a (codes "(") ≡ false
  unfolding unary one_of bytes_eq
  no_paren u = elim (Bool-cases (bytes_eq a (codes "("))) [
    | inr p ↦ p
    | inl p ↦ absurd (never (bytes_eq→eq a (codes "(") p) u)
  ]
    where
      absurd_unary : unary (codes "(") ≡ true → ⊥
      absurd_unary u = cc

      never : a ≡ codes "(" → unary a ≡ true → ⊥
      never e u = absurd_unary (rw e at u)

  two_arguments :
      (r : Result Bool)
      → by_two os a b ≡ some r
      → eval_fuel os (more f) or_expr (a ∷ b ∷ []) ≡ with_rest [] r
  two_arguments r h = elim (Bool-cases (bytes_eq a (codes "!"))) [
    | inl e ↦ rw (← some_lem (rw e at h)) (two_not e)
    | inr e ↦ elim (Bool-cases (unary a)) [
      | inl u ↦ two_unary r (some_lem (rw (e, u) at h)) e (no_paren u) u
      | inr u ↦ absurd (nothing (rw (e, u) at h))
    ]
  ]
    where
      some_lem : {x y : Result Bool} → some x ≡ some y → x ≡ y
      some_lem e = cc

      nothing : none ≡ some r → ⊥
      nothing e = cc

module _ (os : Os) (a b c : Bytes) where
  not_binary :
      (rec : Rec) → binary b ≡ true → parse_not rec (a ∷ b ∷ c ∷ []) ≡ rec primary (a ∷ b ∷ c ∷ [])
  unfolding parse_not
  not_binary rec h = elim (Bool-cases (bytes_eq a (codes "!"))) [
    | inl e ↦ rw (e, h) refl
    | inr e ↦ rw e refl
  ]

  primary_binary :
      (rec : Rec)
      → binary b ≡ true
      → parse_primary os rec (a ∷ b ∷ c ∷ []) ≡ with_rest [] (compare os a b c)
  unfolding parse_primary parse_plain
  primary_binary rec h = elim (Bool-cases (bytes_eq a (codes "("))) [
    | inl e ↦ rw (e, h) refl
    | inr e ↦ rw (e, h) refl
  ]

  negation :
      (rec : Rec)
      → binary b ≡ false
      → bytes_eq a (codes "!") ≡ true
      → parse_not rec (a ∷ b ∷ c ∷ [])
        ≡ continue (λ value args. some (ok (not value, args))) (rec or_expr (b ∷ c ∷ []))
  unfolding parse_not
  negation rec h e = rw (e, h) refl

  abbrev after_or : ℕ → Bool → List Bytes → Eval
  after_or f value args = eval_fuel os (suc (suc (more f))) (or_loop value) args

  abbrev after_and : ℕ → Bool → List Bytes → Eval
  after_and f value args = eval_fuel os (suc (more f)) (and_loop value) args

  -- What the functions above the negation do with a value that uses all arguments.
  through_loops :
      (f : ℕ) (r : Result Bool)
      → parse_not (eval_fuel os (more f)) (a ∷ b ∷ c ∷ []) ≡ with_rest [] r
      → eval_fuel os (suc (suc (suc (more f)))) or_expr (a ∷ b ∷ c ∷ []) ≡ with_rest [] r
  unfolding eval_fuel body parse_or_loop parse_and_loop
  through_loops f (ok v) h = ap (λ m. continue (after_or f) (continue (after_and f) m)) h
  through_loops f (err v) h = ap (λ m. continue (after_or f) (continue (after_and f) m)) h

  at_primary :
      (f : ℕ)
      → eval_fuel os (more f) primary (a ∷ b ∷ c ∷ [])
        ≡ parse_primary os (eval_fuel os (nine f)) (a ∷ b ∷ c ∷ [])
  unfolding eval_fuel body
  at_primary f = refl

  negated_rest :
      (r : Result Bool)
      → continue (λ value args. some (ok (not value, args))) (with_rest [] r)
        ≡ with_rest [] (negated r)
  negated_rest (ok v) = refl
  negated_rest (err v) = refl

  three_binary :
      (f : ℕ)
      → binary b ≡ true
      → eval_fuel os (suc (suc (suc (more f)))) or_expr (a ∷ b ∷ c ∷ [])
        ≡ with_rest [] (compare os a b c)
  three_binary f h =
      through_loops f (compare os a b c) (not_binary _ h ∙ (at_primary f ∙ primary_binary _ h))

  three_not :
      (f : ℕ) (r : Result Bool)
      → binary b ≡ false
      → bytes_eq a (codes "!") ≡ true
      → by_two os b c ≡ some r
      → eval_fuel os (suc (suc (suc (more f)))) or_expr (a ∷ b ∷ c ∷ []) ≡ with_rest [] (negated r)
  three_not f r h e t = through_loops f (negated r) (
      negation _ h e
      ∙ (ap (continue (λ value args. some (ok (not value, args)))) (two_arguments os f b c r t)
          ∙ negated_rest r))

-- With no, one, two or three arguments, where the table `by_count` has a result, `test` has the same: one
-- argument is a test of a plain string, two are `!` before one or a unary test, three a binary test or `!`
-- before two. The table leaves out parentheses, `-a` and `-o`.
pub evaluate_test-by_count :
    (os : Os) (args : List Bytes) (r : Result Bool)
    → by_count os args ≡ some r
    → evaluate_test os args ≡ some r
unfolding by_count evaluate_test
evaluate_test-by_count os [] r h = h
evaluate_test-by_count os (a ∷ []) r h = one_argument os a ∙ h
evaluate_test-by_count os (a ∷ b ∷ []) r h = ap whole (two_arguments os 14 a b r h) ∙ whole_result r
evaluate_test-by_count os (a ∷ b ∷ c ∷ []) r h = elim (Bool-cases (binary b)) [
  | inl e ↦ ap whole (three_binary os a b c 19 e) ∙ (whole_result (compare os a b c) ∙ rw e at h)
  | inr e ↦ elim (Bool-cases (bytes_eq a (codes "!"))) [
    | inl n ↦ negation_of (by_two os b c) refl e n (rw (e, n) at h)
    | inr n ↦ absurd (nothing (rw (e, n) at h))
  ]
]
  where
    nothing : none ≡ some r → ⊥
    nothing e = cc

    negation_of :
        (o : Option (Result Bool))
        → by_two os b c ≡ o
        → binary b ≡ false
        → bytes_eq a (codes "!") ≡ true
        → negated_if o ≡ some r
        → evaluate_test os (a ∷ b ∷ c ∷ []) ≡ some r
    negation_of none t e n k = cc
    negation_of (some q) t e n k =
        ap whole (three_not os a b c 19 q e n t) ∙ (whole_result (negated q) ∙ k)
evaluate_test-by_count os (a ∷ b ∷ c ∷ d ∷ args) r h = cc
