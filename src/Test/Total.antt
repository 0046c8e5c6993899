-- ===== src/Test/Total.antt =====
-- The fuel of `test`, eight calls for each argument, and its exit status.
use oh_my_shell.Base.{
  ℕ, zero, suc, ◌+◌, ◌*◌, ◌≤◌, ◌<◌, Bytes, Bool, true, false, not, ◌&&◌, ◌||◌, Option, none, some,
  List, [], ◌∷◌, ◌≡◌, refl, length, codes, Bool-cases, inl, inr, arith,
}
use oh_my_shell.Test.{Os, Result, ok, err, binary, unary, compare, unary_test}
use oh_my_shell.Test.Grammar.{
  Eval, continue, Call, or_expr, and_expr, not_expr, primary, or_loop, and_loop, Rec, at_word, tail,
  more_follows, binary_follows, parse_or_loop, parse_and_loop, parse_not, close_paren, with_rest,
  parse_plain, parse_primary, body, eval_fuel, whole, evaluate_test, without_bracket, status_of,
  with_status, test,
}

-- The run ended, and left at most `k` arguments.
abbrev Leaves : ℕ → Eval → Type 0
Leaves k none = ⊥
Leaves k (some (err e)) = Unit
Leaves k (some (ok (value, args))) = length args ≤ k

Leaves-continue :
    (j k : ℕ) (m : Eval) (f : Bool → List Bytes → Eval)
    → Leaves j m
    → ((value : Bool) (args : List Bytes) → length args ≤ j → Leaves k (f value args))
    → Leaves k (continue f m)
Leaves-continue j k none f h g = h
Leaves-continue j k (some (err e)) f h g = tt
Leaves-continue j k (some (ok (value, args))) f h g = g value args h

-- How many calls a function makes before it reads an argument.
abbrev rank : Call → ℕ
rank or_expr = 4
rank and_expr = 3
rank not_expr = 2
rank primary = 1
rank (or_loop value) = 0
rank (and_loop value) = 0

abbrev Suffices : ℕ → Rec → Type 0
Suffices f rec =
    (call : Call) (args : List Bytes) (k : ℕ)
    → length args ≤ k
    → 8 * length args + rank call < f
    → Leaves k (rec call args)

-- Where a word was found there is one argument less after it.
at_word-tail :
    (word : Bytes) (args : List Bytes)
    → at_word word args ≡ true
    → length args ≡ suc (length (tail args))
at_word-tail word [] e = cc
at_word-tail word (a ∷ args) e = refl

more_follows-tail :
    (b : Bool) (args : List Bytes)
    → (more_follows args && b) ≡ true
    → length args ≡ suc (length (tail args))
more_follows-tail b [] e = cc
more_follows-tail b (a ∷ args) e = refl

with_rest-Leaves :
    (k : ℕ) (args : List Bytes) (r : Result Bool) → length args ≤ k → Leaves k (with_rest args r)
with_rest-Leaves k args (ok value) h = h
with_rest-Leaves k args (err e) h = tt

plain-Leaves :
    (os : Os) (args : List Bytes) (k : ℕ) → length args ≤ k → Leaves k (parse_plain os args)
unfolding parse_plain
plain-Leaves os [] k h = tt
plain-Leaves os (a ∷ []) k h = omega arith
plain-Leaves os (a ∷ b ∷ []) k h = elim (Bool-cases (unary a)) [
  | inl e ↦ rw e (with_rest-Leaves k [] (unary_test os a b) (omega arith))
  | inr e ↦ rw e (omega arith)
]
plain-Leaves os (a ∷ b ∷ c ∷ args) k h = elim (Bool-cases (binary b)) [
  | inl e ↦ rw e (with_rest-Leaves k args (compare os a b c) (omega arith))
  | inr e ↦ elim (Bool-cases (unary a)) [
    | inl u ↦ rw (e, u) (with_rest-Leaves k (c ∷ args) (unary_test os a b) (omega arith))
    | inr u ↦ rw (e, u) (omega arith)
  ]
]

close-Leaves :
    (value : Bool) (args : List Bytes) (k : ℕ) → length args ≤ k → Leaves k (close_paren value args)
unfolding close_paren
close-Leaves value args k h = elim (Bool-cases (at_word (codes ")") args)) [
  | inl e ↦ rw e (omega (arith, at_word-tail (codes ")") args e))
  | inr e ↦ rw e tt
]

module _ (os : Os) (f : ℕ) (rec : Rec) (ih : Suffices f rec) where
  or_loop-Leaves :
      (value : Bool) (args : List Bytes) (k : ℕ)
      → length args ≤ k
      → 8 * length args < suc f
      → Leaves k (parse_or_loop rec value args)
  unfolding parse_or_loop
  or_loop-Leaves value args k h l = elim (Bool-cases (at_word (codes "-o") args)) [
    | inr e ↦ rw e h
    | inl e ↦
        let shorter = at_word-tail (codes "-o") args e in
        rw e (
          Leaves-continue (length (tail args)) k (rec and_expr (tail args)) _
            (ih and_expr (tail args) (length (tail args)) (omega arith) (omega (arith, shorter)))
            (λ right args' h'.
              ih (or_loop (value || right)) args' k (omega (arith, shorter))
                (omega (arith, shorter))))
  ]

  and_loop-Leaves :
      (value : Bool) (args : List Bytes) (k : ℕ)
      → length args ≤ k
      → 8 * length args < suc f
      → Leaves k (parse_and_loop rec value args)
  unfolding parse_and_loop
  and_loop-Leaves value args k h l = elim (Bool-cases (at_word (codes "-a") args)) [
    | inr e ↦ rw e h
    | inl e ↦
        let shorter = at_word-tail (codes "-a") args e in
        rw e (
          Leaves-continue (length (tail args)) k (rec not_expr (tail args)) _
            (ih not_expr (tail args) (length (tail args)) (omega arith) (omega (arith, shorter)))
            (λ right args' h'.
              ih (and_loop (value && right)) args' k (omega (arith, shorter))
                (omega (arith, shorter))))
  ]

  -- `or_expr` after a word that opens an expression.
  opened-Leaves :
      (word : Bytes) (args : List Bytes) (rest : Bool) (k : ℕ) (g : Bool → List Bytes → Eval)
      → (at_word word args && rest) ≡ true
      → length args ≤ k
      → 8 * length args < f
      → ((value : Bool) (args' : List Bytes) → length args' ≤ k → Leaves k (g value args'))
      → Leaves k (continue g (rec or_expr (tail args)))
  opened-Leaves word args rest k g e h l after =
      let shorter = at_word-tail word args (first (at_word word args) rest e) in
      Leaves-continue (length (tail args)) k (rec or_expr (tail args)) g
        (ih or_expr (tail args) (length (tail args)) (omega arith) (omega (arith, shorter)))
        (λ value args' h'. after value args' (omega (arith, shorter)))
    where
      first : (a b : Bool) → (a && b) ≡ true → a ≡ true
      first true b e = refl
      first false b e = e

  not-Leaves :
      (args : List Bytes) (k : ℕ)
      → length args ≤ k
      → 8 * length args + 2 < suc f
      → Leaves k (parse_not rec args)
  unfolding parse_not
  not-Leaves args k h l =
      elim (Bool-cases
        (at_word (codes "!") args && (more_follows args && not (binary_follows args)))) [
          | inl e ↦
              rw e (opened-Leaves (codes "!") args _ k _ e h (omega arith) (λ value args' h'. h'))
          | inr e ↦ rw e (ih primary args k h (omega arith))
        ]

  primary-Leaves :
      (args : List Bytes) (k : ℕ)
      → length args ≤ k
      → 8 * length args + 1 < suc f
      → Leaves k (parse_primary os rec args)
  unfolding parse_primary
  primary-Leaves args k h l =
      elim (Bool-cases
        (at_word (codes "(") args && (more_follows args && not (binary_follows args)))) [
          | inl e ↦ rw e (
              opened-Leaves (codes "(") args _ k close_paren e h (omega arith)
                (λ value args' h'. close-Leaves value args' k h'))
          | inr e ↦ rw e (plain-Leaves os args k h)
        ]

  body-Suffices : Suffices (suc f) (body os rec)
  unfolding body
  body-Suffices or_expr args k h l =
      Leaves-continue (length args) k (rec and_expr args) _
        (ih and_expr args (length args) (omega arith) (omega arith))
        (λ value args' h'. ih (or_loop value) args' k (omega arith) (omega arith))
  body-Suffices and_expr args k h l =
      Leaves-continue (length args) k (rec not_expr args) _
        (ih not_expr args (length args) (omega arith) (omega arith))
        (λ value args' h'. ih (and_loop value) args' k (omega arith) (omega arith))
  body-Suffices (or_loop value) args k h l = or_loop-Leaves value args k h (omega arith)
  body-Suffices (and_loop value) args k h l = and_loop-Leaves value args k h (omega arith)
  body-Suffices not_expr args k h l = not-Leaves args k h l
  body-Suffices primary args k h l = primary-Leaves args k h l

eval-Suffices : (os : Os) (f : ℕ) → Suffices f (eval_fuel os f)
unfolding eval_fuel
eval-Suffices os zero call args k h l = absurd (omega arith)
eval-Suffices os (suc f) call args k h l =
    body-Suffices os f (eval_fuel os f) (eval-Suffices os f) call args k h l

evaluate_test_total :
    (os : Os) (args : List Bytes) → (r : Result Bool) × (evaluate_test os args ≡ some r)
unfolding evaluate_test
evaluate_test_total os [] = (ok false, refl)
evaluate_test_total os (a ∷ args) =
    ended (eval_fuel os (8 * length (a ∷ args) + 8) or_expr (a ∷ args)) (
      eval-Suffices os (8 * length (a ∷ args) + 8) or_expr (a ∷ args) (length (a ∷ args))
        (omega arith) (omega arith))
  where
    ended : (m : Eval) → Leaves (length (a ∷ args)) m → (r : Result Bool) × (whole m ≡ some r)
    ended none h = absurd h
    ended (some (err e)) h = (err e, refl)
    ended (some (ok (value, []))) h = (ok value, refl)
    ended (some (ok (value, b ∷ rest))) h = (_, refl)

status-bound : (r : Result Bool) → status_of r ≤ 2
status-bound (ok true) = omega arith
status-bound (ok false) = omega arith
status-bound (err e) = omega arith

-- `test` and `[` return for all arguments, whatever the operating system answers, and the exit
-- status is 0, 1 or 2.
pub test_total :
    (os : Os) (args : List Bytes) (bracket : Bool)
    → (n : ℕ) × (test os args bracket ≡ some n) × (n ≤ 2)
unfolding test
test_total os args false =
    let (r, e) = evaluate_test_total os args in (status_of r, rw e refl, status-bound r)
test_total os args true = without (without_bracket args)
  where
    without :
        (o : Option (List Bytes))
        → (n : ℕ) × ((elim o [ none ↦ some 2 | some rest ↦ with_status (evaluate_test os rest) ])
            ≡ some n)
          × (n ≤ 2)
    without none = (2, refl, omega arith)
    without (some rest) =
        let (r, e) = evaluate_test_total os rest in (status_of r, rw e refl, status-bound r)
