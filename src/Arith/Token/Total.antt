-- ===== src/Arith/Token/Total.antt =====
-- The fuel of cutting an expression into tokens, against the length of the text.
use oh_my_shell.Base.{
  ℕ, zero, suc, ◌+◌, ◌≤◌, ◌<◌, Bytes, Option, none, some, List, [], ◌∷◌, ◌++◌, ◌≡◌, refl, length,
  Option-cases, Bool-cases, inl, inr, arith,
}
use oh_my_shell.Base.Run.{Run, done, Ends, Ends→done}
use oh_my_shell.Arith.Token.{
  Op, Token, Result, ok, err, operators, strip, find_operator, is_space, is_digit, is_name_start,
  split_run, push_number, operator_token, tokenize_step, tokenize_loop, tokenize,
}

abbrev Shorter : {A : Type 0} → ℕ → Result (A × Bytes) → Type 0
Shorter n (err e) = Unit
Shorter n (ok (_, s)) = length s ≤ n

split_run_le : (s : Bytes) → length (split_run s).1 ≤ length s
unfolding split_run
split_run_le [] = omega arith
split_run_le (c ∷ s) = ground (arith, split_run_le s)

strip_le : (p s rest : Bytes) → strip p s ≡ some rest → length rest + length p ≤ length s
unfolding strip
strip_le [] s rest e = ground arith
strip_le (a ∷ p) [] rest e = cc
strip_le (a ∷ p) (b ∷ s) rest e = ground (arith, strip_le p s rest)

abbrev NoEmpty : List (Bytes × Op) → Type 0
NoEmpty [] = Unit
NoEmpty ((p, o) ∷ ops) = (1 ≤ length p) × NoEmpty ops

find_operator_lt :
    (ops : List (Bytes × Op)) (s : Bytes) (o : Op) (rest : Bytes)
    → NoEmpty ops
    → find_operator ops s ≡ some (o, rest)
    → length rest < length s
unfolding find_operator
find_operator_lt [] s o rest n e = cc
find_operator_lt ((p, q) ∷ ops) s o rest (n, ns) e = elim (Option-cases (strip p s)) [
  | inl missing ↦ find_operator_lt ops s o rest ns (rw (missing, find_operator) at e)
  | inr (left, found) ↦
      let same : rest ≡ left = ground arith in rw same (omega (arith, strip_le p s left found))
]

operators-NoEmpty : NoEmpty operators
unfolding operators
operators-NoEmpty = omega arith

push_number-Shorter :
    (o : Option ℕ) (n : ℕ) (rest : Bytes) → length rest ≤ n → Shorter n (push_number o rest)
push_number-Shorter none n rest h = tt
push_number-Shorter (some v) n rest h = h

operator-Shorter :
    (c : ℕ) (s : Bytes) (found : Option (Op × Bytes))
    → find_operator operators (c ∷ s) ≡ found
    → Shorter (length s) (operator_token c found)
operator-Shorter c s none e = tt
operator-Shorter c s (some (o, rest)) e =
    omega (arith, find_operator_lt operators (c ∷ s) o rest operators-NoEmpty e)

tokenize_step-Shorter : (c : ℕ) (s : Bytes) → Shorter (length s) (tokenize_step c s)
unfolding tokenize_step
tokenize_step-Shorter c s = elim (Bool-cases (is_space c)) [
  | inl e ↦ rw e (omega arith)
  | inr e ↦ rw e (elim (Bool-cases (is_digit c)) [
    | inl d ↦ rw d (push_number-Shorter _ (length s) _ (split_run_le s))
    | inr d ↦ rw d (elim (Bool-cases (is_name_start c)) [
      | inl n ↦ rw n (split_run_le s)
      | inr n ↦ rw n (operator-Shorter c s (find_operator operators (c ∷ s)) refl)
    ])
  ])
]

loop-Ends :
    (f : ℕ) (s : Bytes) (tokens : List Token)
    → length s ≤ f
    → Ends (λ _. Unit {0}) (tokenize_loop f s tokens)
unfolding tokenize_loop
loop-Ends f [] tokens h = tt
loop-Ends zero (c ∷ s) tokens h = absurd (omega arith)
loop-Ends (suc f) (c ∷ s) tokens h =
    next (tokenize_step c s) (tokenize_step-Shorter c s) (λ rest more k. loop-Ends f rest more k)
  where
    next :
        (r : Result (List Token × Bytes))
        → Shorter (length s) r
        → ((rest : Bytes) (more : List Token)
            → length rest ≤ f
            → Ends (λ _. Unit {0}) (tokenize_loop f rest more))
        → Ends
            (λ _. Unit {0})
            (elim r as (λ _. Run (Result (List Token))) [
              | err e ↦ done (err e)
              | ok (new, rest) ↦ tokenize_loop f rest (tokens ++ new)
            ])
    next (err e) k ih = tt
    next (ok (new, rest)) k ih = ih rest (tokens ++ new) (omega arith)

pub tokenize_total : (expr : Bytes) → (r : Result (List Token)) × (tokenize expr ≡ done r)
unfolding tokenize
tokenize_total expr =
    Ends→done (λ _. Unit {0}) (tokenize expr) (loop-Ends (length expr) expr [] (omega arith))
