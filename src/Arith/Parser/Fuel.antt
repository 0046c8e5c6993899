-- ===== src/Arith/Parser/Fuel.antt =====
-- The fuel of the parser: sixteen calls for each token.
use oh_my_shell.Base.{
  ℕ, zero, suc, ◌+◌, ◌-◌, ◌*◌, ◌≤◌, ◌<◌, Bytes, Bool, true, Option, none, some, List, [], ◌∷◌, ◌≡◌,
  refl, ◌==◌, length, Bool-cases, Option-cases, inl, inr, arith,
}
use oh_my_shell.Base.Run.{done}
use oh_my_shell.Vars.{Variables}
use oh_my_shell.Arith.Token.Total.{tokenize_total}
use oh_my_shell.Arith.Token.{
  Op, and_and, or_or, Token, number, name, op, end, unexpected, Result, ok, err,
}
use oh_my_shell.Arith.Eval.{State, peek, rest, advance, is_open, is_close}
use oh_my_shell.Arith.Operators.{levels}
use oh_my_shell.Arith.Parser.{
  assignment, conditional, unary, primary, binary, binary_loop, Rec, parse_binary, parse_operand,
  next_operator, parse_binary_loop, unary_operator, parse_unary, parse_parens, primary_at,
  parse_primary, body, run, expect_end, finish, parse_fuel, evaluate_tokens, evaluate_from,
  evaluate,
}
use oh_my_shell.Arith.Parser.Leaves.{
  Leaves, Suffices, Leaves-bind, length-rest, next_operator-length, unary_operator-length,
  load-Leaves, assignment-Leaves, eat-Leaves, then-Leaves, conditional-Leaves,
}

module _ (f : ℕ) (rec : Rec) (ih : Suffices f rec) where
  binary-Leaves :
      (level : ℕ) (eval : Bool) (s : State) (k : ℕ)
      → level ≤ levels
      → length s.tokens ≤ k
      → 16 * length s.tokens + (12 - level) < suc f
      → Leaves k (parse_binary rec level eval s)
  unfolding parse_binary
  binary-Leaves level eval s k v h l = elim (Bool-cases (level == levels)) [
    | inl e ↦ rw e (ih unary eval s k tt h (ground arith))
    | inr e ↦ rw e (
        then-Leaves f rec ih (binary (level + 1)) eval s k _ (ground arith) h (ground arith)
          λ left s' h'.
            ih (binary_loop level left) eval s' k (ground arith) (omega arith) (ground arith))
  ]

  operand-Leaves :
      (level left : ℕ) (eval : Bool) (o : Op) (s : State) (k : ℕ)
      → level < levels
      → length s.tokens ≤ k
      → 16 * length s.tokens + 12 < f
      → Leaves k (parse_operand rec level left eval o s)
  unfolding parse_operand
  operand-Leaves level left eval and_and s k v h l =
      then-Leaves f rec ih (binary (level + 1)) _ s k _ (omega arith) h (omega arith)
        (λ a s' h'. omega arith)
  operand-Leaves level left eval or_or s k v h l =
      then-Leaves f rec ih (binary (level + 1)) _ s k _ (omega arith) h (omega arith)
        (λ a s' h'. omega arith)
  operand-Leaves level left eval o s k v h l =
      then-Leaves f rec ih (binary (level + 1)) eval s k _ (omega arith) h (omega arith)
        (λ a s' h'. ground arith)

  loop-Leaves :
      (level left : ℕ) (eval : Bool) (s : State) (k : ℕ)
      → level < levels
      → length s.tokens ≤ k
      → 16 * length s.tokens < suc f
      → Leaves k (parse_binary_loop rec level left eval s)
  unfolding parse_binary_loop
  loop-Leaves level left eval s k v h l =
      elim (Option-cases (next_operator level (peek s.tokens))) [
        | inl e ↦ rw e h
        | inr (o, e) ↦ rw e (
            Leaves-bind (length (rest s.tokens)) k (parse_operand rec level left eval o (advance s))
              _ (omega (arith, length-rest s.tokens))
              (operand-Leaves level left eval o (advance s) (length (rest s.tokens)) v (omega arith)
                (omega (arith, length-rest s.tokens, next_operator-length level s.tokens o e)))
              λ value s' h'.
                ih (binary_loop level value) eval s' k v (omega (arith, length-rest s.tokens))
                  (omega (arith, length-rest s.tokens, next_operator-length level s.tokens o e)))
      ]

  unary-Leaves :
      (eval : Bool) (s : State) (k : ℕ)
      → length s.tokens ≤ k
      → 16 * length s.tokens + 1 < suc f
      → Leaves k (parse_unary rec eval s)
  unfolding parse_unary
  unary-Leaves eval s k h l = elim (Option-cases (unary_operator (peek s.tokens))) [
    | inl e ↦ rw e (ih primary eval s k tt h (omega arith))
    | inr (g, e) ↦ rw e (
        then-Leaves f rec ih unary eval (advance s) k _ tt (omega (arith, length-rest s.tokens))
          (omega (arith, length-rest s.tokens, unary_operator-length s.tokens g e))
          (λ value s' h'. omega (arith, length-rest s.tokens)))
  ]

  parens-Leaves :
      (eval : Bool) (s : State) (k : ℕ)
      → 1 ≤ length s.tokens
      → length s.tokens ≤ k
      → 16 * length s.tokens < suc f
      → Leaves k (parse_parens rec eval s)
  unfolding parse_parens
  parens-Leaves eval s k some_left h l =
      then-Leaves f rec ih assignment eval (advance s) k _ tt (omega (arith, length-rest s.tokens))
        (omega (arith, length-rest s.tokens))
        λ value s' h'.
          eat-Leaves f rec ih is_close s' k _ _ refl
            (λ _. omega (arith, length-rest s.tokens, length-rest s'.tokens))
            (omega (arith, length-rest s.tokens))

  primary-Leaves :
      (eval : Bool) (t : Token) (s : State) (k : ℕ)
      → peek s.tokens ≡ t
      → length s.tokens ≤ k
      → 16 * length s.tokens < suc f
      → Leaves k (primary_at rec eval t s)
  unfolding primary_at
  primary-Leaves eval (number n) s k e h l = omega (arith, length-rest s.tokens)
  primary-Leaves eval (name n) s k e h l = elim (Bool-cases eval) [
    | inl on ↦ rw on (load-Leaves f rec ih n (advance s) k (omega (arith, length-rest s.tokens)))
    | inr off ↦ rw off (omega (arith, length-rest s.tokens))
  ]
  primary-Leaves eval (op o) s k e h l = elim (Bool-cases (is_open (op o))) [
    | inl par ↦ rw par (parens-Leaves eval s k (operator_left s.tokens e) h l)
    | inr no_par ↦ rw no_par h
  ]
    where
      operator_left : (ts : List Token) → peek ts ≡ op o → 1 ≤ length ts
      operator_left [] e = cc
      operator_left (t ∷ ts) e = omega arith
  primary-Leaves eval end s k e h l = h

  body-Suffices : Suffices (suc f) (body rec)
  unfolding body parse_primary
  body-Suffices assignment eval s k v h l = assignment-Leaves f rec ih eval s k h l
  body-Suffices conditional eval s k v h l = conditional-Leaves f rec ih eval s k h l
  body-Suffices (binary level) eval s k v h l = binary-Leaves level eval s k v h l
  body-Suffices (binary_loop level left) eval s k v h l =
      loop-Leaves level left eval s k v h (omega arith)
  body-Suffices unary eval s k v h l = unary-Leaves eval s k h l
  body-Suffices primary eval s k v h l =
      primary-Leaves eval (peek s.tokens) s k refl h (omega arith)

run-Suffices : (f : ℕ) → Suffices f (run f)
unfolding run
run-Suffices zero call eval s k v h l = absurd (omega arith)
run-Suffices (suc f) call eval s k v h l =
    body-Suffices f (run f) (run-Suffices f) call eval s k v h l

pub evaluate_tokens_total :
    (tokens : List Token) (vars : Variables)
    → (r : Result ℕ) × (s : State) × (evaluate_tokens tokens vars ≡ some (r, s))
unfolding evaluate_tokens
evaluate_tokens_total tokens vars =
    finished (run (parse_fuel tokens) assignment true (record { tokens = tokens; vars = vars })) (
      run-Suffices (parse_fuel tokens) assignment true (record { tokens = tokens; vars = vars })
        (length tokens) tt (omega arith) (omega arith))
  where
    ended :
        (v : ℕ) (s : State) (t : Token)
        → (r : Result ℕ) × (s' : State) × (expect_end v t s ≡ some (r, s'))
    ended v s end = (ok v, s, refl)
    ended v s t = (err (unexpected t), s, refl)

    finished :
        (m : Option (Result ℕ × State))
        → Leaves (length tokens) m
        → (r : Result ℕ) × (s : State) × (finish (λ _. m) (record { tokens = tokens; vars = vars })
            ≡ some (r, s))
    finished none h = absurd h
    finished (some (err e, s)) h = (err e, s, refl)
    finished (some (ok v, s)) h = ended v s (peek s.tokens)

-- Evaluating ends for every text and all variables, with a value or an error: the fuel of the
-- tokenizer, the length of the text, and of the parser, sixteen calls for each token and sixteen
-- more, is never used up.
pub evaluate_total :
    (expr : Bytes) (vars : Variables)
    → (r : Result ℕ) × (s : State) × (evaluate expr vars ≡ some (r, s))
unfolding evaluate
evaluate_total expr vars = let (tokens, e) = tokenize_total expr in rw e (from_tokens tokens)
  where
    from_tokens :
        (ts : Result (List Token))
        → (r : Result ℕ) × (s : State) × (evaluate_from vars (done ts) ≡ some (r, s))
    from_tokens (err e) = (err e, record { tokens = []; vars = vars }, refl)
    from_tokens (ok tokens) = evaluate_tokens_total tokens vars
