-- ===== src/Arith/Parser/Skipped.antt =====
-- The parts of an expression that are not taken, such as the right side of `0 && ...`.
use oh_my_shell.Base.{
  ℕ, zero, suc, Bool, true, false, Option, none, some, ◌≡◌, refl, arith, ◌==◌, if◌then◌else◌,
  Bool-cases, Option-cases, inl, inr,
}
use oh_my_shell.Vars.{Variables}
use oh_my_shell.Arith.Token.{
  Op, and_and, or_or, Token, number, name, op, end, ArithError, expected_colon, expected_paren,
  expected_operand, Result, ok, err,
}
use oh_my_shell.Arith.Eval.{
  State, Eval, continue, pure, ◌>>=◌, peek, advance, is_open, is_close, is_question, is_colon, eat,
  fail,
}
use oh_my_shell.Arith.Operators.{levels}
use oh_my_shell.Arith.Parser.{
  Call, assignment, conditional, unary, primary, binary, binary_loop, Rec, assign_to, target,
  parse_assignment, parse_branches, parse_conditional, parse_binary, parse_operand, next_operator,
  parse_binary_loop, unary_operator, parse_unary, parse_parens, primary_at, parse_primary, body,
  run,
}

-- An error that says what the text is, and not what a value is.
abbrev pub IsSyntax : ArithError → Type 0
IsSyntax (expected_colon t) = Unit
IsSyntax (expected_paren t) = Unit
IsSyntax (expected_operand t) = Unit
IsSyntax _ = ⊥

-- The run left the variables as they were, and no error but one of syntax ended it.
abbrev pub NoEffect : {A : Type 0} → Variables → Option (Result A × State) → Type 0
NoEffect vars none = Unit
NoEffect vars (some (ok a, s)) = s.vars ≡ vars
NoEffect vars (some (err e, s)) = IsSyntax e × (s.vars ≡ vars)

NoEffect-bind :
    {A B : Type 0} (vars : Variables) (m : Option (Result A × State)) (f : A → Eval B)
    → NoEffect vars m
    → ((a : A) (s : State) → s.vars ≡ vars → NoEffect vars (f a s))
    → NoEffect vars (continue f m)
NoEffect-bind vars none f h g = tt
NoEffect-bind vars (some (ok a, s)) f h g = g a s h
NoEffect-bind vars (some (err e, s)) f h g = h

module _ (rec : Rec) (vars : Variables)
    (ih : (call : Call) (s : State) → s.vars ≡ vars → NoEffect vars (rec call false s)) where
  skipped :
      (call : Call) (s : State) (next : ℕ → Eval ℕ)
      → s.vars ≡ vars
      → ((value : ℕ) (s' : State) → s'.vars ≡ vars → NoEffect vars (next value s'))
      → NoEffect vars ((rec call false >>= next) s)
  skipped call s next h g = NoEffect-bind vars (rec call false s) next (ih call s h) g

  eat-NoEffect :
      (test : Token → Bool) (s : State) (found missing : Eval ℕ)
      → NoEffect vars (found (advance s))
      → NoEffect vars (missing s)
      → NoEffect vars ((eat test >>= λ b. if b then found else missing) s)
  eat-NoEffect test s found missing yes_case no_case = elim (Bool-cases (test (peek s.tokens))) [
    | inl e ↦ rw e yes_case
    | inr e ↦ rw e no_case
  ]

  assignment-NoEffect : (s : State) → s.vars ≡ vars → NoEffect vars (parse_assignment rec false s)
  unfolding parse_assignment assign_to
  assignment-NoEffect s h = elim (Option-cases (target s.tokens)) [
    | inl e ↦ rw e (ih conditional s h)
    | inr ((n, o), e) ↦ rw e (skipped assignment (advance (advance s)) _ h (λ right s' h'. h'))
  ]

  conditional-NoEffect : (s : State) → s.vars ≡ vars → NoEffect vars (parse_conditional rec false s)
  unfolding parse_conditional parse_branches
  conditional-NoEffect s h = skipped (binary 0) s _ h λ value s' h'.
      eat-NoEffect is_question s' _ _
        (skipped assignment (advance s') _ h' λ yes_value s'' h''.
          eat-NoEffect is_colon s'' _ _
            (skipped assignment (advance s'') _ h'' (λ no_value t ht. ht)) (tt, h''))
        h'

  binary-NoEffect :
      (level : ℕ) (s : State) → s.vars ≡ vars → NoEffect vars (parse_binary rec level false s)
  unfolding parse_binary
  binary-NoEffect level s h = elim (Bool-cases (level == levels)) [
    | inl e ↦ rw e (ih unary s h)
    | inr e ↦ rw e (skipped (binary _) s _ h (λ left s' h'. ih (binary_loop level left) s' h'))
  ]

  operand-NoEffect :
      (level left : ℕ) (o : Op) (s : State)
      → s.vars ≡ vars
      → NoEffect vars (parse_operand rec level left false o s)
  unfolding parse_operand
  operand-NoEffect level left and_and s h = skipped (binary _) s _ h (λ a s' h'. h')
  operand-NoEffect level left or_or s h = skipped (binary _) s _ h (λ a s' h'. h')
  operand-NoEffect level left o s h = skipped (binary _) s _ h (λ a s' h'. h')

  loop-NoEffect :
      (level left : ℕ) (s : State)
      → s.vars ≡ vars
      → NoEffect vars (parse_binary_loop rec level left false s)
  unfolding parse_binary_loop
  loop-NoEffect level left s h = elim (Option-cases (next_operator level (peek s.tokens))) [
    | inl e ↦ rw e h
    | inr (o, e) ↦ rw e (
        NoEffect-bind vars (parse_operand rec level left false o (advance s)) _
          (operand-NoEffect level left o (advance s) h)
          (λ value s' h'. ih (binary_loop level value) s' h'))
  ]

  unary-NoEffect : (s : State) → s.vars ≡ vars → NoEffect vars (parse_unary rec false s)
  unfolding parse_unary
  unary-NoEffect s h = elim (Option-cases (unary_operator (peek s.tokens))) [
    | inl e ↦ rw e (ih primary s h)
    | inr (g, e) ↦ rw e (skipped unary (advance s) _ h (λ value s' h'. h'))
  ]

  primary-NoEffect :
      (t : Token) (s : State) → s.vars ≡ vars → NoEffect vars (primary_at rec false t s)
  unfolding primary_at parse_parens
  primary-NoEffect (number n) s h = h
  primary-NoEffect (name n) s h = h
  primary-NoEffect (op o) s h = elim (Bool-cases (is_open (op o))) [
    | inl par ↦ rw par (
        skipped assignment (advance s) _ h
          (λ value s' h'. eat-NoEffect is_close s' _ _ h' (tt, h')))
    | inr no_par ↦ rw no_par (tt, h)
  ]
  primary-NoEffect end s h = (tt, h)

  body-NoEffect : (call : Call) (s : State) → s.vars ≡ vars → NoEffect vars (body rec call false s)
  unfolding body parse_primary
  body-NoEffect assignment s h = assignment-NoEffect s h
  body-NoEffect conditional s h = conditional-NoEffect s h
  body-NoEffect (binary level) s h = binary-NoEffect level s h
  body-NoEffect (binary_loop level left) s h = loop-NoEffect level left s h
  body-NoEffect unary s h = unary-NoEffect s h
  body-NoEffect primary s h = primary-NoEffect (peek s.tokens) s h

run-NoEffect :
    (vars : Variables) (f : ℕ) (call : Call) (s : State)
    → s.vars ≡ vars
    → NoEffect vars (run f call false s)
unfolding run
run-NoEffect vars zero call s h = tt
run-NoEffect vars (suc f) call s h = body-NoEffect (run f) vars (run-NoEffect vars f) call s h

-- For what the first branch of a `?` gives: where the condition is `suc c`, the rest has no effect.
abbrev pub SecondSkipped : ℕ → Bool → ℕ → State → Option (Result ℕ × State) → Type 0
SecondSkipped f eval c s none = Unit
SecondSkipped f eval c s (some (err e, t)) = Unit
SecondSkipped f eval c s (some (ok value, t)) =
    NoEffect t.vars (parse_branches (run f) eval (suc c) s)

-- For what the first branch of a `?` gives if it is skipped: where the condition is 0, the branches
-- are what the second one is from there.
abbrev pub FirstSkipped : ℕ → Bool → State → Option (Result ℕ × State) → Type 0
FirstSkipped f eval s none = Unit
FirstSkipped f eval s (some (err e, t)) = Unit
FirstSkipped f eval s (some (ok value, t)) =
    (t.vars ≡ s.vars)
    × (parse_branches (run f) eval 0 s ≡ (
        if is_colon (peek t.tokens)
        then run f assignment eval (advance t)
        else fail (expected_colon (peek t.tokens)) t))

suc_zero : (c : ℕ) → (suc c == 0) ≡ false
suc_zero c = ground arith

second_skipped :
    (f : ℕ) (eval : Bool) (c : ℕ) (s : State) (r : Option (Result ℕ × State))
    → run f assignment eval s ≡ r
    → SecondSkipped f eval c s r
unfolding parse_branches
second_skipped f eval c s none e = tt
second_skipped f eval c s (some (err u, t)) e = tt
second_skipped f true c s (some (ok value, t)) e =
    rw (suc_zero c, e)
      (eat-NoEffect (run f) t.vars (run-NoEffect t.vars f) is_colon t _ _
        (skipped (run f) t.vars (run-NoEffect t.vars f) assignment (advance t) _ refl
          (λ no_value t' h. h))
        (tt, refl))
second_skipped f false c s (some (ok value, t)) e =
    rw (suc_zero c, e)
      (eat-NoEffect (run f) t.vars (run-NoEffect t.vars f) is_colon t _ _
        (skipped (run f) t.vars (run-NoEffect t.vars f) assignment (advance t) _ refl
          (λ no_value t' h. h))
        (tt, refl))

continue-pure : (m : Option (Result ℕ × State)) → continue (λ v. pure v) m ≡ m
continue-pure none = refl
continue-pure (some (ok v, s)) = refl
continue-pure (some (err e, s)) = refl

first_skipped :
    (f : ℕ) (eval : Bool) (s : State) (r : Option (Result ℕ × State))
    → NoEffect s.vars r
    → run f assignment false s ≡ r
    → FirstSkipped f eval s r
unfolding parse_branches
first_skipped f eval s none h e = tt
first_skipped f eval s (some (err u, t)) h e = tt
first_skipped f true s (some (ok value, t)) h e = (
  h,
  rw e (elim (Bool-cases (is_colon (peek t.tokens))) [
    | inl p ↦ rw p (continue-pure (run f assignment true (advance t)))
    | inr p ↦ rw p refl
  ]),
)
first_skipped f false s (some (ok value, t)) h e = (
  h,
  rw e (elim (Bool-cases (is_colon (peek t.tokens))) [
    | inl p ↦ rw p (continue-pure (run f assignment false (advance t)))
    | inr p ↦ rw p refl
  ]),
)

-- What is not taken has no effect: any of the parser's functions with `eval` false, and with any `eval`
-- the right side of `0 &&` and of `1 ||` (any number but 0), the branch after the `:` of a condition
-- that is not 0, and the branch before it of one that is 0, where the rest is then the branch after
-- the `:`. Without effect is: it assigns nothing, and fails only if the text is no expression, never for a
-- division by zero, a variable that holds no number or one that is read only.
pub run_skipped :
    (f : ℕ) (call : Call) (level c : ℕ) (eval : Bool) (s : State)
    → NoEffect s.vars (run f call false s)
      × NoEffect s.vars (parse_operand (run f) level 0 eval and_and s)
      × NoEffect s.vars (parse_operand (run f) level (suc c) eval or_or s)
      × SecondSkipped f eval c s (run f assignment eval s)
      × FirstSkipped f eval s (run f assignment false s)
unfolding parse_operand
run_skipped f call level c eval s = (
  skip call s refl,
  and_skipped eval,
  or_skipped eval,
  second_skipped f eval c s (run f assignment eval s) refl,
  first_skipped f eval s (run f assignment false s) (skip assignment s refl) refl,
)
  where
    skip : (call : Call) (t : State) → t.vars ≡ s.vars → NoEffect s.vars (run f call false t)
    skip = run-NoEffect s.vars f

    and_skipped : (eval : Bool) → NoEffect s.vars (parse_operand (run f) level 0 eval and_and s)
    and_skipped true = skipped (run f) s.vars skip (binary _) s _ refl (λ a t h. h)
    and_skipped false = skipped (run f) s.vars skip (binary _) s _ refl (λ a t h. h)

    or_skipped : (eval : Bool) → NoEffect s.vars (parse_operand (run f) level (suc c) eval or_or s)
    or_skipped true = rw (suc_zero c) (skipped (run f) s.vars skip (binary _) s _ refl (λ a t h. h))
    or_skipped false = skipped (run f) s.vars skip (binary _) s _ refl (λ a t h. h)
