-- ===== src/Arith/Parser/Leaves.antt =====
-- How much of the tokens each function of the parser leaves, for the functions that assign and choose.
use oh_my_shell.Base.{
  ℕ, suc, ◌+◌, ◌-◌, ◌*◌, ◌≤◌, ◌<◌, Bytes, Bool, true, false, not, ◌&&◌, Option, none, some, List,
  [], ◌∷◌, ◌≡◌, refl, ◌==◌, if◌then◌else◌, length, Bool-cases, Option-cases, inl, inr, arith,
}
use oh_my_shell.Arith.Token.{Op, Token, name, op, end, Result, ok, err}
use oh_my_shell.Arith.Eval.{
  State, Eval, pure, continue, ◌>>=◌, peek, rest, advance, is_question, is_colon, eat,
}
use oh_my_shell.Arith.Operators.{levels}
use oh_my_shell.Arith.Parser.{
  Call, assignment, conditional, unary, primary, binary, binary_loop, Rec, store, load, combined,
  assign_to, target, parse_assignment, parse_branches, parse_conditional, next_operator,
  unary_operator,
}

-- The run ended, and left at most `k` tokens.
abbrev pub Leaves : {A : Type 0} → ℕ → Option (A × State) → Type 0
Leaves k none = ⊥
Leaves k (some (_, s)) = length s.tokens ≤ k

-- A run that is carried on with what it leaves, `j` tokens at most.
pub Leaves-bind :
    {A B : Type 0} (j k : ℕ) (m : Option (Result A × State)) (f : A → Eval B)
    → j ≤ k
    → Leaves j m
    → ((a : A) (s : State) → length s.tokens ≤ j → Leaves k (f a s))
    → Leaves k (continue f m)
Leaves-bind j k none f le h g = h
Leaves-bind j k (some (ok a, s)) f le h g = g a s h
Leaves-bind j k (some (err e, s)) f le h g = omega arith

-- How many calls a function makes before it reads a token.
abbrev pub rank : Call → ℕ
rank assignment = 14
rank conditional = 13
rank (binary level) = 12 - level
rank (binary_loop level left) = 0
rank unary = 1
rank primary = 0

abbrev pub InLevels : Call → Type 0
InLevels (binary level) = level ≤ levels
InLevels (binary_loop level left) = level < levels
InLevels _ = Unit

abbrev pub Suffices : ℕ → Rec → Type 0
Suffices f rec =
    (call : Call) (eval : Bool) (s : State) (k : ℕ)
    → InLevels call
    → length s.tokens ≤ k
    → 16 * length s.tokens + rank call < f
    → Leaves k (rec call eval s)

pub length-rest : (ts : List Token) → length (rest ts) ≡ length ts - 1
length-rest [] = refl
length-rest (t ∷ ts) = omega arith

pub target-length :
    (ts : List Token) (found : Bytes × Option Op) → target ts ≡ some found → 2 ≤ length ts
unfolding target
target-length (name n ∷ op o ∷ ts) found e = omega arith
target-length ts found e = cc

pub next_operator-length :
    (level : ℕ) (ts : List Token) (o : Op) → next_operator level (peek ts) ≡ some o → 1 ≤ length ts
unfolding next_operator
next_operator-length level [] o e = cc
next_operator-length level (t ∷ ts) o e = omega arith

pub unary_operator-length :
    (ts : List Token) (g : ℕ → ℕ) → unary_operator (peek ts) ≡ some g → 1 ≤ length ts
unfolding unary_operator
unary_operator-length [] g e = cc
unary_operator-length (t ∷ ts) g e = omega arith

module _ (f : ℕ) (rec : Rec) (ih : Suffices f rec) where
  pub load-Leaves : (n : Bytes) (s : State) (k : ℕ) → length s.tokens ≤ k → Leaves k (load n s)
  unfolding load
  load-Leaves n s k h = h

  store-Leaves :
      (n : Bytes) (value : ℕ) (s : State) (k : ℕ) → length s.tokens ≤ k → Leaves k (store n value s)
  unfolding store
  store-Leaves n value s k h = ground arith

  assign_to-Leaves :
      (eval : Bool) (n : Bytes) (o : Option Op) (s : State) (k : ℕ)
      → length s.tokens ≤ k
      → 16 * length s.tokens + 14 < f
      → Leaves k (assign_to rec eval n o s)
  unfolding assign_to
  assign_to-Leaves eval n o s k h l =
      Leaves-bind k k (rec assignment eval s) _ (omega arith) (ih assignment eval s k tt h l)
        (write eval o)
    where
      put :
          (o : Option Op) (right : ℕ) (s : State)
          → length s.tokens ≤ k
          → Leaves k ((combined o n right >>= store n) s)
      put none right s h = store-Leaves n right s k h
      put (some o) right s h =
          Leaves-bind k k (combined (some o) n right s) (store n) (omega arith)
            (Leaves-bind k k (load n s) _ (omega arith) (load-Leaves n s k h) (λ a s' h'. h'))
            (λ a s' h'. store-Leaves n a s' k h')

      write :
          (eval : Bool) (o : Option Op) (right : ℕ) (s : State)
          → length s.tokens ≤ k
          → Leaves k ((if eval then (combined o n right >>= store n) else pure 0) s)
      write false o right s h = h
      write true o right s h = put o right s h

  pub assignment-Leaves :
      (eval : Bool) (s : State) (k : ℕ)
      → length s.tokens ≤ k
      → 16 * length s.tokens + 14 < suc f
      → Leaves k (parse_assignment rec eval s)
  unfolding parse_assignment
  assignment-Leaves eval s k h l = elim (Option-cases (target s.tokens)) [
    | inl e ↦ rw e (ih conditional eval s k tt h (omega arith))
    | inr ((n, o), e) ↦ rw e (
        assign_to-Leaves eval n o (advance (advance s)) k
          (omega (arith, length-rest s.tokens, length-rest (rest s.tokens)))
          (omega (
            arith,
            length-rest s.tokens,
            length-rest (rest s.tokens),
            target-length s.tokens (n, o) e,
          )))
  ]

  -- `eat`, and what follows it: on the token's side there is one token less.
  pub eat-Leaves :
      (test : Token → Bool) (s : State) (k : ℕ) (found missing : Eval ℕ)
      → test end ≡ false
      → (1 ≤ length s.tokens → Leaves k (found (advance s)))
      → Leaves k (missing s)
      → Leaves k ((eat test >>= λ b. if b then found else missing) s)
  eat-Leaves test s k found missing not_end yes_case no_case =
      elim (Bool-cases (test (peek s.tokens))) [
        | inl e ↦ rw e (yes_case (some_token s.tokens e))
        | inr e ↦ rw e no_case
      ]
    where
      some_token : (ts : List Token) → test (peek ts) ≡ true → 1 ≤ length ts
      some_token [] e = cc
      some_token (t ∷ ts) e = omega arith

  -- A call on the tokens that are left now, and what is done with its value.
  pub then-Leaves :
      (call : Call) (eval : Bool) (s : State) (k : ℕ) (next : ℕ → Eval ℕ)
      → InLevels call
      → length s.tokens ≤ k
      → 16 * length s.tokens + rank call < f
      → ((value : ℕ) (s' : State) → length s'.tokens ≤ length s.tokens → Leaves k (next value s'))
      → Leaves k ((rec call eval >>= next) s)
  then-Leaves call eval s k next v h l g =
      Leaves-bind (length s.tokens) k (rec call eval s) next h
        (ih call eval s (length s.tokens) v (omega arith) l) g

  branches-Leaves :
      (eval : Bool) (condition : ℕ) (s : State) (k : ℕ)
      → length s.tokens ≤ k
      → 16 * length s.tokens + 14 < f
      → Leaves k (parse_branches rec eval condition s)
  unfolding parse_branches
  branches-Leaves eval condition s k h l =
      then-Leaves assignment (eval && not (condition == 0)) s k _ tt h l λ value s' h'.
        eat-Leaves is_colon s' k _ _ refl
          (λ some_left.
            then-Leaves assignment (eval && condition == 0) (advance s') k _ tt
              (omega (arith, length-rest s'.tokens)) (omega (arith, length-rest s'.tokens))
              (λ value' s'' h''. omega (arith, length-rest s'.tokens)))
          (omega arith)

  pub conditional-Leaves :
      (eval : Bool) (s : State) (k : ℕ)
      → length s.tokens ≤ k
      → 16 * length s.tokens + 13 < suc f
      → Leaves k (parse_conditional rec eval s)
  unfolding parse_conditional
  conditional-Leaves eval s k h l =
      then-Leaves (binary 0) eval s k _ (omega arith) h (omega arith) λ value s' h'.
        eat-Leaves is_question s' k _ _ refl
          (λ some_left.
            branches-Leaves eval value (advance s') k (omega (arith, length-rest s'.tokens))
              (omega (arith, length-rest s'.tokens)))
          (omega arith)
