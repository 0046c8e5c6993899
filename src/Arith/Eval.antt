-- ===== src/Arith/Eval.antt =====
-- What a function of the parser of arith.rs does to its state: `Parser`, `peek` and `eat`.
use oh_my_shell.Base.{Bool, true, false, Option, none, some, List, [], ◌∷◌, if◌then◌else◌}
use oh_my_shell.Vars.{Variables}
use oh_my_shell.Arith.Token.{
  open_paren, close_paren, question, colon, Token, op, end, ArithError, Result, ok, err,
}

-- `Parser`: the tokens from `pos` on, and the variables.
pub record State : Type 0 where
  pub tokens : List Token
  pub vars : Variables

-- What is written to the variables before an error stays written. `none`: out of fuel.
abbrev pub Eval : Type 0 → Type 0
Eval A = State → Option (Result A × State)

abbrev pub pure : {A : Type 0} → A → Eval A
pure a s = some (ok a, s)

abbrev pub fail : {A : Type 0} → ArithError → Eval A
fail e s = some (err e, s)

abbrev pub lift : {A : Type 0} → Result A → Eval A
lift r s = some (r, s)

abbrev pub continue :
    {A B : Type 0} → (A → Eval B) → Option (Result A × State) → Option (Result B × State)
continue f none = none
continue f (some (ok a, s)) = f a s
continue f (some (err e, s)) = some (err e, s)

infixl 5 ◌>>=◌ ◌>>◌
abbrev pub ◌>>=◌ : {A B : Type 0} → Eval A → (A → Eval B) → Eval B
◌>>=◌ m f s = continue f (m s)

abbrev pub ◌>>◌ : {A B : Type 0} → Eval A → Eval B → Eval B
m >> k = m >>= λ _. k

-- `peek(0)`: the end, past the last token.
abbrev pub peek : List Token → Token
peek [] = end
peek (t ∷ _) = t

abbrev pub rest : List Token → List Token
rest [] = []
rest (_ ∷ ts) = ts

abbrev pub advance : State → State
advance s = record s { tokens = rest s.tokens }

-- `self.pos += 1`
abbrev pub skip : Eval (Unit {0})
skip s = some (ok tt, advance s)

-- `==` on operators
abbrev pub is_open : Token → Bool
is_open (op open_paren) = true
is_open _ = false

abbrev pub is_close : Token → Bool
is_close (op close_paren) = true
is_close _ = false

abbrev pub is_question : Token → Bool
is_question (op question) = true
is_question _ = false

abbrev pub is_colon : Token → Bool
is_colon (op colon) = true
is_colon _ = false

-- `eat`, for an operator that the test knows.
abbrev pub eat : (Token → Bool) → Eval Bool
eat test s = if test (peek s.tokens) then some (ok true, advance s) else some (ok false, s)
