-- ===== src/Arith/Parser.antt =====
-- The parser of arith.rs, which evaluates as it reads. A call of one of its functions is a value of
-- `Call`, and `run` ties their mutual recursion, with fuel.
pub mod Leaves
pub mod Fuel
pub mod Skipped
use oh_my_shell.Base.{
  ℕ, zero, suc, ◌+◌, ◌*◌, Bytes, Bool, true, false, not, ◌&&◌, ◌||◌, Option, none, some, List, [],
  ◌∷◌, ◌==◌, if◌then◌else◌, length,
}
use oh_my_shell.Base.Run.{Run, done, out_of_fuel}
use oh_my_shell.Vars.{Variables, Outcome, get}
use oh_my_shell.Vars
use oh_my_shell.Arith.Word.{from_bool, wrapping_neg, bit_not}
use oh_my_shell.Arith.Number.{to_string}
use oh_my_shell.Arith.Token.{
  Op, and_and, or_or, plus, minus, bang, tilde, Token, number, name, op, end, unexpected,
  expected_colon, expected_paren, expected_operand, is_read_only, Result, ok, err, tokenize,
}
use oh_my_shell.Arith.Variable.{variable_value}
use oh_my_shell.Arith.Eval.{
  State, Eval, pure, fail, lift, ◌>>=◌, ◌>>◌, peek, skip, is_open, is_close, is_question, is_colon,
  eat,
}
use oh_my_shell.Arith.Operators.{assigns, level_of, levels, at_level, apply}

-- The functions of the parser: `binary` and the loop in it by their level.
pub data Call : Type 0 where
  assignment conditional unary primary : Call
  binary : ℕ → Call
  binary_loop : ℕ → ℕ → Call

abbrev pub Rec : Type 0
Rec = Call → Bool → Eval ℕ

abbrev stored : ℕ → Bytes → Outcome → State → Option (Result ℕ × State)
stored value n (Vars.ok vars) s = some (ok value, record s { vars = vars })
stored value n (Vars.read_only vars) s = some (err (is_read_only n), record s { vars = vars })

-- `self.vars.set(&name, value.to_string().into_bytes())`
unfoldable pub store : Bytes → ℕ → Eval ℕ
unfolding to_string
store n value s = stored value n (Vars.set n (to_string value) s.vars) s

-- `variable_value(self.vars, &name)`
unfoldable pub load : Bytes → Eval ℕ
unfolding variable_value
load n s = some (variable_value (get n s.vars), s)

-- The value that `name op= right` assigns.
abbrev pub combined : Option Op → Bytes → ℕ → Eval ℕ
combined none n right = pure right
combined (some o) n right = do left ← load n; lift (apply o left right)

-- The rest of an assignment, whose name and operator were read.
unfoldable pub assign_to : Rec → Bool → Bytes → Option Op → Eval ℕ
unfolding store load apply
assign_to rec eval n o = do
  right ← rec assignment eval
  if eval then (do value ← combined o n right; store n value) else pure 0

-- The name and the operator of an assignment, if one starts here.
unfoldable pub target : List Token → Option (Bytes × Option Op)
unfolding assigns
target (name n ∷ op o ∷ _) = elim (assigns o) [ none ↦ none | some base ↦ some (n, base) ]
target _ = none

abbrev pub choose_assignment : Rec → Bool → Option (Bytes × Option Op) → Eval ℕ
choose_assignment rec eval (some (n, base)) = do skip; skip; assign_to rec eval n base
choose_assignment rec eval none = rec conditional eval

unfoldable pub parse_assignment : Rec → Bool → Eval ℕ
unfolding target assign_to
parse_assignment rec eval s = choose_assignment rec eval (target s.tokens) s

-- The branches of `condition ? then : otherwise`.
unfoldable pub parse_branches : Rec → Bool → ℕ → Eval ℕ
parse_branches rec eval condition = do
  yes_value ← rec assignment (eval && not (condition == 0))
  found ← eat is_colon
  if found
      then (do
        no_value ← rec assignment (eval && condition == 0)
        pure (if condition == 0 then no_value else yes_value))
      else (λ s. fail (expected_colon (peek s.tokens)) s)

unfoldable pub parse_conditional : Rec → Bool → Eval ℕ
unfolding parse_branches
parse_conditional rec eval = do
  condition ← rec (binary 0) eval
  found ← eat is_question
  if found then parse_branches rec eval condition else pure condition

unfoldable pub parse_binary : Rec → ℕ → Bool → Eval ℕ
parse_binary rec level eval =
    if level == levels
    then rec unary eval
    else (do left ← rec (binary (level + 1)) eval; rec (binary_loop level left) eval)

-- The right operand of an operator that was read, and the value of the two.
unfoldable pub parse_operand : Rec → ℕ → ℕ → Bool → Op → Eval ℕ
unfolding apply
parse_operand rec level left eval and_and = do
  right ← rec (binary (level + 1)) (eval && not (left == 0))
  pure (from_bool (not (left == 0) && not (right == 0)))
parse_operand rec level left eval or_or = do
  right ← rec (binary (level + 1)) (eval && left == 0)
  pure (from_bool (not (left == 0) || not (right == 0)))
parse_operand rec level left eval o = do
  right ← rec (binary (level + 1)) eval
  if eval then lift (apply o left right) else pure 0

-- The operator of this level that comes next.
unfoldable pub next_operator : ℕ → Token → Option Op
unfolding level_of
next_operator level (op o) = if at_level level (level_of o) then some o else none
next_operator level _ = none

abbrev pub loop_round : Rec → ℕ → ℕ → Bool → Option Op → Eval ℕ
loop_round rec level left eval none = pure left
loop_round rec level left eval (some o) = do
  skip
  value ← parse_operand rec level left eval o
  rec (binary_loop level value) eval

unfoldable pub parse_binary_loop : Rec → ℕ → ℕ → Bool → Eval ℕ
unfolding parse_operand next_operator
parse_binary_loop rec level left eval s =
    loop_round rec level left eval (next_operator level (peek s.tokens)) s

-- What the operators `+`, `-`, `~` and `!` make of the operand.
unfoldable pub unary_operator : Token → Option (ℕ → ℕ)
unfolding wrapping_neg bit_not
unary_operator (op plus) = some (λ v. v)
unary_operator (op minus) = some wrapping_neg
unary_operator (op tilde) = some bit_not
unary_operator (op bang) = some (λ v. from_bool (v == 0))
unary_operator _ = none

abbrev pub unary_round : Rec → Bool → Option (ℕ → ℕ) → Eval ℕ
unary_round rec eval none = rec primary eval
unary_round rec eval (some f) = do skip; value ← rec unary eval; pure (f value)

unfoldable pub parse_unary : Rec → Bool → Eval ℕ
unfolding unary_operator
parse_unary rec eval s = unary_round rec eval (unary_operator (peek s.tokens)) s

unfoldable pub parse_parens : Rec → Bool → Eval ℕ
parse_parens rec eval = do
  skip
  value ← rec assignment eval
  found ← eat is_close
  if found then pure value else (λ s. fail (expected_paren (peek s.tokens)) s)

unfoldable pub primary_at : Rec → Bool → Token → Eval ℕ
unfolding parse_parens load
primary_at rec eval (number n) = do skip; pure n
primary_at rec eval (name n) = do skip; if eval then load n else pure 0
primary_at rec eval (op o) =
    if is_open (op o) then parse_parens rec eval else fail (expected_operand (op o))
primary_at rec eval end = fail (expected_operand end)

unfoldable pub parse_primary : Rec → Bool → Eval ℕ
unfolding primary_at
parse_primary rec eval s = primary_at rec eval (peek s.tokens) s

-- The body of each function, its calls made by `rec`.
unfoldable pub body : Rec → Rec
unfolding parse_assignment parse_conditional parse_binary parse_binary_loop parse_unary
    parse_primary
body rec assignment eval = parse_assignment rec eval
body rec conditional eval = parse_conditional rec eval
body rec (binary level) eval = parse_binary rec level eval
body rec (binary_loop level left) eval = parse_binary_loop rec level left eval
body rec unary eval = parse_unary rec eval
body rec primary eval = parse_primary rec eval

-- Each call spends a unit of fuel.
unfoldable pub run : ℕ → Rec
run zero call eval s = none
run (suc f) call eval s = body (run f) call eval s

-- What `evaluate` makes of the token that the parse ends at.
abbrev pub expect_end : ℕ → Token → Eval ℕ
expect_end value end = pure value
expect_end value t = fail (unexpected t)

abbrev pub finish : Eval ℕ → Eval ℕ
finish m = do value ← m; (λ s. expect_end value (peek s.tokens) s)

-- A token costs at most sixteen calls.
abbrev pub parse_fuel : List Token → ℕ
parse_fuel tokens = 16 * length tokens + 16

unfoldable pub evaluate_tokens : List Token → Variables → Option (Result ℕ × State)
unfolding run body
evaluate_tokens tokens vars =
    finish (run (parse_fuel tokens) assignment true) (record { tokens = tokens; vars = vars })

-- `evaluate`: the value or the error, and the variables.
abbrev pub evaluate_from : Variables → Run (Result (List Token)) → Option (Result ℕ × State)
evaluate_from vars out_of_fuel = none
evaluate_from vars (done (err e)) = some (err e, record { tokens = []; vars = vars })
evaluate_from vars (done (ok tokens)) = evaluate_tokens tokens vars

unfoldable pub evaluate : Bytes → Variables → Option (Result ℕ × State)
unfolding tokenize evaluate_tokens
evaluate expr vars = evaluate_from vars (tokenize expr)
