-- ===== src/Test/Grammar.antt =====
-- `Evaluator`: the grammar of an expression. An offset into the arguments is the list from there on.
use oh_my_shell.Base.{
  ℕ, zero, suc, ◌+◌, ◌*◌, Bytes, Bool, true, false, not, ◌&&◌, ◌||◌, Option, none, some, List, [],
  ◌∷◌, if◌then◌else◌, length, is_empty, codes, bytes_eq,
}
use oh_my_shell.Test.{
  Os, argument_expected, closing_paren_expected, unexpected_operator, Result, ok, err, binary,
  unary, compare, unary_test,
}

-- What a parsing function returns, with the arguments it leaves. `none`: out of fuel.
abbrev pub Eval : Type 0
Eval = Option (Result (Bool × List Bytes))

abbrev pub continue : (Bool → List Bytes → Eval) → Eval → Eval
continue f none = none
continue f (some (err e)) = some (err e)
continue f (some (ok (value, args))) = f value args

-- The functions, and the loops of two of them, which carry the value so far.
pub data Call : Type 0 where
  or_expr and_expr not_expr primary : Call
  or_loop and_loop : Bool → Call

abbrev pub Rec : Type 0
Rec = Call → List Bytes → Eval

-- `args.get(pos).is_some_and(|a| a == word)`
abbrev pub at_word : Bytes → List Bytes → Bool
at_word word [] = false
at_word word (a ∷ args) = bytes_eq a word

abbrev pub tail : List Bytes → List Bytes
tail [] = []
tail (a ∷ args) = args

-- `pos + 2 < args.len() && binary(&args[pos + 1])`
abbrev pub binary_follows : List Bytes → Bool
binary_follows [] = false
binary_follows (a ∷ []) = false
binary_follows (a ∷ b ∷ []) = false
binary_follows (a ∷ b ∷ c ∷ args) = binary b

-- `pos + 1 < args.len()`
abbrev pub more_follows : List Bytes → Bool
more_follows [] = false
more_follows (a ∷ []) = false
more_follows (a ∷ b ∷ args) = true

unfoldable pub parse_or_loop : Rec → Bool → List Bytes → Eval
unfolding bytes_eq
parse_or_loop rec value args =
    if at_word (codes "-o") args
    then continue (λ right args'. rec (or_loop (value || right)) args') (rec and_expr (tail args))
    else some (ok (value, args))

unfoldable pub parse_and_loop : Rec → Bool → List Bytes → Eval
unfolding bytes_eq
parse_and_loop rec value args =
    if at_word (codes "-a") args
    then continue (λ right args'. rec (and_loop (value && right)) args') (rec not_expr (tail args))
    else some (ok (value, args))

unfoldable pub parse_not : Rec → List Bytes → Eval
unfolding bytes_eq binary
parse_not rec args =
    if at_word (codes "!") args && (more_follows args && not (binary_follows args))
    then continue (λ value args'. some (ok (not value, args'))) (rec or_expr (tail args))
    else rec primary args

-- After the expression in parentheses.
unfoldable pub close_paren : Bool → List Bytes → Eval
unfolding bytes_eq
close_paren value args =
    if at_word (codes ")") args
    then some (ok (value, tail args))
    else some (err closing_paren_expected)

abbrev pub with_rest : List Bytes → Result Bool → Eval
with_rest args (ok value) = some (ok (value, args))
with_rest args (err e) = some (err e)

-- A test that has no parentheses.
unfoldable pub parse_plain : Os → List Bytes → Eval
unfolding binary unary compare unary_test
parse_plain os [] = some (err argument_expected)
parse_plain os (a ∷ []) = some (ok (not (is_empty a), []))
parse_plain os (a ∷ b ∷ []) =
    if unary a then with_rest [] (unary_test os a b) else some (ok (not (is_empty a), b ∷ []))
parse_plain os (a ∷ b ∷ c ∷ args) =
    if binary b
    then with_rest args (compare os a b c)
    else if unary a
    then with_rest (c ∷ args) (unary_test os a b)
    else some (ok (not (is_empty a), b ∷ c ∷ args))

unfoldable pub parse_primary : Os → Rec → List Bytes → Eval
unfolding bytes_eq binary close_paren parse_plain
parse_primary os rec args =
    if at_word (codes "(") args && (more_follows args && not (binary_follows args))
    then continue close_paren (rec or_expr (tail args))
    else parse_plain os args

unfoldable pub body : Os → Rec → Rec
unfolding parse_or_loop parse_and_loop parse_not parse_primary
body os rec or_expr args = continue (λ value args'. rec (or_loop value) args') (rec and_expr args)
body os rec (or_loop value) args = parse_or_loop rec value args
body os rec and_expr args = continue (λ value args'. rec (and_loop value) args') (rec not_expr args)
body os rec (and_loop value) args = parse_and_loop rec value args
body os rec not_expr args = parse_not rec args
body os rec primary args = parse_primary os rec args

unfoldable pub eval_fuel : Os → ℕ → Rec
unfolding body
eval_fuel os zero call args = none
eval_fuel os (suc f) call args = body os (eval_fuel os f) call args

abbrev pub whole : Eval → Option (Result Bool)
whole none = none
whole (some (err e)) = some (err e)
whole (some (ok (value, []))) = some (ok value)
whole (some (ok (value, a ∷ args))) = some (err (unexpected_operator a))

-- `run`: eight calls for each argument, and eight more.
unfoldable pub evaluate_test : Os → List Bytes → Option (Result Bool)
unfolding eval_fuel
evaluate_test os [] = some (ok false)
evaluate_test os (a ∷ args) = whole (eval_fuel os (8 * length (a ∷ args) + 8) or_expr (a ∷ args))

-- `if bracket { args.split_last() ... }`: the arguments before a last `]`.
unfoldable pub without_bracket : List Bytes → Option (List Bytes)
unfolding bytes_eq
without_bracket [] = none
without_bracket (a ∷ []) = if bytes_eq a (codes "]") then some [] else none
without_bracket (a ∷ b ∷ args) = elim (without_bracket (b ∷ args)) [
  | none ↦ none
  | some rest ↦ some (a ∷ rest)
]

abbrev pub status_of : Result Bool → ℕ
status_of (ok true) = 0
status_of (ok false) = 1
status_of (err _) = 2

abbrev pub with_status : Option (Result Bool) → Option ℕ
with_status none = none
with_status (some r) = some (status_of r)

-- `test`: the exit status.
unfoldable pub test : Os → List Bytes → Bool → Option ℕ
unfolding evaluate_test without_bracket
test os args false = with_status (evaluate_test os args)
test os args true = elim (without_bracket args) [
  | none ↦ some 2
  | some rest ↦ with_status (evaluate_test os rest)
]
