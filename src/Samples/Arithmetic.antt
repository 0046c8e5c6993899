-- ===== src/Samples/Arithmetic.antt =====
-- crates/omsh-exec/src/expand/arith.rs: tests and instances.
use oh_my_shell.Base.{
  ℕ, suc, ◌-◌, Bytes, true, false, Option, none, some, [], ◌∷◌, ◌≡◌, refl, codes, arith,
}
use oh_my_shell.Vars.{Variables, set}
use oh_my_shell.Chars.{unit_at}
use oh_my_shell.Arith.Word.{word_mod, i64_min}
use oh_my_shell.Arith.Number.{parse_number, to_string}
use oh_my_shell.Arith.Number.Saturation.{capped}
use oh_my_shell.Arith.Number.Numerals.{denoted, parse_number-denoted}
use oh_my_shell.Arith.Token
use oh_my_shell.Arith.Token.{
  Token, number, name, op, end, open_paren, close_paren, colon, and_and, or_or, Result, ok, err,
  division_by_zero,
}
use oh_my_shell.Arith.Variable.{variable_value}
use oh_my_shell.Arith.Variable.RoundTrip.{read_back, variable_value-to_string}
use oh_my_shell.Arith.Eval.{State}
use oh_my_shell.Arith.Parser.{assignment, run, parse_operand, evaluate}
use oh_my_shell.Arith.Parser.Fuel.{evaluate_total}
use oh_my_shell.Arith.Parser.Skipped.{NoEffect, SecondSkipped, FirstSkipped, run_skipped}

abbrev answer : Option (Result ℕ × State) → Option (Result ℕ)
answer none = none
answer (some (r, s)) = some r

abbrev value : Bytes → Option (Result ℕ)
value expr = answer (evaluate expr [])

priorities : value (codes "1 + 2 * 3") ≡ some (ok 7)
unfolding evaluate
priorities = refl

left_to_right : value (codes "10 - 2 - 3") ≡ some (ok 5)
unfolding evaluate
left_to_right = refl

bits : value (codes "6 & 3 | 8") ≡ some (ok 10)
unfolding evaluate
bits = refl

two_minus_signs : value (codes "3--1") ≡ some (ok 4)
unfolding evaluate
two_minus_signs = refl

conditional_nested : value (codes "1 ? 0 ? 5 : 6 : 7") ≡ some (ok 6)
unfolding evaluate
conditional_nested = refl

branch_not_taken : value (codes "0 && 1 / 0") ≡ some (ok 0)
unfolding evaluate
branch_not_taken = refl

divided_by_zero : value (codes "1 / 0") ≡ some (err division_by_zero)
unfolding evaluate
divided_by_zero = refl

overflow_wraps : value (codes "9223372036854775807 + 1") ≡ some (ok i64_min)
unfolding evaluate
overflow_wraps = refl

smallest_by_minus_one : value (codes "(-9223372036854775807 - 1) / -1") ≡ some (ok i64_min)
unfolding evaluate
smallest_by_minus_one = refl

shift_modulo_64 : value (codes "1 << 65") ≡ some (ok 2)
unfolding evaluate
shift_modulo_64 = refl

assigned : value (codes "x = y = 9") ≡ some (ok 9)
unfolding evaluate set
assigned = refl

-- `x = -9223372036854775807 - 1, x`, in two expressions: the value that is read is another.
smallest_comes_back : variable_value (some (to_string i64_min)) ≡ ok (suc i64_min)
unfolding variable_value to_string unit_at
smallest_comes_back = refl

evaluate_total_example :
    (r : Result ℕ) × (s : State) × (evaluate (codes "x += (1 ? 2") [] ≡ some (r, s))
evaluate_total_example = evaluate_total (codes "x += (1 ? 2") []

-- `(x = 5) : (y = 6)`
abbrev two_assignments : State
two_assignments = record {
  tokens =
      op open_paren
      ∷ name (codes "x")
      ∷ op Token.assign
      ∷ number 5
      ∷ op close_paren
      ∷ op colon
      ∷ op open_paren
      ∷ name (codes "y")
      ∷ op Token.assign
      ∷ number 6
      ∷ op close_paren
      ∷ end
      ∷ [];
  vars = [];
}

run_skipped_example :
    NoEffect [] (run 40 assignment false two_assignments)
    × NoEffect [] (parse_operand (run 40) 1 0 true and_and two_assignments)
    × NoEffect [] (parse_operand (run 40) 1 1 true or_or two_assignments)
    × SecondSkipped 40 true 0 two_assignments (run 40 assignment true two_assignments)
    × FirstSkipped 40 true two_assignments (run 40 assignment false two_assignments)
run_skipped_example = run_skipped 40 assignment 1 0 true two_assignments

-- What an expression leaves of the variables.
abbrev left_by : Option (Result ℕ × State) → Variables
left_by none = []
left_by (some (r, s)) = s.vars

and_assigns_not : left_by (evaluate (codes "0 && (x = 5)") []) ≡ []
unfolding evaluate
and_assigns_not = refl

one_branch_assigns : left_by (evaluate (codes "0 ? (x = 5) : (y = 6)") []) ≡ (
    record { name = codes "y"; value = some (codes "6"); exported = false; readonly = false } ∷ [])
unfolding evaluate set
one_branch_assigns = refl

variable_value-to_string_example :
    variable_value (some (to_string (word_mod - 5))) ≡ ok (read_back (word_mod - 5))
variable_value-to_string_example = variable_value-to_string (word_mod - 5) (omega arith)

parse_number-denoted_example : parse_number (codes "0X1f") ≡ capped (denoted (codes "0X1f"))
parse_number-denoted_example = parse_number-denoted (codes "0X1f")

denoted_hexadecimal : denoted (codes "0X1f") ≡ some 31
unfolding denoted
denoted_hexadecimal = refl
