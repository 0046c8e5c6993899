-- ===== src/Arith/Token.antt =====
-- `Token`, `OPERATORS` and `tokenize`.
pub mod Total
use oh_my_shell.Base.{
  ℕ, zero, suc, ◌+◌, Bytes, Bool, true, false, ◌&&◌, ◌||◌, Option, none, some, List, [], ◌∷◌, ◌++◌,
  within, ◌==◌, if◌then◌else◌, length, drop, codes,
}
use oh_my_shell.Base.Run.{Run, done, out_of_fuel, ◌>>=◌}
use oh_my_shell.Arith.Number.{parse_number}

-- The operators, in the order of `OPERATORS`.
pub data Op : Type 0 where
  shl_assign shr_assign and_and or_or eq_eq not_eq less_eq greater_eq shl shr : Op
  add_assign sub_assign mul_assign div_assign rem_assign and_assign xor_assign or_assign : Op
  plus minus star slash percent less greater amp caret bar bang tilde question colon : Op
  open_paren close_paren assign : Op

pub data Token : Type 0 where
  number : ℕ → Token
  name : Bytes → Token
  op : Op → Token
  end : Token

-- Why an expression could not be evaluated. The text of the message is not modelled, only what it
-- names.
pub data ArithError : Type 0 where
  illegal_number : ArithError
  unexpected_character : ℕ → ArithError
  unexpected expected_colon expected_paren expected_operand : Token → ArithError
  division_by_zero unknown_operator : ArithError
  is_read_only : Bytes → ArithError

pub data Result {ℓ} (A : Type ℓ) : Type ℓ where
  ok : A → Result A
  err : ArithError → Result A

-- `OPERATORS`, longest first.
unfoldable pub operators : List (Bytes × Op)
operators =
    (codes "<<=", shl_assign)
    ∷ (codes ">>=", shr_assign)
    ∷ (codes "&&", and_and)
    ∷ (codes "||", or_or)
    ∷ (codes "==", eq_eq)
    ∷ (codes "!=", not_eq)
    ∷ (codes "<=", less_eq)
    ∷ (codes ">=", greater_eq)
    ∷ (codes "<<", shl)
    ∷ (codes ">>", shr)
    ∷ (codes "+=", add_assign)
    ∷ (codes "-=", sub_assign)
    ∷ (codes "*=", mul_assign)
    ∷ (codes "/=", div_assign)
    ∷ (codes "%=", rem_assign)
    ∷ (codes "&=", and_assign)
    ∷ (codes "^=", xor_assign)
    ∷ (codes "|=", or_assign)
    ∷ (codes "+", plus)
    ∷ (codes "-", minus)
    ∷ (codes "*", star)
    ∷ (codes "/", slash)
    ∷ (codes "%", percent)
    ∷ (codes "<", less)
    ∷ (codes ">", greater)
    ∷ (codes "&", amp)
    ∷ (codes "^", caret)
    ∷ (codes "|", bar)
    ∷ (codes "!", bang)
    ∷ (codes "~", tilde)
    ∷ (codes "?", question)
    ∷ (codes ":", colon)
    ∷ (codes "(", open_paren)
    ∷ (codes ")", close_paren)
    ∷ (codes "=", assign)
    ∷ []

-- The text after a prefix, if it starts with it.
unfoldable pub strip : Bytes → Bytes → Option Bytes
strip [] s = some s
strip (p ∷ ps) [] = none
strip (p ∷ ps) (b ∷ s) = if p == b then strip ps s else none

-- The first operator of the list that the text starts with, and the text after it.
unfoldable pub find_operator : List (Bytes × Op) → Bytes → Option (Op × Bytes)
unfolding strip
find_operator [] s = none
find_operator ((spelling, o) ∷ ops) s = elim (strip spelling s) [
  | some rest ↦ some (o, rest)
  | none ↦ find_operator ops s
]

abbrev pub is_space : ℕ → Bool
is_space c = c == b' ' || (c == 0x09 || (c == 0x0A || (c == 0x0C || c == 0x0D)))

abbrev pub is_digit : ℕ → Bool
is_digit c = within b'0' b'9' c

abbrev pub is_name_start : ℕ → Bool
is_name_start c = within b'A' b'Z' c || (within b'a' b'z' c || c == b'_')

abbrev pub is_run : ℕ → Bool
is_run c = is_digit c || is_name_start c

-- `run_end`: the run of letters, digits and underscores, and what follows it.
unfoldable pub split_run : Bytes → Bytes × Bytes
split_run [] = ([], [])
split_run (c ∷ s) =
    let (run, rest) = split_run s in if is_run c then (c ∷ run, rest) else ([], c ∷ s)

abbrev pub push_number : Option ℕ → Bytes → Result (List Token × Bytes)
push_number none rest = err illegal_number
push_number (some n) rest = ok (number n ∷ [], rest)

abbrev pub operator_token : ℕ → Option (Op × Bytes) → Result (List Token × Bytes)
operator_token c none = err (unexpected_character c)
operator_token c (some (o, rest)) = ok (op o ∷ [], rest)

-- One round of the loop, at the character `c`: the tokens it adds, and the text left.
unfoldable pub tokenize_step : ℕ → Bytes → Result (List Token × Bytes)
unfolding split_run parse_number find_operator operators
tokenize_step c s =
    if is_space c
    then ok ([], s)
    else if is_digit c
    then push_number (parse_number (split_run (c ∷ s)).0) (split_run (c ∷ s)).1
    else if is_name_start c
    then ok (name (split_run (c ∷ s)).0 ∷ [], (split_run (c ∷ s)).1)
    else operator_token c (find_operator operators (c ∷ s))

-- The loop, with the tokens so far.
unfoldable pub tokenize_loop : ℕ → Bytes → List Token → Run (Result (List Token))
tokenize_loop f [] tokens = done (ok (tokens ++ end ∷ []))
tokenize_loop zero (c ∷ s) tokens = out_of_fuel
tokenize_loop (suc f) (c ∷ s) tokens = elim (tokenize_step c s) [
  | err e ↦ done (err e)
  | ok (new, rest) ↦ tokenize_loop f rest (tokens ++ new)
]

unfoldable pub tokenize : Bytes → Run (Result (List Token))
unfolding tokenize_loop tokenize_step
tokenize expr = tokenize_loop (length expr) expr []
