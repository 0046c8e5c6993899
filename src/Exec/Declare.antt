-- ===== src/Exec/Declare.antt =====
-- builtins/variables.rs: `export`, `readonly`, `unset` and `shift`; `set` is in Exec/SetOptions.antt.
use oh_my_shell.Base.{
  ℕ, Bytes, Bool, true, false, not, ◌||◌, Option, none, some, List, [], ◌∷◌, ◌++◌, ◌==◌, ltb,
  if◌then◌else◌, codes, bytes_eq, is_empty, length, drop,
}
use oh_my_shell.Builtins.{is_name, quote, sorted, readonly_sorted}
use oh_my_shell.Flow.{Status, success, usage, Flow, exit_with, error_with, from_signal, parse_count}
use oh_my_shell.Io.{Io}
use oh_my_shell.Tree.{Command}
use oh_my_shell.Vars
use oh_my_shell.Vars.{Variable, Variables, make_readonly}
use oh_my_shell.Exec.{
  Shell, Host, Written, written, broken_pipe, write_failed, Eval, pure, fail, gets, modify, call,
  ◌>>=◌, ◌>>◌,
}
use oh_my_shell.Exec.Compound.{assigned, assign_item}

-- `emit`: a write to a pipe without a reader ends a copy of the shell.
abbrev pub emitted : {W : Type 0} → Bool → Written → Eval W Status
emitted in_subshell written = pure success
emitted true broken_pipe = fail (exit_with (from_signal 13))
emitted false broken_pipe = pure 1
emitted in_subshell write_failed = pure 1

unfoldable pub emit : {W : Type 0} → Host W → ℕ → Bytes → Io → Eval W Status
unfolding from_signal
emit host fd bytes io = do
  in_subshell ← gets (λ s. s.in_subshell)
  result ← call (host.write_all fd bytes io)
  emitted in_subshell result

-- The options `-p` and `--`: whether to list, and the words after them.
unfoldable pub skip_list_option : List Bytes → Bool → Bool × List Bytes
unfolding bytes_eq
skip_list_option [] listing = (listing, [])
skip_list_option (arg ∷ rest) listing =
    let more = skip_list_option rest true in
    if bytes_eq arg (codes "-p")
    then more
    else if bytes_eq arg (codes "--")
    then (listing, rest)
    else (listing, arg ∷ rest)

-- `name=value`, or a name only.
abbrev pub add_to_name : ℕ → Bytes × Option Bytes → Bytes × Option Bytes
add_to_name b (name, value) = (b ∷ name, value)

unfoldable pub split_equals : Bytes → Bytes × Option Bytes
split_equals [] = ([], none)
split_equals (b ∷ rest) =
    let more = split_equals rest in if b == b'=' then ([], some rest) else add_to_name b more

-- A line of a listing: the word in front, the name, and the value in quotes.
abbrev pub value_text : Option Bytes → Bytes
value_text none = []
value_text (some value) = b'=' ∷ quote value

abbrev pub listed : Bytes → Variable → Bytes
listed word v = word ++ v.name ++ value_text v.value ++ 0x0A ∷ []

unfoldable pub export_lines : Variables → Bytes
unfolding quote
export_lines [] = []
export_lines (v ∷ vars) =
    (if v.exported then listed (codes "export ") v else []) ++ export_lines vars

unfoldable pub readonly_lines : Variables → Bytes
unfolding quote
readonly_lines [] = []
readonly_lines (v ∷ vars) = listed (codes "readonly ") v ++ readonly_lines vars

-- The value of `name=value`, where there is one.
abbrev pub set_value : {W : Type 0} → Bytes → Option Bytes → Eval W (Unit {0})
set_value name none = pure tt
set_value name (some value) = assign_item name value

abbrev pub export_one : {W : Type 0} → Bytes × Option Bytes → Eval W (Unit {0})
export_one (name, value) =
    if is_name name
    then (set_value name value >> modify (λ s. record s { vars = Vars.export name s.vars }))
    else pure tt

-- The loop of `export` over the names.
unfoldable pub export_names : {W : Type 0} → List Bytes → Status → Eval W Status
unfolding is_name split_equals assign_item Vars.export
export_names [] status = pure status
export_names (arg ∷ rest) status = do
  export_one (split_equals arg)
  export_names rest (if is_name (split_equals arg).0 then status else 1)

abbrev pub export_after : {W : Type 0} → Host W → Io → Bool × List Bytes → Eval W Status
export_after host io (listing, rest) =
    if listing || is_empty rest
    then (gets (λ s. export_lines (sorted s.vars)) >>= λ text. emit host 1 text io)
    else export_names rest success

-- `export`
unfoldable pub export : {W : Type 0} → Host W → List Bytes → Io → Eval W Status
unfolding skip_list_option export_lines sorted emit export_names
export host args io = export_after host io (skip_list_option args false)

-- The loop of `readonly` over the names.
abbrev pub readonly_one : {W : Type 0} → Bytes × Option Bytes → Eval W (Unit {0})
readonly_one (name, value) =
    if is_name name
    then (set_value name value >> modify (λ s. record s { vars = make_readonly name s.vars }))
    else fail (error_with usage)

unfoldable pub readonly_names : {W : Type 0} → List Bytes → Eval W Status
unfolding is_name split_equals assign_item make_readonly
readonly_names [] = pure success
readonly_names (arg ∷ rest) = readonly_one (split_equals arg) >> readonly_names rest

abbrev pub readonly_after : {W : Type 0} → Host W → Io → Bool × List Bytes → Eval W Status
readonly_after host io (listing, rest) =
    if listing || is_empty rest
    then (gets (λ s. readonly_lines (readonly_sorted s.vars)) >>= λ text. emit host 1 text io)
    else readonly_names rest

-- `readonly`
unfoldable pub readonly : {W : Type 0} → Host W → List Bytes → Io → Eval W Status
unfolding skip_list_option readonly_lines readonly_sorted emit readonly_names
readonly host args io = readonly_after host io (skip_list_option args false)

-- The options of `unset`: whether functions are meant, and the names.
unfoldable pub unset_options : List Bytes → Bool → Bool × List Bytes
unfolding bytes_eq
unset_options [] functions = (functions, [])
unset_options (arg ∷ rest) functions =
    let with_functions = unset_options rest true in
    let with_variables = unset_options rest false in
    if bytes_eq arg (codes "-f")
    then with_functions
    else if bytes_eq arg (codes "-v")
    then with_variables
    else if bytes_eq arg (codes "--")
    then (functions, rest)
    else (functions, arg ∷ rest)

-- `HashMap::remove`
unfoldable pub remove_function : Bytes → List (Bytes × Command) → List (Bytes × Command)
unfolding bytes_eq
remove_function name [] = []
remove_function name ((n, body) ∷ functions) =
    let rest = remove_function name functions in if bytes_eq n name then rest else (n, body) ∷ rest

abbrev pub unset_variable : {W : Type 0} → Bytes → Eval W (Unit {0})
unset_variable name s = assigned s (Vars.unset name s.vars)

abbrev pub unset_one : {W : Type 0} → Bool → Bytes → Eval W (Unit {0})
unset_one functions name =
    if not (is_name name)
    then pure tt
    else if functions
    then modify (λ s. record s { functions = remove_function name s.functions })
    else unset_variable name

unfoldable pub unset_names : {W : Type 0} → Bool → List Bytes → Status → Eval W Status
unfolding is_name remove_function Vars.unset
unset_names functions [] status = pure status
unset_names functions (name ∷ rest) status = do
  unset_one functions name
  unset_names functions rest (if is_name name then status else 1)

abbrev pub unset_after : {W : Type 0} → Bool × List Bytes → Eval W Status
unset_after (functions, rest) = unset_names functions rest success

-- `unset`
unfoldable pub unset : {W : Type 0} → List Bytes → Eval W Status
unfolding unset_options unset_names
unset args = unset_after (unset_options args false)

-- `shift`
abbrev pub shift_by : {W : Type 0} → ℕ → Shell W → Option (Flow Status × Shell W)
shift_by count s =
    if ltb (length s.positional) count
    then pure 1 s
    else pure success (record s { positional = drop count s.positional })

abbrev pub shift_counted : {W : Type 0} → Option ℕ → Eval W Status
shift_counted none = pure usage
shift_counted (some count) = shift_by count

unfoldable pub shift : {W : Type 0} → List Bytes → Eval W Status
unfolding parse_count
shift [] = shift_by 1
shift (arg ∷ args) = shift_counted (parse_count arg)
