-- ===== src/Exec/Source.antt =====
-- builtins/source.rs: `eval` and `.`; `run_text` is in Exec/Text.antt.
use oh_my_shell.Base.{
  ℕ, ◌+◌, ◌-◌, Bytes, Bool, false, Option, none, some, List, [], ◌∷◌, ◌++◌, leb, ◌==◌,
  if◌then◌else◌, any, all, codes,
}
use oh_my_shell.Arith.Variable.{is_whitespace}
use oh_my_shell.Chars.{units, invalid_base}
use oh_my_shell.Flow.{Status, success, usage, catch_return}
use oh_my_shell.Io.{Io}
use oh_my_shell.Vars.Environment.{search_path}
use oh_my_shell.Exec.{Shell, Host, Result, Eval, pure, gets, ◌>>=◌, text, Rec}

-- `String::from_utf8` is an error.
abbrev pub is_invalid : Bytes → Bool
is_invalid bytes = any (leb invalid_base) (units bytes)

-- `args.join(&b' ')`
unfoldable pub join : List Bytes → Bytes
join [] = []
join (arg ∷ []) = arg
join (arg ∷ next ∷ rest) = arg ++ 0x20 ∷ join (next ∷ rest)

-- `eval`
unfoldable pub eval : {W : Type 0} → Rec W → List Bytes → Io → Eval W Status
unfolding join units
eval rec args io =
    if is_invalid (join args)
    then pure usage
    else if all is_whitespace (units (join args))
    then pure success
    else rec (text (join args)) io

-- `split(|b| *b == b':')`
abbrev to_entry : ℕ → List Bytes → List Bytes
to_entry b [] = (b ∷ []) ∷ []
to_entry b (entry ∷ entries) = (b ∷ entry) ∷ entries

unfoldable pub split_path : Bytes → List Bytes
split_path [] = [] ∷ []
split_path (b ∷ rest) =
    let entries = split_path rest in if b == b':' then [] ∷ entries else to_entry b entries

-- `PathBuf::from(dir).join(name)`, of a name without a `/`; an empty entry is `.`.
abbrev pub ends_in_slash : Bytes → Bool
ends_in_slash [] = false
ends_in_slash (b ∷ []) = b == b'/'
ends_in_slash (b ∷ c ∷ rest) = ends_in_slash (c ∷ rest)

abbrev pub joined : Bytes → Bytes → Bytes
joined [] name = codes "./" ++ name
joined (b ∷ dir) name = if ends_in_slash (b ∷ dir) then b ∷ dir ++ name else b ∷ dir ++ b'/' ∷ name

-- The loop of `find_sourced` over the directories, and `find_sourced`.
unfoldable pub first_readable : (Bytes → Bool) → Bytes → List Bytes → Option Bytes
first_readable is_file name [] = none
first_readable is_file name (dir ∷ dirs) =
    if is_file (joined dir name) then some (joined dir name) else first_readable is_file name dirs

unfoldable pub find_sourced : {W : Type 0} → Host W → Shell W → Bytes → Option Bytes
unfolding search_path split_path first_readable
find_sourced host s name =
    if any (λ b. b == b'/') name
    then some name
    else first_readable (λ path. host.is_file path s) name (split_path (search_path [] s.vars))

-- `$1`, `$2`, ... while the file runs: those of `.`, if it has arguments.
abbrev pub arguments_or : List Bytes → List Bytes → List Bytes
arguments_or old [] = old
arguments_or old (arg ∷ args) = arg ∷ args

-- The end of a sourced file: the arguments of `.` are gone, where there were any.
abbrev pub positional_after : List Bytes → List Bytes → List Bytes → List Bytes
positional_after saved [] now = now
positional_after saved (arg ∷ args) now = saved

abbrev pub left_file : {W : Type 0} → List Bytes → List Bytes → Result W Status → Result W Status
left_file saved args none = none
left_file saved args (some (flow, s)) = some (
  catch_return flow,
  record s { func_depth = s.func_depth - 1; positional = positional_after saved args s.positional },
)

unfoldable pub run_file : {W : Type 0} → List Bytes → Eval W Status → Eval W Status
unfolding catch_return
run_file args body s =
    left_file s.positional args (
      body
        (record s { func_depth = s.func_depth + 1; positional = arguments_or s.positional args }))

-- The text of the file, if it can be read.
abbrev pub run_source : {W : Type 0} → Rec W → List Bytes → Io → Option Bytes → Eval W Status
run_source rec args io none = pure 1
run_source rec args io (some src) =
    if is_invalid src then pure usage else run_file args (rec (text src) io)

abbrev pub read_source :
    {W : Type 0} → Host W → Rec W → List Bytes → Io → Option Bytes → Eval W Status
read_source host rec args io none = pure 1
read_source host rec args io (some path) = do
  read ← gets (host.read_file path)
  run_source rec args io read

-- `dot`
unfoldable pub dot : {W : Type 0} → Host W → Rec W → List Bytes → Io → Eval W Status
unfolding find_sourced units run_file
dot host rec [] io = pure usage
dot host rec (name ∷ args) io = do
  path ← gets (λ s. find_sourced host s name)
  read_source host rec args io path
