-- ===== src/Exec/Names.antt =====
-- Which command a name stands for: `strip_command` and `classify` of exec/mod.rs, and `classify` of
-- builtins/mod.rs.
use oh_my_shell.Base.{
  ℕ, ◌+◌, Bytes, Bool, true, false, not, ◌&&◌, ◌||◌, Option, none, some, List, [], ◌∷◌, ◌==◌,
  if◌then◌else◌, codes, bytes_eq,
}
use oh_my_shell.Test.{one_of}
use oh_my_shell.Tree.{Command}

-- `Class`
pub data Class : Type 0 where
  special regular : Class

abbrev pub special_builtins : List Bytes
special_builtins =
    codes ":"
    ∷ codes "."
    ∷ codes "break"
    ∷ codes "continue"
    ∷ codes "eval"
    ∷ codes "exec"
    ∷ codes "exit"
    ∷ codes "export"
    ∷ codes "return"
    ∷ codes "readonly"
    ∷ codes "set"
    ∷ codes "shift"
    ∷ codes "trap"
    ∷ codes "unset"
    ∷ []

abbrev pub regular_builtins : List Bytes
regular_builtins =
    codes "["
    ∷ codes "alias"
    ∷ codes "cd"
    ∷ codes "echo"
    ∷ codes "command"
    ∷ codes "false"
    ∷ codes "hash"
    ∷ codes "printf"
    ∷ codes "pwd"
    ∷ codes "read"
    ∷ codes "source"
    ∷ codes "test"
    ∷ codes "true"
    ∷ codes "type"
    ∷ codes "umask"
    ∷ codes "unalias"
    ∷ []

-- `builtins::classify`
unfoldable pub builtin_class : Bytes → Option Class
unfolding one_of
builtin_class name =
    if one_of name special_builtins
    then some special
    else if one_of name regular_builtins
    then some regular
    else none

-- `Target`
pub data Target : Type 0 where
  builtin : Class → Target
  function : Command → Target
  external : Target

abbrev pub builtin_or_external : Option Class → Target
builtin_or_external none = external
builtin_or_external (some class) = builtin class

-- `HashMap::get`
unfoldable pub find_function : Bytes → List (Bytes × Command) → Option Command
unfolding bytes_eq
find_function name [] = none
find_function name ((n, body) ∷ functions) =
    if bytes_eq n name then some body else find_function name functions

abbrev pub function_or : Option Class → Option Command → Target
function_or class none = builtin_or_external class
function_or class (some body) = function body

abbrev pub classified : Option Class → Bool → Option Command → Target
classified (some special) skip_functions found = builtin special
classified class true found = builtin_or_external class
classified class false found = function_or class found

-- `classify`
unfoldable pub classify : List (Bytes × Command) → Bytes → Bool → Target
unfolding builtin_class find_function
classify functions name skip_functions =
    classified (builtin_class name) skip_functions (find_function name functions)

-- The loop of `strip_command` over the words after `command`: the words from `at` on, whether `-p` was
-- there, and how many words were passed.
unfoldable pub skip_options : List Bytes → Bool → ℕ → List Bytes × Bool × ℕ
unfolding bytes_eq
skip_options [] standard at = ([], standard, at)
skip_options (word ∷ rest) standard at =
    let more = skip_options rest true (at + 1) in
    if bytes_eq word (codes "-p")
    then more
    else if bytes_eq word (codes "--")
    then (rest, standard, at + 1)
    else (word ∷ rest, standard, at)

-- `word.starts_with(b"-") && word.len() > 1`
abbrev pub is_dashed : Bytes → Bool
is_dashed [] = false
is_dashed (b ∷ []) = false
is_dashed (b ∷ c ∷ rest) = b == b'-'

abbrev pub stripped : List Bytes → List Bytes × Bool × ℕ → List Bytes × Option Bool
stripped all ([], standard, at) = (all, none)
stripped all (word ∷ rest, standard, at) =
    if is_dashed word && at == (if standard then 2 else 1)
    then (all, none)
    else (word ∷ rest, some standard)

abbrev pub is_some {ℓ} : {A : Type ℓ} → Option A → Bool
is_some none = false
is_some (some _) = true

-- `strip_command`
unfoldable pub strip_command : List (Bytes × Command) → List Bytes → List Bytes × Option Bool
unfolding find_function skip_options
strip_command functions [] = ([], none)
strip_command functions (first ∷ rest) =
    if not (bytes_eq first (codes "command")) || is_some (find_function (codes "command") functions)
    then (first ∷ rest, none)
    else stripped (first ∷ rest) (skip_options rest false 1)

abbrev pub is_special : Target → Bool
is_special (builtin special) = true
is_special _ = false

-- The target of the words, if there are any, and whether it is a special builtin by its own name.
abbrev pub target_of : List (Bytes × Command) → Option Bool → List Bytes → Option Target
target_of functions via [] = none
target_of functions via (name ∷ args) = some (classify functions name (is_some via))

abbrev pub names_special : Option Bool → Option Target → Bool
names_special via none = false
names_special via (some t) = not (is_some via) && is_special t
