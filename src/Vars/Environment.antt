-- ===== src/Vars/Environment.antt =====
-- `Variables::envp` and `search_path`: what a program that the shell starts receives.
pub mod Laws
use oh_my_shell.Base.{
  ℕ, zero, Bytes, Bool, true, false, not, ◌&&◌, Option, none, some, List, [], ◌∷◌, ◌++◌, ◌==◌,
  if◌then◌else◌, any, codes, bytes_eq,
}
use oh_my_shell.Vars.{Variable, Variables, get}

-- The assignments in front of one command.
abbrev pub Overrides : Type 0
Overrides = List (Bytes × Bytes)

-- `iter().rev().find(|(n, _)| n == name)`
unfoldable pub last_override : Bytes → Overrides → Option Bytes
unfolding bytes_eq
last_override name [] = none
last_override name ((n, v) ∷ rest) = elim (last_override name rest) [
  | some w ↦ some w
  | none ↦ if bytes_eq n name then some v else none
]

-- `DEFAULT_PATH` of path.rs
abbrev pub default_path : Bytes
default_path = codes "/usr/local/sbin:/usr/local/bin:/usr/sbin:/usr/bin:/sbin:/bin"

abbrev or_default : Option Bytes → Bytes
or_default none = default_path
or_default (some p) = p

unfoldable pub search_path : Overrides → Variables → Bytes
unfolding last_override get
search_path overrides vars = elim (last_override (codes "PATH") overrides) [
  | some value ↦ value
  | none ↦ or_default (get (codes "PATH") vars)
]

-- What `push_entry` adds: `name=value`, or nothing if `CString::new` finds a NUL byte.
unfoldable pub push_entry : Bytes → Bytes → List Bytes
push_entry name value =
    let entry = name ++ b'=' ∷ value in if any (λ b. b == 0) entry then [] else entry ∷ []

abbrev pub has_name : Bytes → Bytes × Bytes → Bool
has_name name (n, _) = bytes_eq n name

abbrev pub push_value : Bytes → Option Bytes → List Bytes
push_value name none = []
push_value name (some value) = push_entry name value

-- The two loops of `envp`.
unfoldable pub push_variables : Overrides → Variables → List Bytes
unfolding bytes_eq push_entry
push_variables overrides [] = []
push_variables overrides (var ∷ vars) =
    (if var.exported && not (any (has_name var.name) overrides)
      then push_value var.name var.value
      else [])
    ++ push_variables overrides vars

unfoldable pub push_overrides : Overrides → List Bytes
unfolding bytes_eq push_entry
push_overrides [] = []
push_overrides ((name, value) ∷ rest) =
    (if any (has_name name) rest then [] else push_entry name value) ++ push_overrides rest

-- `envp`
unfoldable pub envp : Overrides → Variables → List Bytes
unfolding push_variables push_overrides
envp overrides vars = push_variables overrides vars ++ push_overrides overrides
