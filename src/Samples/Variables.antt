-- ===== src/Samples/Variables.antt =====
-- crates/omsh-exec/src/vars.rs: tests and instances.
use oh_my_shell.Base.{
  true, false, not, ◌&&◌, none, some, List, [], ◌∷◌, ◌≡◌, refl, codes, bytes_eq, if◌then◌else◌, all,
  inl, inr,
}
use oh_my_shell.Vars.{
  Variable, Variables, table, find_var, get, is_exported, is_readonly, set, unset, restore,
  from_pairs,
}
use oh_my_shell.Vars.Lookup.{set_lem, unset_lem, restore-snapshot}
use oh_my_shell.Vars.ReadOnly.{
  Change, assign, remove, export_it, lock, apply_all, Step, change, put_back, steps, AllLocked,
  readonly_forever,
}
use oh_my_shell.Vars.Unique.{Unique, command-Unique}
use oh_my_shell.Vars.Environment.{Overrides, last_override, search_path, envp}
use oh_my_shell.Vars.Environment.Laws.{
  getenv, is_plain, passable, or_else, exported_value, getenv-envp,
}

abbrev home : Variable
home = record {
  name = codes "HOME";
  value = some (codes "/root");
  exported = true;
  readonly = false;
}

abbrev locked : Variable
locked = record { name = codes "R"; value = some (codes "1"); exported = false; readonly = true }

abbrev vars : Variables
vars = home ∷ locked ∷ []

last_pair_wins :
    get (codes "A") (from_pairs ((codes "A", codes "1") ∷ (codes "A", codes "2") ∷ []))
    ≡ some (codes "2")
unfolding get from_pairs
last_pair_wins = refl

last_override_wins :
    envp ((codes "A", codes "1") ∷ (codes "A", codes "2") ∷ []) vars
    ≡ codes "HOME=/root" ∷ codes "A=2" ∷ []
unfolding envp
last_override_wins = refl

path_of_overrides : search_path ((codes "PATH", codes "/x") ∷ []) vars ≡ codes "/x"
unfolding search_path
path_of_overrides = refl

set_lem_example :
    (get (codes "R") (table (set (codes "R") (codes "2") vars)) ≡ (
      if bytes_eq (codes "R") (codes "R") && not (is_readonly (codes "R") vars)
      then some (codes "2")
      else get (codes "R") vars))
    × (is_exported (codes "R") (table (set (codes "R") (codes "2") vars))
        ≡ is_exported (codes "R") vars)
    × (is_readonly (codes "R") (table (set (codes "R") (codes "2") vars))
        ≡ is_readonly (codes "R") vars)
set_lem_example = set_lem (codes "R") (codes "2") (codes "R") vars

unset_lem_example : find_var (codes "HOME") (table (unset (codes "HOME") vars)) ≡ (
    if bytes_eq (codes "HOME") (codes "HOME") && not (is_readonly (codes "HOME") vars)
    then none
    else find_var (codes "HOME") vars)
unset_lem_example = unset_lem (codes "HOME") (codes "HOME") vars

restore-snapshot_example :
    find_var (codes "HOME") (restore (codes "HOME") (find_var (codes "HOME") vars) []) ≡ (
      if bytes_eq (codes "HOME") (codes "HOME")
      then find_var (codes "HOME") vars
      else find_var (codes "HOME") [])
restore-snapshot_example = restore-snapshot (codes "HOME") (codes "HOME") vars []

abbrev script : List Change
script =
    assign (codes "R") (codes "2")
    ∷ remove (codes "R")
    ∷ export_it (codes "R")
    ∷ lock (codes "HOME")
    ∷ []

is_locked : is_readonly (codes "R") vars ≡ true
unfolding is_readonly
is_locked = refl

-- The script, and what two commands put back: `HOME`, which did not exist, and `R`.
abbrev with_restores : List Step
with_restores =
    change (assign (codes "R") (codes "2"))
    ∷ put_back (codes "HOME") []
    ∷ change (remove (codes "R"))
    ∷ put_back (codes "R") vars
    ∷ []

all_locked : AllLocked (codes "R") (get (codes "R") vars) with_restores
unfolding bytes_eq
all_locked = (tt, (inl refl, (tt, (inr (refl, is_locked), tt))))

readonly_forever_example :
    (get (codes "R") (steps with_restores vars) ≡ get (codes "R") vars)
    × (is_readonly (codes "R") (steps with_restores vars) ≡ true)
readonly_forever_example = readonly_forever with_restores (codes "R") vars is_locked all_locked

vars-Unique : Unique vars
unfolding find_var
vars-Unique = (refl, (refl, tt))

command-Unique_example :
    Unique (restore (codes "HOME") (find_var (codes "HOME") vars) (apply_all script vars))
command-Unique_example = command-Unique (codes "HOME") script vars vars-Unique

abbrev overrides : Overrides
overrides = (codes "HOME", codes "/tmp") ∷ []

vars_plain : all (λ v. is_plain v.name) vars ≡ true
vars_plain = refl

getenv-envp_example :
    getenv (codes "HOME") (envp overrides vars)
    ≡ passable (
        or_else
          (last_override (codes "HOME") overrides)
          (exported_value (find_var (codes "HOME") vars)))
getenv-envp_example = getenv-envp (codes "HOME") overrides vars vars-Unique refl refl vars_plain

nul_is_left_out : getenv (codes "A") (envp ((codes "A", 0 ∷ []) ∷ []) vars) ≡ none
unfolding getenv envp
nul_is_left_out = refl
