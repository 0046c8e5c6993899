-- ===== src/Vars/ReadOnly.antt =====
-- Read only variables through the changes of the table: `set`, `unset`, `export`, `make_readonly` and `restore`.
use oh_my_shell.Base.{
  Bytes, true, false, none, List, [], ◌∷◌, ◌≡◌, refl, ◌∙◌, if◌then◌else◌, bytes_eq, bytes_eq_iff,
  arith, Option, inl, inr, ◌⊎◌,
}
use oh_my_shell.Vars.{
  Variables, table, find_var, get, is_readonly, export, make_readonly, unset, set, restore,
}
use oh_my_shell.Vars.Lookup.{find_var-change_or_push, set_lem, unset_lem, restore-snapshot}

-- The changes that builtins and assignments make.
pub data Change : Type 0 where
  assign : Bytes → Bytes → Change
  remove export_it lock : Bytes → Change

unfoldable pub apply : Change → Variables → Variables
apply (assign name value) vars = table (set name value vars)
apply (remove name) vars = table (unset name vars)
apply (export_it name) vars = export name vars
apply (lock name) vars = make_readonly name vars

unfoldable pub apply_all : List Change → Variables → Variables
unfolding apply
apply_all [] vars = vars
apply_all (c ∷ cs) vars = apply_all cs (apply c vars)

pub get-export : (name j : Bytes) (vars : Variables) → get j (export name vars) ≡ get j vars
unfolding get export
get-export name j vars = ground (
  arith,
  bytes_eq_iff name j,
  find_var-change_or_push name (λ v. record v { exported = true })
      (record { name = name; value = none; exported = true; readonly = false }) (λ v e. e) refl j
      vars,
)

pub is_readonly-export :
    (name j : Bytes) (vars : Variables) → is_readonly j (export name vars) ≡ is_readonly j vars
unfolding is_readonly export
is_readonly-export name j vars = ground (
  arith,
  bytes_eq_iff name j,
  find_var-change_or_push name (λ v. record v { exported = true })
      (record { name = name; value = none; exported = true; readonly = false }) (λ v e. e) refl j
      vars,
)

pub get-make_readonly :
    (name j : Bytes) (vars : Variables) → get j (make_readonly name vars) ≡ get j vars
unfolding get make_readonly
get-make_readonly name j vars = ground (
  arith,
  bytes_eq_iff name j,
  find_var-change_or_push name (λ v. record v { readonly = true })
      (record { name = name; value = none; exported = false; readonly = true }) (λ v e. e) refl j
      vars,
)

pub is_readonly-make_readonly :
    (name j : Bytes) (vars : Variables)
    → is_readonly j (make_readonly name vars)
      ≡ (if bytes_eq name j then true else is_readonly j vars)
unfolding is_readonly make_readonly
is_readonly-make_readonly name j vars = ground (
  arith,
  bytes_eq_iff name j,
  find_var-change_or_push name (λ v. record v { readonly = true })
      (record { name = name; value = none; exported = false; readonly = true }) (λ v e. e) refl j
      vars,
)

get-unset_readonly :
    (name j : Bytes) (vars : Variables)
    → is_readonly j vars ≡ true
    → find_var j (table (unset name vars)) ≡ find_var j vars
get-unset_readonly name j vars h = ground (arith, unset_lem name j vars, bytes_eq_iff name j)

apply_keeps :
    (c : Change) (j : Bytes) (vars : Variables)
    → is_readonly j vars ≡ true
    → (get j (apply c vars) ≡ get j vars) × (is_readonly j (apply c vars) ≡ true)
unfolding apply
apply_keeps (assign name value) j vars h =
    ground (arith, set_lem name value j vars, bytes_eq_iff name j)
apply_keeps (remove name) j vars h = (
  unfold get in rw (get-unset_readonly name j vars h) refl,
  unfold is_readonly in rw (get-unset_readonly name j vars h) h,
)
apply_keeps (export_it name) j vars h = (get-export name j vars, is_readonly-export name j vars ∙ h)
apply_keeps (lock name) j vars h =
    (get-make_readonly name j vars, ground (arith, is_readonly-make_readonly name j vars))

-- A change, or the `restore` at the end of a command with assignments in front: the variable of the
-- name becomes what it was in the table given.
pub data Step : Type 0 where
  change : Change → Step
  put_back : Bytes → Variables → Step

unfoldable pub step : Step → Variables → Variables
unfolding apply restore find_var
step (change c) vars = apply c vars
step (put_back name before) vars = restore name (find_var name before) vars

unfoldable pub steps : List Step → Variables → Variables
unfolding step
steps [] vars = vars
steps (c ∷ cs) vars = steps cs (step c vars)

-- What is put back is another variable, or this one when it was read only already, with the value.
abbrev pub Locked : Bytes → Option Bytes → Step → Type 0
Locked j value (change c) = Unit
Locked j value (put_back name before) =
    (bytes_eq name j ≡ false) ⊎ ((get j before ≡ value) × (is_readonly j before ≡ true))

abbrev pub AllLocked : Bytes → Option Bytes → List Step → Type 0
AllLocked j value [] = Unit
AllLocked j value (c ∷ cs) = Locked j value c × AllLocked j value cs

step_keeps :
    (c : Step) (j : Bytes) (vars : Variables)
    → is_readonly j vars ≡ true
    → Locked j (get j vars) c
    → (get j (step c vars) ≡ get j vars) × (is_readonly j (step c vars) ≡ true)
unfolding step get is_readonly
step_keeps (change c) j vars h l = apply_keeps c j vars h
step_keeps (put_back name before) j vars h (inl other) = (
  rw (restore-snapshot name j before vars, other) refl,
  rw (restore-snapshot name j before vars, other) h,
)
step_keeps (put_back name before) j vars h (inr (same, locked)) = (
  ground (arith, restore-snapshot name j before vars, bytes_eq_iff name j),
  ground (arith, restore-snapshot name j before vars, bytes_eq_iff name j),
)

-- Once a variable is read only, no sequence of assignments, unsets, exports and `readonly`s of any
-- names, and of `restore`s, changes its value or lifts the mark, if each `restore` is of another name or puts back a
-- variable that was read only already and had that value.
pub readonly_forever :
    (cs : List Step) (j : Bytes) (vars : Variables)
    → is_readonly j vars ≡ true
    → AllLocked j (get j vars) cs
    → (get j (steps cs vars) ≡ get j vars) × (is_readonly j (steps cs vars) ≡ true)
unfolding steps
readonly_forever [] j vars h l = (refl, h)
readonly_forever (c ∷ cs) j vars h (l, ls) =
    let (same, still) = step_keeps c j vars h l in
    let (same', still') = readonly_forever cs j (step c vars) still (rw same ls) in
    (same' ∙ same, still')
