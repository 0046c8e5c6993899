-- ===== src/Vars/Unique.antt =====
-- Tables that hold no two variables of one name.
use oh_my_shell.Base.{
  Bytes, false, Option, none, some, List, [], ◌∷◌, ◌≡◌, refl, ◌∙◌, sym, bytes_eq, bytes_eq_iff,
  Bool-cases, inl, inr, arith,
}
use oh_my_shell.Vars.{
  Variable, Variables, find_var, change_or_push, remove, set_bytes, set, unset, export,
  make_readonly, restore,
}
use oh_my_shell.Vars.Lookup.{find_var-change_or_push, find_var-remove, name-find_var}
use oh_my_shell.Vars.ReadOnly.{Change, assign, export_it, lock, apply, apply_all}

abbrev pub Unique : Variables → Type 0
Unique [] = Unit
Unique (v ∷ vars) = (find_var v.name vars ≡ none) × Unique vars

remove-Unique : (name : Bytes) (vars : Variables) → Unique vars → Unique (remove name vars)
unfolding remove
remove-Unique name [] u = tt
remove-Unique name (v ∷ vars) (fresh, u) = elim (Bool-cases (bytes_eq v.name name)) [
  | inl h ↦ rw h (remove-Unique name vars u)
  | inr h ↦ rw h (ground (arith, find_var-remove name v.name vars), remove-Unique name vars u)
]

module _ (name : Bytes) (change : Variable → Variable) (new : Variable)
    (keeps : (v : Variable) → v.name ≡ name → (change v).name ≡ name)
    (named : new.name ≡ name) where
  change_or_push-Unique :
      (vars : Variables) → Unique vars → Unique (change_or_push name change new vars)
  unfolding change_or_push
  change_or_push-Unique [] u = (unfold find_var in refl, tt)
  change_or_push-Unique (v ∷ vars) (fresh, u) = elim (Bool-cases (bytes_eq v.name name)) [
    | inl h ↦ rw h (same_name ((bytes_eq_iff v.name name).0 h), u)
    | inr h ↦ rw h (
      ground (
        arith,
        bytes_eq_iff name v.name,
        bytes_eq_iff v.name name,
        find_var-change_or_push name change new keeps named v.name vars,
      ),
      change_or_push-Unique vars u,
    )
  ]
    where
      same_name : v.name ≡ name → find_var (change v).name vars ≡ none
      same_name e = rw (keeps v e ∙ sym e) fresh

-- Every change keeps the names in the table distinct.
apply-Unique : (c : Change) (vars : Variables) → Unique vars → Unique (apply c vars)
unfolding apply set unset set_bytes export make_readonly
apply-Unique (assign name value) vars u = ground (
  arith,
  change_or_push-Unique name (λ v. record v { value = some value })
      (record { name = name; value = some value; exported = false; readonly = false }) (λ v e. e)
      refl vars u,
)
apply-Unique (Change.remove name) vars u = ground (arith, remove-Unique name vars u)
apply-Unique (export_it name) vars u = change_or_push-Unique name _ _ (λ v e. e) refl vars u
apply-Unique (lock name) vars u = change_or_push-Unique name _ _ (λ v e. e) refl vars u

pub apply_all-Unique :
    (cs : List Change) (vars : Variables) → Unique vars → Unique (apply_all cs vars)
unfolding apply_all
apply_all-Unique [] vars u = u
apply_all-Unique (c ∷ cs) vars u = apply_all-Unique cs (apply c vars) (apply-Unique c vars u)

restore-Unique :
    (name : Bytes) (before now : Variables)
    → Unique now
    → Unique (restore name (find_var name before) now)
restore-Unique name before now u = restored (find_var name before) refl
  where
    restored : (o : Option Variable) → find_var name before ≡ o → Unique (restore name o now)
    restored none e = unfold restore in remove-Unique name now u
    restored (some v) e =
        unfold restore in
        change_or_push-Unique name (λ _. v) v (λ _ _. name-find_var name before v e)
          (name-find_var name before v e) now u

-- The names stay distinct through any changes followed by the restoring of a snapshot, which is how
-- the assignments in front of a command are undone.
pub command-Unique :
    (name : Bytes) (cs : List Change) (before : Variables)
    → Unique before
    → Unique (restore name (find_var name before) (apply_all cs before))
command-Unique name cs before u =
    restore-Unique name before (apply_all cs before) (apply_all-Unique cs before u)
