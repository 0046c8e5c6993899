-- ===== src/Vars/Lookup.antt =====
-- What each change of the table does to the variable of every name.
use oh_my_shell.Base.{
  Bytes, false, Option, none, some, [], ◌∷◌, ◌≡◌, refl, ◌∙◌, if◌then◌else◌, bytes_eq, bytes_eq_iff,
  arith, not, ◌&&◌,
}
use oh_my_shell.Vars.{
  Variable, Variables, table, find_var, change_or_push, get, is_exported, is_readonly, remove,
  unset, set_bytes, set, restore,
}

-- The change keeps the name, and the variable to push has it.
pub find_var-change_or_push :
    (name : Bytes) (change : Variable → Variable) (new : Variable)
    → ((v : Variable) → v.name ≡ name → (change v).name ≡ name)
    → new.name ≡ name
    → (j : Bytes) (vars : Variables)
    → find_var j (change_or_push name change new vars) ≡ (
        if bytes_eq name j
        then some (elim (find_var name vars) [ none ↦ new | some v ↦ change v ])
        else find_var j vars)
unfolding find_var change_or_push
find_var-change_or_push name change new keeps named j [] =
    ground (arith, bytes_eq_iff new.name j, bytes_eq_iff name j)
find_var-change_or_push name change new keeps named j (v ∷ vars) = ground (
  arith,
  bytes_eq_iff v.name name,
  bytes_eq_iff v.name j,
  bytes_eq_iff name j,
  bytes_eq_iff (change v).name j,
  keeps v,
  find_var-change_or_push name change new keeps named j vars,
)

pub find_var-remove :
    (name j : Bytes) (vars : Variables)
    → find_var j (remove name vars) ≡ (if bytes_eq name j then none else find_var j vars)
unfolding find_var remove
find_var-remove name j [] = ground arith
find_var-remove name j (v ∷ vars) = ground (
  arith,
  bytes_eq_iff v.name name,
  bytes_eq_iff v.name j,
  bytes_eq_iff name j,
  find_var-remove name j vars,
)

-- What `find` returns has the name that was looked for.
pub name-find_var :
    (name : Bytes) (vars : Variables) (v : Variable) → find_var name vars ≡ some v → v.name ≡ name
unfolding find_var
name-find_var name [] v e = cc
name-find_var name (w ∷ vars) v e =
    ground (arith, bytes_eq_iff w.name name, name-find_var name vars v)

find_var-set_bytes :
    (name value j : Bytes) (vars : Variables)
    → find_var j (set_bytes name value vars) ≡ (
        if bytes_eq name j
        then some (elim (find_var name vars) [
          | none ↦ record { name = name; value = some value; exported = false; readonly = false }
          | some v ↦ record v { value = some value }
        ])
        else find_var j vars)
unfolding set_bytes
find_var-set_bytes name value j vars = find_var-change_or_push name _ _ (λ v e. e) refl j vars

-- An assignment gives the named variable the value, unless it is read only; it changes the value
-- of no other variable, exports nothing and makes nothing read only.
pub set_lem :
    (name value j : Bytes) (vars : Variables)
    → (get j (table (set name value vars))
        ≡ (if bytes_eq name j && not (is_readonly name vars) then some value else get j vars))
      × (is_exported j (table (set name value vars)) ≡ is_exported j vars)
      × (is_readonly j (table (set name value vars)) ≡ is_readonly j vars)
unfolding set get is_exported is_readonly
set_lem name value j vars = (
  ground (arith, find_var-set_bytes name value j vars, bytes_eq_iff name j),
  ground (arith, find_var-set_bytes name value j vars, bytes_eq_iff name j),
  ground (arith, find_var-set_bytes name value j vars, bytes_eq_iff name j),
)

-- `unset` takes the value of the named variable away, unless it is read only, and leaves all others
-- as they are.
pub unset_lem :
    (name j : Bytes) (vars : Variables)
    → find_var j (table (unset name vars))
      ≡ (if bytes_eq name j && not (is_readonly name vars) then none else find_var j vars)
unfolding unset is_readonly
unset_lem name j vars = ground (arith, find_var-remove name j vars)

-- Taking a snapshot of a variable, changing the table in any way, and restoring the snapshot gives
-- the variable back as it was, or removes it if it did not exist, and keeps the other changes.
pub restore-snapshot :
    (name j : Bytes) (before now : Variables)
    → find_var j (restore name (find_var name before) now)
      ≡ (if bytes_eq name j then find_var name before else find_var j now)
restore-snapshot name j before now = restored (find_var name before) refl
  where
    restored :
        (o : Option Variable)
        → find_var name before ≡ o
        → find_var j (restore name o now) ≡ (if bytes_eq name j then o else find_var j now)
    restored none e = unfold restore in find_var-remove name j now
    restored (some v) e =
        unfold restore in
        find_var-change_or_push name (λ _. v) v (λ _ _. name-find_var name before v e)
          (name-find_var name before v e) j now
        ∙ put_back (find_var name now)
      where
        put_back :
            (o : Option Variable)
            → (if bytes_eq name j
                then some (elim o as (λ _. Variable) [ none ↦ v | some _ ↦ v ])
                else find_var j now)
              ≡ (if bytes_eq name j then some v else find_var j now)
        put_back none = refl
        put_back (some _) = refl
