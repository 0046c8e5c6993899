-- ===== src/Vars.antt =====
-- crates/omsh-exec/src/vars.rs: the variable table, in the order the variables were created.
pub mod Lookup
pub mod ReadOnly
pub mod Unique
pub mod Environment
use oh_my_shell.Base.{
  ℕ, Bytes, Bool, true, false, not, ◌&&◌, ◌||◌, Option, none, some, List, [], ◌∷◌, ◌++◌, ◌==◌, ltb,
  if◌then◌else◌, any, find, codes, bytes_eq,
}

pub record Variable : Type 0 where
  pub name : Bytes
  pub value : Option Bytes
  pub exported : Bool
  pub readonly : Bool

-- `Variables`
abbrev pub Variables : Type 0
Variables = List Variable

-- `Result<(), ReadOnly>` beside the table that is left.
pub data Outcome : Type 0 where
  ok : Variables → Outcome
  read_only : Variables → Outcome

abbrev pub table : Outcome → Variables
table (ok t) = t
table (read_only t) = t

-- `find`, and `snapshot`, which clones what it finds.
unfoldable pub find_var : Bytes → Variables → Option Variable
unfolding bytes_eq
find_var name [] = none
find_var name (v ∷ vars) = if bytes_eq v.name name then some v else find_var name vars

-- `if let Some(var) = self.find_mut(name) { change } else { self.vars.push(new) }`
unfoldable pub change_or_push : Bytes → (Variable → Variable) → Variable → Variables → Variables
unfolding bytes_eq
change_or_push name change new [] = new ∷ []
change_or_push name change new (v ∷ vars) =
    if bytes_eq v.name name then change v ∷ vars else v ∷ change_or_push name change new vars

abbrev pub value_of : Option Variable → Option Bytes
value_of none = none
value_of (some v) = v.value

abbrev pub flag : (Variable → Bool) → Option Variable → Bool
flag f none = false
flag f (some v) = f v

unfoldable pub get : Bytes → Variables → Option Bytes
unfolding find_var
get name vars = value_of (find_var name vars)

unfoldable pub is_exported : Bytes → Variables → Bool
unfolding find_var
is_exported name vars = flag (λ v. v.exported) (find_var name vars)

unfoldable pub is_readonly : Bytes → Variables → Bool
unfolding find_var
is_readonly name vars = flag (λ v. v.readonly) (find_var name vars)

unfoldable pub export : Bytes → Variables → Variables
unfolding change_or_push
export name vars =
    change_or_push name (λ v. record v { exported = true })
      (record { name = name; value = none; exported = true; readonly = false }) vars

unfoldable pub make_readonly : Bytes → Variables → Variables
unfolding change_or_push
make_readonly name vars =
    change_or_push name (λ v. record v { readonly = true })
      (record { name = name; value = none; exported = false; readonly = true }) vars

-- `self.vars.retain(|v| v.name != name)`
unfoldable pub remove : Bytes → Variables → Variables
unfolding bytes_eq
remove name [] = []
remove name (v ∷ vars) = if bytes_eq v.name name then remove name vars else v ∷ remove name vars

unfoldable pub unset : Bytes → Variables → Outcome
unfolding is_readonly remove
unset name vars = if is_readonly name vars then read_only vars else ok (remove name vars)

unfoldable pub set_bytes : Bytes → Bytes → Variables → Variables
unfolding change_or_push
set_bytes name value vars =
    change_or_push name (λ v. record v { value = some value })
      (record { name = name; value = some value; exported = false; readonly = false }) vars

unfoldable pub set : Bytes → Bytes → Variables → Outcome
unfolding is_readonly set_bytes
set name value vars =
    if is_readonly name vars then read_only vars else ok (set_bytes name value vars)

-- `restore`, with what `snapshot` returned.
unfoldable pub restore : Bytes → Option Variable → Variables → Variables
unfolding change_or_push remove
restore name none vars = remove name vars
restore name (some var) vars = change_or_push name (λ _. var) var vars

-- One round of `from_pairs`, which marks what it has just set.
abbrev mark_exported : Bytes → Variables → Variables
mark_exported name [] = []
mark_exported name (v ∷ vars) =
    if bytes_eq v.name name
    then record v { exported = true } ∷ vars
    else v ∷ mark_exported name vars

unfoldable pub from_pairs_loop : List (Bytes × Bytes) → Variables → Variables
unfolding set_bytes bytes_eq
from_pairs_loop [] out = out
from_pairs_loop ((name, value) ∷ pairs) out =
    from_pairs_loop pairs (mark_exported name (set_bytes name value out))

unfoldable pub from_pairs : List (Bytes × Bytes) → Variables
unfolding from_pairs_loop
from_pairs pairs = from_pairs_loop pairs []
