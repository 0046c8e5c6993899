-- ===== src/Vars/Environment/Laws.antt =====
-- `envp` as a program reads it: with a search for the first string that starts with the name and `=`.
use oh_my_shell.Base.{
  Bytes, Bool, true, false, not, ◌&&◌, Option, none, some, List, [], ◌∷◌, ◌++◌, ◌≡◌, refl, ◌∙◌,
  ◌==◌, if◌then◌else◌, any, all, bytes_eq, bytes_eq_iff, arith,
}
use oh_my_shell.Vars.{Variable, Variables, find_var}
use oh_my_shell.Vars.Unique.{Unique}
use oh_my_shell.Vars.Environment.{
  Overrides, last_override, has_name, push_value, push_entry, push_variables, push_overrides, envp,
}

-- What follows `name=` in a string that starts so.
unfoldable pub after_name : Bytes → Bytes → Option Bytes
after_name [] [] = none
after_name [] (b ∷ rest) = if b == b'=' then some rest else none
after_name (a ∷ name) [] = none
after_name (a ∷ name) (b ∷ rest) = if a == b then after_name name rest else none

abbrev pub or_else : Option Bytes → Option Bytes → Option Bytes
or_else none y = y
or_else (some x) y = some x

-- `getenv` of a C program.
unfoldable pub getenv : Bytes → List Bytes → Option Bytes
unfolding after_name
getenv name [] = none
getenv name (entry ∷ entries) = or_else (after_name name entry) (getenv name entries)

-- A name that an assignment can have holds neither `=` nor a NUL byte.
abbrev pub is_plain : Bytes → Bool
is_plain name = all (λ b. not (b == b'=') && not (b == 0)) name

-- A value with a NUL byte cannot be passed on.
abbrev pub passable : Option Bytes → Option Bytes
passable none = none
passable (some value) = if any (λ b. b == 0) value then none else some value

abbrev pub exported_value : Option Variable → Option Bytes
exported_value none = none
exported_value (some v) = if v.exported then v.value else none

after_name-entry :
    (n m value : Bytes)
    → is_plain n ≡ true
    → is_plain m ≡ true
    → after_name n (m ++ b'=' ∷ value) ≡ (if bytes_eq m n then some value else none)
unfolding after_name bytes_eq
after_name-entry [] [] value p q = refl
after_name-entry [] (b ∷ m) value p q = ground arith
after_name-entry (a ∷ n) [] value p q = ground arith
after_name-entry (a ∷ n) (b ∷ m) value p q = ground (arith, after_name-entry n m value)

has_nul-entry :
    (m value : Bytes)
    → is_plain m ≡ true
    → any (λ b. b == 0) (m ++ b'=' ∷ value) ≡ any (λ b. b == 0) value
has_nul-entry [] value q = ground arith
has_nul-entry (b ∷ m) value q = ground (arith, has_nul-entry m value)

getenv-append :
    (n : Bytes) (xs ys : List Bytes) → getenv n (xs ++ ys) ≡ or_else (getenv n xs) (getenv n ys)
unfolding getenv
getenv-append n [] ys = refl
getenv-append n (x ∷ xs) ys = ground (arith, getenv-append n xs ys)

getenv-push_entry :
    (n m value : Bytes)
    → is_plain n ≡ true
    → is_plain m ≡ true
    → getenv n (push_entry m value) ≡ (if bytes_eq m n then passable (some value) else none)
unfolding getenv push_entry
getenv-push_entry n m value p q =
    ground (arith, after_name-entry n m value p q, has_nul-entry m value q)

-- A name is overridden exactly if some assignment has it.
any-last_override :
    (n : Bytes) (o : Overrides)
    → any (has_name n) o
      ≡ (elim (last_override n o) as (λ _. Bool) [ none ↦ false | some _ ↦ true ])
unfolding last_override
any-last_override n [] = refl
any-last_override n ((m, v) ∷ o) = ground (arith, any-last_override n o)

module _ (n : Bytes) (plain : is_plain n ≡ true) where
  getenv-unless :
      (b : Bool) (m v : Bytes)
      → is_plain m ≡ true
      → getenv n (if b then [] else push_entry m v)
        ≡ (if not b && bytes_eq m n then passable (some v) else none)
  getenv-unless true m v q = unfold getenv in refl
  getenv-unless false m v q = getenv-push_entry n m v plain q

  getenv-if :
      (b : Bool) (m : Bytes) (value : Option Bytes)
      → is_plain m ≡ true
      → getenv n (if b then push_value m value else [])
        ≡ (if b && bytes_eq m n then passable value else none)
  getenv-if false m value q = unfold getenv in refl
  getenv-if true m none q = unfold getenv in ground arith
  getenv-if true m (some v) q = getenv-push_entry n m v plain q

  getenv-push_overrides :
      (o : Overrides)
      → all (λ p. is_plain p.0) o ≡ true
      → getenv n (push_overrides o) ≡ passable (last_override n o)
  unfolding push_overrides last_override
  getenv-push_overrides [] q = unfold getenv in refl
  getenv-push_overrides ((m, v) ∷ o) q =
      rw
        (
          getenv-append n (if any (has_name m) o then [] else push_entry m v) (push_overrides o),
          getenv-unless (any (has_name m) o) m v (ground arith),
        )
        (ground (
          arith,
          any-last_override m o,
          any-last_override n o,
          bytes_eq_iff m n,
          getenv-push_overrides o,
        ))

  getenv-push_variables :
      (o : Overrides) (vars : Variables)
      → Unique vars
      → all (λ v. is_plain v.name) vars ≡ true
      → getenv n (push_variables o vars)
        ≡ (if any (has_name n) o then none else passable (exported_value (find_var n vars)))
  unfolding push_variables find_var
  getenv-push_variables o [] u q = unfold getenv in ground arith
  getenv-push_variables o (v ∷ vars) (fresh, u) q =
      rw
        (
          getenv-append n
              (if v.exported && not (any (has_name v.name) o)
                then push_value v.name v.value
                else [])
              (push_variables o vars),
          getenv-if (v.exported && not (any (has_name v.name) o)) v.name v.value (ground arith),
        )
        (ground (arith, bytes_eq_iff v.name n, getenv-push_variables o vars u))

-- Where the names of the table are distinct and no name, asked for, in the table or in front of the
-- command, has a `=` or NUL, `getenv` of a name in what a program receives gives the value of the last assignment of that
-- name in front of the command, or else the value of the variable if it is exported and has one; a value with
-- a NUL byte is left out, so that there is nothing.
pub getenv-envp :
    (n : Bytes) (o : Overrides) (vars : Variables)
    → Unique vars
    → is_plain n ≡ true
    → all (λ p. is_plain p.0) o ≡ true
    → all (λ v. is_plain v.name) vars ≡ true
    → getenv n (envp o vars)
      ≡ passable (or_else (last_override n o) (exported_value (find_var n vars)))
unfolding envp
getenv-envp n o vars u p q r =
    getenv-append n (push_variables o vars) (push_overrides o)
    ∙ ground (
      arith,
      getenv-push_variables n p o vars u r,
      getenv-push_overrides n p o q,
      any-last_override n o,
    )
