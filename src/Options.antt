-- ===== src/Options.antt =====
-- crates/omsh-exec/src/options.rs: the options of `set`.
pub mod Laws
use oh_my_shell.Base.{
  ℕ, Bytes, Bool, true, false, ◌||◌, Option, none, some, List, [], ◌∷◌, ◌++◌, ◌==◌, if◌then◌else◌,
  any, codes, bytes_eq,
}

pub record Options : Type 0 where
  pub errexit : Bool
  pub nounset : Bool
  pub xtrace : Bool
  pub noglob : Bool
  pub noclobber : Bool
  pub pipefail : Bool

-- `NAMES`
abbrev pub names : List Bytes
names =
    codes "errexit"
    ∷ codes "noglob"
    ∷ codes "ignoreeof"
    ∷ codes "interactive"
    ∷ codes "monitor"
    ∷ codes "noexec"
    ∷ codes "stdin"
    ∷ codes "xtrace"
    ∷ codes "verbose"
    ∷ codes "vi"
    ∷ codes "emacs"
    ∷ codes "noclobber"
    ∷ codes "allexport"
    ∷ codes "notify"
    ∷ codes "nounset"
    ∷ codes "privileged"
    ∷ codes "nolog"
    ∷ codes "pipefail"
    ∷ codes "debug"
    ∷ []

-- What is returned, and the options that are left.
unfoldable pub set_letter : ℕ → Bool → Options → Bool × Options
set_letter letter on o =
    if letter == b'e'
    then (true, record o { errexit = on })
    else if letter == b'u'
    then (true, record o { nounset = on })
    else if letter == b'x'
    then (true, record o { xtrace = on })
    else if letter == b'f'
    then (true, record o { noglob = on })
    else if letter == b'C'
    then (true, record o { noclobber = on })
    else (false, o)

unfoldable pub letter_of : Bytes → Option ℕ
unfolding bytes_eq
letter_of name =
    if bytes_eq name (codes "errexit")
    then some b'e'
    else if bytes_eq name (codes "noglob")
    then some b'f'
    else if bytes_eq name (codes "noclobber")
    then some b'C'
    else if bytes_eq name (codes "nounset")
    then some b'u'
    else if bytes_eq name (codes "xtrace")
    then some b'x'
    else none

abbrev pub set_known : Option ℕ → Bool → Options → Bool × Options
set_known none on o = (false, o)
set_known (some letter) on o = set_letter letter on o

unfoldable pub set_named : Bytes → Bool → Options → Bool × Options
unfolding bytes_eq letter_of set_letter
set_named name on o =
    if bytes_eq name (codes "pipefail")
    then (true, record o { pipefail = on })
    else set_known (letter_of name) on o

unfoldable pub letter : ℕ → Options → Bool
letter l o =
    if l == b'e'
    then o.errexit
    else if l == b'u'
    then o.nounset
    else if l == b'x'
    then o.xtrace
    else if l == b'f'
    then o.noglob
    else if l == b'C'
    then o.noclobber
    else false

abbrev pub known : Option ℕ → Options → Bool
known none o = false
known (some l) o = letter l o

unfoldable pub named : Bytes → Options → Bool
unfolding bytes_eq letter_of letter
named name o = if bytes_eq name (codes "pipefail") then o.pipefail else known (letter_of name) o

-- One round of the loop of `dollar_dash`.
abbrev shown : Options → ℕ → Bytes → Bytes
shown o l out = if letter l o then l ∷ out else out

unfoldable pub dollar_dash : Options → Bool → Bytes
unfolding letter
dollar_dash o interactive = shown o b'u' (
    shown o b'C' (
      shown o b'x' (
        b's'
        ∷ (if interactive
            then b'i' ∷ shown o b'f' (shown o b'e' [])
            else shown o b'f' (shown o b'e' [])))))
