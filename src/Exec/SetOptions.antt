-- ===== src/Exec/SetOptions.antt =====
-- `set` of builtins/variables.rs.
use oh_my_shell.Base.{
  ◌-◌, Bytes, Bool, true, false, Option, none, some, List, [], ◌∷◌, ◌++◌, ◌==◌, if◌then◌else◌,
  codes, bytes_eq, length, replicate, any,
}
use oh_my_shell.Builtins.{quote, sorted}
use oh_my_shell.Flow.{Status, success, usage}
use oh_my_shell.Io.{Io}
use oh_my_shell.Options
use oh_my_shell.Options.{Options, names, named, set_letter}
use oh_my_shell.Vars.{Variables}
use oh_my_shell.Exec.{Host, Eval, pure, gets, modify, ◌>>=◌, ◌>>◌}
use oh_my_shell.Exec.Declare.{emit}

-- Without arguments: the variables that have a value.
abbrev pub set_line : Bytes → Option Bytes → Bytes
set_line name none = []
set_line name (some value) = name ++ b'=' ∷ quote value ++ 0x0A ∷ []

unfoldable pub set_lines : Variables → Bytes
unfolding quote
set_lines [] = []
set_lines (v ∷ vars) = set_line v.name v.value ++ set_lines vars

-- Where the arguments stand: between two of them, or at an `o` whose name is the next argument, with the
-- letters behind it.
pub data Place : Type 0 where
  between : Place
  naming : Bool → Bytes → Place

-- What the letters of one argument end in.
pub data Letters : Type 0 where
  finished : Options → Letters
  wants_name : Bytes → Options → Letters
  unknown : Letters

-- What all arguments end in: the options, and the new positional parameters if there are any; the list of
-- options (a table or not); or an option that is not supported.
pub data SetResult : Type 0 where
  changed : Options → Option (List Bytes) → SetResult
  listing : Options → Bool → SetResult
  unsupported : SetResult

abbrev pub or_unknown : (Options → Letters) → Bool × Options → Letters
or_unknown others (true, o) = others o
or_unknown others (false, o) = unknown

-- The loop over the letters of an argument.
unfoldable pub letters : Options → Bool → Bytes → Letters
unfolding set_letter
letters o on [] = finished o
letters o on (b ∷ rest) =
    if b == b'o'
    then wants_name rest o
    else or_unknown (λ next. letters next on rest) (set_letter b on o)

-- `set_named` of variables.rs: the names that there are and those that can be set.
unfoldable pub set_named : Options → Bytes → Bool → Bool × Options
unfolding bytes_eq Options.set_named
set_named o name on =
    if any (λ n. bytes_eq n name) names then Options.set_named name on o else (false, o)

abbrev pub next_place : (Place → Options → SetResult) → Bool → Letters → SetResult
next_place others on (finished o) = others between o
next_place others on (wants_name rest o) = others (naming on rest) o
next_place others on unknown = unsupported

-- The sign of an argument that holds options.
abbrev pub sign_of : Bytes → Option Bool
sign_of [] = none
sign_of (b ∷ []) = none
sign_of (b ∷ c ∷ rest) = if b == b'-' then some true else if b == b'+' then some false else none

abbrev pub after_sign : Bytes → Bytes
after_sign [] = []
after_sign (b ∷ rest) = rest

abbrev pub with_sign :
    (Place → Options → SetResult) → Options → Bytes → List Bytes → Option Bool → SetResult
with_sign others o arg rest none = changed o (some (arg ∷ rest))
with_sign others o arg rest (some on) = next_place others on (letters o on (after_sign arg))

abbrev pub unless_empty : List Bytes → Option (List Bytes)
unless_empty [] = none
unless_empty (arg ∷ rest) = some (arg ∷ rest)

abbrev pub named_letters : Bool → Bytes → Bool × Options → Letters
named_letters on rest (true, o) = letters o on rest
named_letters on rest (false, o) = unknown

-- The loop of `set` over the arguments.
unfoldable pub set_loop : Place → Options → List Bytes → SetResult
unfolding bytes_eq letters set_named
set_loop between o [] = changed o none
set_loop between o (arg ∷ rest) =
    if bytes_eq arg (codes "--")
    then changed o (some rest)
    else if bytes_eq arg (codes "-")
    then changed (record o { xtrace = false }) (unless_empty rest)
    else with_sign (λ place next. set_loop place next rest) o arg rest (sign_of arg)
set_loop (naming on more) o [] = listing o on
set_loop (naming on more) o (name ∷ rest) =
    next_place (λ place next. set_loop place next rest) on
      (named_letters on more (set_named o name on))

-- `list_options`
abbrev pub padded : Bytes → Bytes
padded name = name ++ replicate (16 - length name) 0x20

abbrev pub is_on : Bool → Options → Bytes → Bool
is_on interactive o name =
    if bytes_eq name (codes "interactive")
    then interactive
    else if bytes_eq name (codes "stdin")
    then true
    else named name o

abbrev pub option_line : Bool → Bool → Bytes → Bytes
option_line true on name = padded name ++ (if on then codes "on" else codes "off") ++ 0x0A ∷ []
option_line false on name =
    codes "set " ++ (if on then codes "-o " else codes "+o ") ++ name ++ 0x0A ∷ []

unfoldable pub option_lines : Bool → Bool → Options → List Bytes → Bytes
unfolding bytes_eq named
option_lines table interactive o [] = []
option_lines table interactive o (name ∷ rest) =
    option_line table (is_on interactive o name) name ++ option_lines table interactive o rest

unfoldable pub list_options : Bool → Bool → Options → Bytes
unfolding option_lines
list_options table interactive o =
    (if table then codes "Current option settings\n" else [])
    ++ option_lines table interactive o names

abbrev pub new_positional : Option (List Bytes) → List Bytes → List Bytes
new_positional none old = old
new_positional (some args) old = args

abbrev pub set_result : {W : Type 0} → Host W → Io → SetResult → Eval W Status
set_result host io (changed o args) = do
  modify (λ s. record s { options = o; positional = new_positional args s.positional })
  pure success
set_result host io (listing o table) =
    gets (λ s. list_options table s.interactive o) >>= λ text. emit host 1 text io
set_result host io unsupported = pure usage

-- `set`
unfoldable pub set : {W : Type 0} → Host W → List Bytes → Io → Eval W Status
unfolding set_lines sorted emit set_loop list_options
set host [] io = gets (λ s. set_lines (sorted s.vars)) >>= λ text. emit host 1 text io
set host (arg ∷ args) io =
    gets (λ s. set_loop between s.options (arg ∷ args)) >>= set_result host io
