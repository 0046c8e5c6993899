-- ===== src/Split.antt =====
-- crates/omsh-exec/src/expand/split.rs, and `Kind` and `Field` of expand/mod.rs: field splitting. The
-- vectors `bytes` and `kinds` of a field, which are as long as each other, are one list of marked bytes.
pub mod Kept
use oh_my_shell.Base.{
  ℕ, zero, suc, Bytes, Bool, true, false, not, ◌&&◌, ◌||◌, Option, none, some, List, [], ◌∷◌, ◌++◌,
  ◌==◌, if◌then◌else◌, length, take, drop, any, find, is_empty, codes, bytes_eq,
}
use oh_my_shell.Base.Run.{Run, done, out_of_fuel, ◌>>=◌}
use oh_my_shell.Chars.{unit_at, after_unit}

pub data Kind : Type 0 where
  literal quoted expanded : Kind

abbrev pub is_expanded : Kind → Bool
is_expanded expanded = true
is_expanded _ = false

abbrev pub is_quoted : Kind → Bool
is_quoted quoted = true
is_quoted _ = false

abbrev pub Marks : Type 0
Marks = List (ℕ × Kind)

pub record Field : Type 0 where
  pub marks : Marks
  pub forced : Bool

-- `Field::default()` and `empty_field()`
abbrev pub new_field : Field
new_field = record { marks = []; forced = false }

abbrev pub empty_field : Field
empty_field = record { marks = []; forced = true }

pub record Delimiter : Type 0 where
  pub bytes : Bytes
  pub whitespace : Bool

unfoldable pub is_blank : Bytes → Bool
unfolding bytes_eq
is_blank bytes =
    bytes_eq bytes (b' ' ∷ []) || (bytes_eq bytes (b'\t' ∷ []) || bytes_eq bytes (b'\n' ∷ []))

abbrev pub delimiter : Bytes → Delimiter
delimiter bytes = record { bytes = bytes; whitespace = is_blank bytes }

-- The loop of `delimiters`, on fuel: a round for each byte is enough.
unfoldable pub delimiters_loop : ℕ → Bytes → List Delimiter
unfolding is_blank unit_at
delimiters_loop f [] = []
delimiters_loop zero (b ∷ rest) = []
delimiters_loop (suc f) (b ∷ rest) =
    delimiter (take (unit_at b rest).1 (b ∷ rest)) ∷ delimiters_loop f (after_unit b rest)

unfoldable pub delimiters : Bytes → List Delimiter
unfolding delimiters_loop
delimiters ifs = delimiters_loop (length ifs) ifs

-- The text goes on with `bytes`, all of which came from an expansion.
unfoldable pub begins_with : Bytes → Marks → Bool
begins_with [] marks = true
begins_with (d ∷ bytes) [] = false
begins_with (d ∷ bytes) ((b, k) ∷ marks) = (b == d) && (is_expanded k && begins_with bytes marks)

-- The delimiter at the start of the text.
unfoldable pub delimiter_at : List Delimiter → Marks → Option Delimiter
unfolding begins_with
delimiter_at delims [] = none
delimiter_at delims ((b, k) ∷ marks) =
    if is_expanded k then find (λ d. begins_with d.bytes ((b, k) ∷ marks)) delims else none

-- The variables of the loop of `split`.
pub record State : Type 0 where
  pub out : List Field
  pub current : Option Field
  pub closed_by_space : Bool

abbrev pub or_empty : Option Field → Field
or_empty none = empty_field
or_empty (some f) = f

-- Whitespace ends a field, if there is one.
abbrev pub close_field : Option Field → State → State
close_field none s = s
close_field (some f) s = record { out = s.out ++ f ∷ []; current = none; closed_by_space = true }

unfoldable pub separate : Delimiter → State → State
separate d s =
    if d.whitespace
    then close_field s.current s
    else if s.closed_by_space
    then record s { closed_by_space = false }
    else record s { out = s.out ++ or_empty s.current ∷ []; current = none }

abbrev pub or_new : Option Field → Field
or_new none = new_field
or_new (some f) = f

abbrev pub push_to : ℕ × Kind → Field → Field
push_to (b, k) f = record { marks = f.marks ++ (b, k) ∷ []; forced = f.forced || is_quoted k }

unfoldable pub push_mark : ℕ × Kind → State → State
push_mark m s = record s { current = some (push_to m (or_new s.current)); closed_by_space = false }

abbrev pub round :
    (Marks → State → Run State) → ℕ × Kind → Marks → Option Delimiter → State → Run State
round loop m rest none s = loop rest (push_mark m s)
round loop m rest (some d) s = loop (drop (length d.bytes) (m ∷ rest)) (separate d s)

unfoldable pub split_loop : ℕ → List Delimiter → Marks → State → Run State
unfolding delimiter_at separate push_mark
split_loop f delims [] s = done s
split_loop zero delims (m ∷ rest) s = out_of_fuel
split_loop (suc f) delims (m ∷ rest) s =
    round (split_loop f delims) m rest (delimiter_at delims (m ∷ rest)) s

-- `out.extend(current)`
abbrev pub extend : List Field → Option Field → List Field
extend out none = out
extend out (some f) = out ++ f ∷ []

abbrev pub keep_forced : Bool → List Field → List Field
keep_forced forced [] = if forced then empty_field ∷ [] else []
keep_forced forced (f ∷ fs) = f ∷ fs

abbrev pub start : State
start = record { out = []; current = none; closed_by_space = false }

unfoldable pub split_at : Field → List Delimiter → Run (List Field)
unfolding split_loop
split_at field delims = split_loop (length field.marks) delims field.marks start >>= λ s.
    done (keep_forced field.forced (extend s.out s.current))

unfoldable pub split : Field → Bytes → Run (List Field)
unfolding delimiters split_at
split field ifs =
    if is_empty ifs || not (any (λ m. is_expanded m.1) field.marks)
    then done (if is_empty field.marks && not field.forced then [] else field ∷ [])
    else split_at field (delimiters ifs)
