-- ===== src/Io.antt =====
-- crates/omsh-exec/src/io.rs: the table of open files of a command. A `Slot`, which is a shared
-- pointer, is a number that stands for the open file; the keys of a table are in increasing order.
pub mod Changes
pub mod Plan
use oh_my_shell.Base.{
  ℕ, suc, ◌+◌, Bool, true, false, not, Option, none, some, List, [], ◌∷◌, ◌++◌, ◌==◌, ltb,
  if◌then◌else◌,
}

abbrev pub Slot : Type 0
Slot = ℕ

-- `Io`
abbrev pub Io : Type 0
Io = List (ℕ × Slot)

-- `get`, and `BTreeMap::get`
unfoldable pub get : ℕ → Io → Option Slot
get fd [] = none
get fd ((k, slot) ∷ io) = if k == fd then some slot else get fd io

-- `set`
unfoldable pub set : ℕ → Slot → Io → Io
set fd slot [] = (fd, slot) ∷ []
set fd slot ((k, old) ∷ io) =
    if k == fd
    then (fd, slot) ∷ io
    else if ltb fd k
    then (fd, slot) ∷ (k, old) ∷ io
    else (k, old) ∷ set fd slot io

-- `close`
unfoldable pub close : ℕ → Io → Io
close fd [] = []
close fd ((k, slot) ∷ io) = if k == fd then io else (k, slot) ∷ close fd io

-- The changes that `diff` finds and `apply` makes.
abbrev pub Change : Type 0
Change = ℕ × Option Slot

abbrev pub is_other : Option Slot → Slot → Bool
is_other none slot = true
is_other (some old) slot = not (old == slot)

-- The first loop of `diff`, over the entries of the new table.
unfoldable pub changed : Io → Io → List Change
unfolding get
changed [] base = []
changed ((fd, slot) ∷ io) base =
    let rest = changed io base in
    if is_other (get fd base) slot then (fd, some slot) ∷ rest else rest

abbrev pub is_open : Option Slot → Bool
is_open none = false
is_open (some _) = true

-- The second loop of `diff`, over the entries of the base.
unfoldable pub closed : Io → Io → List Change
unfolding get
closed [] io = []
closed ((fd, slot) ∷ base) io =
    let rest = closed base io in if is_open (get fd io) then rest else (fd, none) ∷ rest

-- `diff`
unfoldable pub diff : Io → Io → List Change
unfolding changed closed
diff io base = changed io base ++ closed base io

abbrev pub change : Change → Io → Io
change (fd, some slot) io = set fd slot io
change (fd, none) io = close fd io

-- `apply`
unfoldable pub apply : List Change → Io → Io
unfolding set close
apply [] io = io
apply (c ∷ cs) io = apply cs (change c io)
