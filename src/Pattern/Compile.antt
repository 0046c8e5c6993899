-- ===== src/Pattern/Compile.antt =====
-- `Pattern::new`, `parse_set` and `find_class_end`. The slices `text` and `active`, which are as long
-- as each other, are one list of marked bytes, and an offset is the list from there on.
use oh_my_shell.Base.{
  ℕ, zero, suc, Bytes, Bool, true, false, not, ◌&&◌, ◌||◌, Option, none, some, List, [], ◌∷◌, ◌++◌,
  ◌==◌, if◌then◌else◌, length, drop,
}
use oh_my_shell.Base.Run.{Run, done, out_of_fuel, ◌>>=◌}
use oh_my_shell.Chars.{unit_at}
use oh_my_shell.Pattern.{
  from_name, Member, one, range, class, Set, Item, char, any_one, any_many, set, Pattern, is_many,
}

-- A byte, and whether it may act as a pattern character.
abbrev pub Marked : Type 0
Marked = List (ℕ × Bool)

unfoldable pub text_of : Marked → Bytes
text_of [] = []
text_of ((b, a) ∷ m) = b ∷ text_of m

-- `unit_at(&text[i..])` and the offset after it.
abbrev pub marked_unit : ℕ → Marked → ℕ
marked_unit b rest = (unit_at b (text_of rest)).0

abbrev pub after_marked : ℕ → Bool → Marked → Marked
after_marked b a rest = drop (unit_at b (text_of rest)).1 ((b, a) ∷ rest)

-- The text up to the next `:]`, and what follows that.
unfoldable pub find_class_end : Marked → Option (Bytes × Marked)
find_class_end [] = none
find_class_end (c ∷ []) = none
find_class_end (c ∷ d ∷ rest) =
    if (c.0 == b':') && (d.0 == b']') then some ([], rest) else elim (find_class_end (d ∷ rest)) [
      | none ↦ none
      | some (name, after) ↦ some (c.0 ∷ name, after)
    ]

-- `[:name:]`, of which the `[` was read; only that one has to be active.
abbrev pub class_name : Option (Bytes × Marked) → Option (Member × Marked)
class_name none = none
class_name (some (name, after)) = elim (from_name name) [
  | none ↦ none
  | some k ↦ some (class k, after)
]

unfoldable pub parse_class : Marked → Option (Member × Marked)
unfolding find_class_end from_name
parse_class [] = none
parse_class ((c, _) ∷ rest) = if c == b':' then class_name (find_class_end rest) else none

-- A character or a range; `low` was read, and the text goes on with `rest`.
unfoldable pub parse_range : ℕ → Marked → Member × Marked
parse_range low [] = (one low, [])
parse_range low (m ∷ []) = (one low, m ∷ [])
parse_range low ((m, am) ∷ (h, ah) ∷ rest) =
    if am && ((m == b'-') && not (ah && h == b']'))
    then (range low (marked_unit h rest), after_marked h ah rest)
    else (one low, (m, am) ∷ (h, ah) ∷ rest)

unfoldable pub parse_member : ℕ → Bool → Marked → Member × Marked
unfolding parse_class parse_range text_of
parse_member b a rest = elim (if a && b == b'[' then parse_class rest else none) [
  | some found ↦ found
  | none ↦ parse_range (marked_unit b rest) (after_marked b a rest)
]

-- The loop of `parse_set`; `none`: there is no closing `]`.
unfoldable pub set_loop : ℕ → Bool → Bool → List Member → Marked → Run (Option (Set × Marked))
set_loop f negate first members [] = done none
set_loop zero negate first members (c ∷ rest) = out_of_fuel
set_loop (suc f) negate first members ((b, a) ∷ rest) =
    let (member, after) = parse_member b a rest in
    let more = set_loop f negate false (members ++ member ∷ []) after in
    if a && ((b == b']') && not first)
    then done (some (record { negate = negate; members = members }, rest))
    else more

-- A first `!` or `^`.
unfoldable pub parse_negate : Marked → Bool × Marked
parse_negate [] = (false, [])
parse_negate ((b, a) ∷ rest) =
    if a && (b == b'!' || b == b'^') then (true, rest) else (false, (b, a) ∷ rest)

unfoldable pub parse_set : Marked → Run (Option (Set × Marked))
unfolding parse_negate set_loop parse_member
parse_set text =
    let (negate, rest) = parse_negate text in set_loop (length rest) negate true [] rest

-- `items.push(AnyMany)`, unless the last item is one.
unfoldable pub push_many : Pattern → Pattern
push_many [] = any_many ∷ []
push_many (item ∷ []) = if is_many item then item ∷ [] else item ∷ any_many ∷ []
push_many (item ∷ next ∷ items) = item ∷ push_many (next ∷ items)

-- After a `[`: the set, or an ordinary `[`.
abbrev pub set_or_char : Marked → Option (Set × Marked) → Item × Marked
set_or_char rest none = (char b'[', rest)
set_or_char rest (some (s, after)) = (set s, after)

-- One round of the loop of `Pattern::new`: the items so far, with the next one, and the text left.
unfoldable pub compile_step : ℕ → Bool → Marked → Pattern → Run (Pattern × Marked)
unfolding parse_set push_many text_of
compile_step b a rest items =
    if not a
    then done (items ++ char (marked_unit b rest) ∷ [], after_marked b a rest)
    else if b == b'*'
    then done (push_many items, rest)
    else if b == b'?'
    then done (items ++ any_one ∷ [], rest)
    else if b == b'['
    then (do
      found ← parse_set rest
      let (item, after) = set_or_char rest found
      done (items ++ item ∷ [], after))
    else done (items ++ char (marked_unit b rest) ∷ [], after_marked b a rest)

unfoldable pub compile_loop : ℕ → Marked → Pattern → Run Pattern
compile_loop f [] items = done items
compile_loop zero (c ∷ rest) items = out_of_fuel
compile_loop (suc f) ((b, a) ∷ rest) items = do
  (items', after) ← compile_step b a rest items
  compile_loop f after items'

-- `Pattern::new`
unfoldable pub compile : Marked → Run Pattern
unfolding compile_loop compile_step
compile text = compile_loop (length text) text []
