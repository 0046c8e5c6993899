-- ===== src/Pattern/Matching.antt =====
-- `Pattern::matches`: the loop that goes back to the last star only.
use oh_my_shell.Base.{
  ℕ, zero, suc, ◌+◌, ◌*◌, Bytes, Bool, false, Option, none, some, [], ◌∷◌, if◌then◌else◌, length,
  all,
}
use oh_my_shell.Chars.{unit_at, after_unit}
use oh_my_shell.Pattern.{any_many, Pattern, takes, is_many}

-- The variable `star`: the items after the last star, and the text from where its share ends.
abbrev pub Star : Type 0
Star = Option (Pattern × Bytes)

-- What the loop does when a character does not fit: the star takes one character more. The
-- text of a star is never used up there, so the empty case is not met.
unfoldable pub retry : Star → (Pattern → Bytes → Star → Option Bool) → Option Bool
retry none next = some false
retry (some (items, [])) next = some false
retry (some (items, b ∷ text)) next =
    next items (after_unit b text) (some (items, after_unit b text))

-- The loop at the items from `pi` on and the text from `ti` on; `none`: out of fuel.
unfoldable pub matches_loop : ℕ → Pattern → Bytes → Star → Option Bool
matches_loop zero items text star = none
matches_loop (suc f) items [] star = some (all is_many items)
matches_loop (suc f) (any_many ∷ items) (b ∷ text) star =
    matches_loop f items (b ∷ text) (some (items, b ∷ text))
matches_loop (suc f) [] (b ∷ text) star = retry star (matches_loop f)
matches_loop (suc f) (item ∷ items) (b ∷ text) star =
    let next = matches_loop f items (after_unit b text) star in
    if takes item (unit_at b text).0 then next else retry star (matches_loop f)

abbrev pub matches_fuel : Pattern → Bytes → ℕ
matches_fuel items text = (length text + 1) * (length items + 1)

unfoldable pub matches : Pattern → Bytes → Option Bool
unfolding matches_loop retry takes
matches items text = matches_loop (matches_fuel items text) items text none

-- The Boolean that `matches` returns.
unfoldable pub is_match : Pattern → Bytes → Bool
unfolding matches
is_match p text = elim (matches p text) [ none ↦ false | some b ↦ b ]
