-- ===== src/Pattern/Meaning.antt =====
-- What it is for a text, as characters, to match a pattern: no search order, no going back.
use oh_my_shell.Base.{ℕ, true, false, List, [], ◌∷◌, ◌≡◌, refl, ◌↔◌, all}
use oh_my_shell.Pattern.{Item, char, any_one, any_many, set, Pattern, takes, is_many}

pub data Matches : Pattern → List ℕ → Type 0 where
  nothing : Matches [] []
  fits :
      {item : Item} {items : Pattern} {u : ℕ} {us : List ℕ}
      → takes item u ≡ true
      → Matches items us
      → Matches (item ∷ items) (u ∷ us)
  stop : {items : Pattern} {us : List ℕ} → Matches items us → Matches (any_many ∷ items) us
  more :
      {items : Pattern} {u : ℕ} {us : List ℕ}
      → Matches (any_many ∷ items) us
      → Matches (any_many ∷ items) (u ∷ us)

-- A star takes nothing as a single item.
not-takes-many : (u : ℕ) → takes any_many u ≡ true → ⊥
unfolding takes
not-takes-many u h = cc

module _ {items : Pattern} where
  pub stop_inv : Matches (any_many ∷ items) [] → Matches items []
  stop_inv (stop m) = m

  pub fits_inv :
      {item : Item} {u : ℕ} {us : List ℕ}
      → is_many item ≡ false
      → Matches (item ∷ items) (u ∷ us)
      → (takes item u ≡ true) × Matches items us
  fits_inv e (fits h m) = (h, m)
  fits_inv e (stop m) = cc
  fits_inv e (more m) = cc

  -- If the star may not stop here, it takes the character.
  pub more_inv :
      {u : ℕ} {us : List ℕ}
      → ¬ Matches items (u ∷ us)
      → Matches (any_many ∷ items) (u ∷ us)
      → Matches (any_many ∷ items) us
  more_inv no_stop (fits h m) = absurd (not-takes-many _ h)
  more_inv no_stop (stop m) = absurd (no_stop m)
  more_inv no_stop (more m) = m

  pub join_stars :
      (us : List ℕ) → Matches (any_many ∷ any_many ∷ items) us → Matches (any_many ∷ items) us
  join_stars us (stop m) = m
  join_stars us (fits h m) = absurd (not-takes-many _ h)
  join_stars us (more m) = more (join_stars _ m)

  not-at-end : {item : Item} → is_many item ≡ false → ¬ Matches (item ∷ items) []
  not-at-end e (stop m) = cc

  -- A star before an item: wherever the item fits later, its rest begins after the first character.
  pub skip_item :
      {item : Item} (u : ℕ) (us : List ℕ)
      → is_many item ≡ false
      → Matches (any_many ∷ item ∷ items) (u ∷ us)
      → Matches (any_many ∷ items) us
  skip_item u us e (fits h m) = absurd (not-takes-many _ h)
  skip_item u us e (stop m) = stop (fits_inv e m).1
  skip_item u [] e (more (stop m)) = absurd (not-at-end e m)
  skip_item u (v ∷ us) e (more m) = more (skip_item v us e m)

all_many→Matches : (items : Pattern) → all is_many items ≡ true → Matches items []
all_many→Matches [] h = nothing
all_many→Matches (any_many ∷ items) h = stop (all_many→Matches items h)
all_many→Matches (char c ∷ items) h = cc
all_many→Matches (any_one ∷ items) h = cc
all_many→Matches (set s ∷ items) h = cc

Matches→all_many : {items : Pattern} → Matches items [] → all is_many items ≡ true
Matches→all_many nothing = refl
Matches→all_many (stop m) = Matches→all_many m

-- The end of the text is matched by stars alone.
pub all_many_iff : (items : Pattern) → (all is_many items ≡ true) ↔ Matches items []
all_many_iff items = (all_many→Matches items, Matches→all_many)
