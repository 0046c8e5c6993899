-- ===== src/Pattern/Decide.antt =====
-- `Pattern::matches` against the meaning of a pattern, and its fuel.
use oh_my_shell.Base.{
  ℕ, zero, suc, ◌+◌, ◌*◌, ◌≤◌, ◌<◌, Bytes, Bool, true, false, Option, none, some, List, [], ◌∷◌,
  ◌≡◌, refl, ◌↔◌, inl, inr, Bool-cases, if◌then◌else◌, length, all, arith,
}
use oh_my_shell.Chars.{unit_at, after_unit, units}
use oh_my_shell.Chars.Decode.{units-cons, units-nil, after_unit_lt}
use oh_my_shell.Pattern.{Item, char, any_one, any_many, set, Pattern, takes, is_many}
use oh_my_shell.Pattern.Matching.{Star, retry, matches_loop, matches_fuel, matches, is_match}
use oh_my_shell.Pattern.Meaning.{
  Matches, fits, stop, more, fits_inv, more_inv, join_stars, skip_item, all_many_iff,
}

-- The run ended with an answer, and the answer is the truth about `G`.
abbrev pub Answers : Type 0 → Option Bool → Type 0
Answers G none = ⊥
Answers G (some true) = G
Answers G (some false) = ¬ G

Answers-some : {G : Type 0} (b : Bool) → (b ≡ true → G) → (G → b ≡ true) → Answers G (some b)
Answers-some true sound complete = sound refl
Answers-some false sound complete = λ g. cc (complete g)

-- `G` is the question that the loop was started with; no pattern in play has `k` items.
module _ (G : Type 0) (k : ℕ) where
  -- What the variable `star` records. `room` bounds the text that the star may still take.
  abbrev StarInv : ℕ → Pattern → Bytes → Star → Type 0
  StarInv room items text none = G → Matches items (units text)
  StarInv room items text (some (after, share)) =
      (G → Matches (any_many ∷ after) (units share))
      × (Matches (any_many ∷ after) (units share) → G)
      × (Matches after (units share) → Matches items (units text))
      × (length text ≤ length share)
      × (length share ≤ room)
      × (length after < k)

  record LoopInv (f room : ℕ) (items : Pattern) (text : Bytes) (star : Star) : Type 0 where
    sound : Matches items (units text) → G
    complete : G → Matches (any_many ∷ items) (units text)
    at_star : StarInv room items text star
    text_len : length text ≤ room
    items_len : length items < k
    fuel : room * k + length items < f

  -- Right after a star, the question is whether the star and what follows it match.
  at_new_star :
      {f room : ℕ} {items : Pattern} {text : Bytes}
      → (Matches (any_many ∷ items) (units text) → G)
      → (G → Matches (any_many ∷ items) (units text))
      → length text ≤ room
      → length items < k
      → room * k + length items < f
      → LoopInv f room items text (some (items, text))
  at_new_star s c t n h = record {
    sound = λ m. s (stop m);
    complete = c;
    at_star = (c, s, λ m. m, omega arith, t, n);
    text_len = t;
    items_len = n;
    fuel = h;
  }

  star_after_item :
      (room b : ℕ) (item : Item) (items : Pattern) (text : Bytes) (star : Star)
      → is_many item ≡ false
      → StarInv room (item ∷ items) (b ∷ text) star
      → StarInv room items (after_unit b text) star
  star_after_item room b item items text none e h =
      λ g. (fits_inv e (rw (units-cons b text) at (h g))).1
  star_after_item room b item items text (some (after, share)) e (c, s, down, shorter, fit, n) = (
    c,
    s,
    λ m. (fits_inv e (rw (units-cons b text) at (down m))).1,
    omega (arith, after_unit_lt b text),
    fit,
    n,
  )

  after_item :
      {f room b : ℕ} {item : Item} {items : Pattern} {text : Bytes} {star : Star}
      → is_many item ≡ false
      → takes item (unit_at b text).0 ≡ true
      → LoopInv (suc f) room (item ∷ items) (b ∷ text) star
      → LoopInv f room items (after_unit b text) star
  after_item {room} {b} {item} {items} {text} {star} e h i = record {
    sound = λ m. i.sound (rw (units-cons b text) (fits h m));
    complete = λ g. skip_item _ _ e (rw (units-cons b text) at (i.complete g));
    at_star = star_after_item room b item items text star e i.at_star;
    text_len = omega (arith, i.text_len, after_unit_lt b text);
    items_len = omega (arith, i.items_len);
    fuel = omega (arith, i.fuel);
  }

  -- A character that does not fit: the star takes one more, which lowers `room`.
  retry-Answers :
      {f b : ℕ} {items : Pattern} {text : Bytes} (room : ℕ) (star : Star)
      (next : Pattern → Bytes → Star → Option Bool)
      → ((r : ℕ) (p : Pattern) (s : Bytes) (st : Star)
          → LoopInv f r p s st
          → Answers G (next p s st))
      → LoopInv (suc f) room items (b ∷ text) star
      → ¬ Matches items (units (b ∷ text))
      → Answers G (retry star next)
  unfolding retry
  retry-Answers room none next ih i misfit = λ g. misfit (i.at_star g)
  retry-Answers room (some (after, [])) next ih i misfit = absurd (omega arith)
  retry-Answers zero (some (after, c ∷ share)) next ih i misfit = absurd (omega arith)
  retry-Answers (suc room) (some (after, c ∷ share)) next ih i misfit =
      let (complete, sound, down, shorter, fit, n) = i.at_star in
      ih room after (after_unit c share) (some (after, after_unit c share)) (
        at_new_star (λ m. sound (rw (units-cons c share) (more m)))
          (λ g.
            more_inv (λ m. misfit (down (rw (units-cons c share) m)))
              (rw (units-cons c share) at (complete g)))
          (omega (arith, after_unit_lt c share)) n (omega (arith, i.fuel)))

  single_item :
      {f b : ℕ} {items : Pattern} {text : Bytes} (room : ℕ) (item : Item) (star : Star)
      (next : Pattern → Bytes → Star → Option Bool)
      → is_many item ≡ false
      → ((r : ℕ) (p : Pattern) (s : Bytes) (st : Star)
          → LoopInv f r p s st
          → Answers G (next p s st))
      → LoopInv (suc f) room (item ∷ items) (b ∷ text) star
      → Answers G (
          if takes item (unit_at b text).0
          then next items (after_unit b text) star
          else retry star next)
  single_item {b} {items} {text} room item star next e ih i =
      elim (Bool-cases (takes item (unit_at b text).0)) [
        | inl h ↦ rw h (ih room items (after_unit b text) star (after_item e h i))
        | inr h ↦ rw h (
            retry-Answers room star next ih i
              (λ m. cc ((fits_inv e (rw (units-cons b text) at m)).0)))
      ]

  loop-Answers :
      (f room : ℕ) (items : Pattern) (text : Bytes) (star : Star)
      → LoopInv f room items text star
      → Answers G (matches_loop f items text star)
  unfolding matches_loop
  loop-Answers zero room items text star i = absurd (omega (arith, i.fuel))
  loop-Answers (suc f) room items [] star i =
      let (s, c) = all_many_iff items in
      Answers-some (all is_many items) (λ h. i.sound (rw units-nil (s h)))
        (λ g. c (at_end items (rw units-nil at (i.complete g))))
    where
      at_end : (p : Pattern) → Matches (any_many ∷ p) [] → Matches p []
      at_end p (stop m) = m
  loop-Answers (suc f) room (any_many ∷ items) (b ∷ text) star i =
      loop-Answers f room items (b ∷ text) (some (items, b ∷ text)) (
        at_new_star i.sound (λ g. join_stars _ (i.complete g)) i.text_len
          (omega (arith, i.items_len)) (omega (arith, i.fuel)))
  loop-Answers (suc f) room [] (b ∷ text) star i =
      retry-Answers room star (matches_loop f) (loop-Answers f) i
        (λ m. unmatched (rw (units-cons b text) at m))
    where
      unmatched : {u : ℕ} {us : List ℕ} → Matches [] (u ∷ us) → ⊥
      unmatched m = elim m [ ]
  loop-Answers (suc f) room (char c ∷ items) (b ∷ text) star i =
      single_item room (char c) star (matches_loop f) refl (loop-Answers f) i
  loop-Answers (suc f) room (any_one ∷ items) (b ∷ text) star i =
      single_item room any_one star (matches_loop f) refl (loop-Answers f) i
  loop-Answers (suc f) room (set s ∷ items) (b ∷ text) star i =
      single_item room (set s) star (matches_loop f) refl (loop-Answers f) i

-- The loop of `Pattern::matches` ends within its fuel for every pattern and text, with true if the
-- characters of the text match the pattern and with false if they do not.
pub matches-Answers :
    (items : Pattern) (text : Bytes) → Answers (Matches items (units text)) (matches items text)
unfolding matches
matches-Answers items text =
    loop-Answers (Matches items (units text)) (length items + 1) (matches_fuel items text)
      (length text) items text none
      (record {
        sound = λ m. m;
        complete = stop;
        at_star = λ m. m;
        text_len = omega arith;
        items_len = omega arith;
        fuel = omega arith;
      })

-- `matches` returns true exactly on the texts whose characters match.
pub is_match_iff :
    (items : Pattern) (text : Bytes) → (is_match items text ≡ true) ↔ Matches items (units text)
unfolding is_match
is_match_iff items text = decided (matches items text) (matches-Answers items text)
  where
    decided :
        (o : Option Bool)
        → Answers (Matches items (units text)) o
        → (elim o as (λ _. Bool) [ none ↦ false | some b ↦ b ] ≡ true) ↔ Matches items (units text)
    decided none h = absurd h
    decided (some true) h = (λ _. h, λ _. refl)
    decided (some false) h = (λ e. cc, λ m. absurd (h m))
