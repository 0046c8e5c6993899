-- ===== src/Pattern/Affix/Extremal.antt =====
-- The prefixes and suffixes that are cut off, against all others that match.
use oh_my_shell.Base.{
  ℕ, ◌≤◌, ◌<◌, Bytes, false, Option, none, some, ◌≡◌, refl, ◌⊎◌, inl, inr, take, drop, arith, find,
}
use oh_my_shell.Base.Order.{
  In, backwards, In-backwards, backwards-In, Ordered-backwards, find-some, find-none,
}
use oh_my_shell.Chars.{units, boundaries}
use oh_my_shell.Chars.Boundaries.{boundaries-Ordered}
use oh_my_shell.Pattern.{Pattern}
use oh_my_shell.Pattern.Matching.{is_match}
use oh_my_shell.Pattern.Meaning.{Matches}
use oh_my_shell.Pattern.Decide.{is_match_iff}
use oh_my_shell.Pattern.Affix.{
  or_whole, cut, ParamOp, hash, double_hash, percent, double_percent, trim,
}

-- `n` is a boundary of the text whose part `part n` matches, and comes first by `R` of all those.
pub record IsBest (R : ℕ → ℕ → Type 0) (part : ℕ → Bytes) (p : Pattern) (text : Bytes) (n : ℕ)
    : Type 0 where
  pub boundary : In n (boundaries text)
  pub fits : Matches p (units (part n))
  pub best : (m : ℕ) → In m (boundaries text) → Matches p (units (part m)) → R n m

module _ (p : Pattern) (text : Bytes) where
  forwards :
      (part : ℕ → Bytes) (n : ℕ)
      → find (λ m. is_match p (part m)) (boundaries text) ≡ some n
      → IsBest ◌≤◌ part p text n
  forwards part n e =
      let (i, h, later) =
        find-some ◌<◌ (λ m. is_match p (part m)) (boundaries text) n (boundaries-Ordered text) e in
      record {
        boundary = i;
        fits = (is_match_iff p (part n)).0 h;
        best = λ m k d. omega (arith, later m k ((is_match_iff p (part m)).1 d));
      }

  from_the_end :
      (part : ℕ → Bytes) (n : ℕ)
      → find (λ m. is_match p (part m)) (backwards (boundaries text)) ≡ some n
      → IsBest (λ a b. b ≤ a) part p text n
  from_the_end part n e =
      let o = Ordered-backwards ◌<◌ (boundaries text) (boundaries-Ordered text) in
      let (i, h, later) =
        find-some (λ a b. b < a) (λ m. is_match p (part m)) (backwards (boundaries text)) n o e in
      record {
        boundary = In-backwards n (boundaries text) i;
        fits = (is_match_iff p (part n)).0 h;
        best = λ m k d.
            omega
              (arith, later m (backwards-In m (boundaries text) k) ((is_match_iff p (part m)).1 d));
      }

  nothing_fits :
      (part : ℕ → Bytes) (m : ℕ) → is_match p (part m) ≡ false → ¬ Matches p (units (part m))
  nothing_fits part m h d = cc ((is_match_iff p (part m)).1 d)

-- No boundary of the text has a part that matches.
abbrev pub NoneFits : (ℕ → Bytes) → Pattern → Bytes → Type 0
NoneFits part p text = (m : ℕ) → In m (boundaries text) → ¬ Matches p (units (part m))

-- Either a best part was cut off and `result` is the rest, or no part fits and nothing was cut.
abbrev pub Cut : (ℕ → ℕ → Type 0) → (ℕ → Bytes) → (ℕ → Bytes) → Pattern → Bytes → Bytes → Type 0
Cut R part rest p text result =
    (NoneFits part p text × (result ≡ text))
    ⊎ ((n : ℕ) × IsBest R part p text n × (result ≡ rest n))

abbrev pub Trimmed : ParamOp → Pattern → Bytes → Bytes → Type 0
Trimmed hash p v = Cut ◌≤◌ (λ m. take m v) (λ m. drop m v) p v
Trimmed double_hash p v = Cut (λ a b. b ≤ a) (λ m. take m v) (λ m. drop m v) p v
Trimmed percent p v = Cut (λ a b. b ≤ a) (λ m. drop m v) (λ m. take m v) p v
Trimmed double_percent p v = Cut ◌≤◌ (λ m. drop m v) (λ m. take m v) p v
Trimmed _ p v = λ result. result ≡ v

module _ (p : Pattern) (text : Bytes) (part rest : ℕ → Bytes) where
  Cut-forwards :
      (o : Option ℕ)
      → find (λ m. is_match p (part m)) (boundaries text) ≡ o
      → Cut ◌≤◌ part rest p text (or_whole text (cut rest o))
  Cut-forwards none e =
      inl (λ m i. nothing_fits p text part m (find-none _ (boundaries text) e m i), refl)
  Cut-forwards (some n) e = inr (n, forwards p text part n e, refl)

  Cut-from_the_end :
      (o : Option ℕ)
      → find (λ m. is_match p (part m)) (backwards (boundaries text)) ≡ o
      → Cut (λ a b. b ≤ a) part rest p text (or_whole text (cut rest o))
  Cut-from_the_end none e = inl (
    λ m i.
        nothing_fits p text part m
          (find-none _ (backwards (boundaries text)) e m (backwards-In m (boundaries text) i)),
    refl,
  )
  Cut-from_the_end (some n) e = inr (n, from_the_end p text part n e, refl)

-- `trim` cuts off the shortest (`#`, `%`) or longest (`##`, `%%`) prefix or suffix that ends or
-- starts between characters and matches, which may be the empty one; if none matches, and for every other
-- operator, it leaves the value alone.
pub trim-Trimmed :
    (op : ParamOp) (p : Pattern) (value : Bytes) → Trimmed op p value (trim p op value)
unfolding trim
trim-Trimmed hash p v = Cut-forwards p v (λ m. take m v) (λ m. drop m v) _ refl
trim-Trimmed double_hash p v = Cut-from_the_end p v (λ m. take m v) (λ m. drop m v) _ refl
trim-Trimmed percent p v = Cut-from_the_end p v (λ m. drop m v) (λ m. take m v) _ refl
trim-Trimmed double_percent p v = Cut-forwards p v (λ m. drop m v) (λ m. take m v) _ refl
trim-Trimmed _ p v = refl
