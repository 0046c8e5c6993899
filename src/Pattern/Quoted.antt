-- ===== src/Pattern/Quoted.antt =====
-- Quoted texts, in which no byte is active, as patterns.
use oh_my_shell.Base.{
  ℕ, zero, suc, ◌≤◌, Bytes, Bool, true, false, List, [], ◌∷◌, ◌++◌, ◌≡◌, refl, ◌↔◌, ◌∙◌, sym, ap,
  map, length, drop, arith, ==_iff,
}
use mathlib.Core.List.{append-nil, append_assoc}
use mathlib.Core.Path.{ap₂}
use oh_my_shell.Base.Run.{Run, done, ◌>>=◌}
use oh_my_shell.Chars.{unit_at, after_unit, units}
use oh_my_shell.Chars.Decode.{units-cons, units-nil, units-injective, after_unit_lt}
use oh_my_shell.Pattern.{char, Pattern, takes}
use oh_my_shell.Pattern.Compile.{
  Marked, text_of, after_marked, marked_unit, compile_step, compile_loop, compile,
}
use oh_my_shell.Pattern.Matching.{is_match}
use oh_my_shell.Pattern.Meaning.{Matches, nothing, fits}
use oh_my_shell.Pattern.Decide.{is_match_iff}

-- Every byte quoted.
unfoldable pub quoted : Bytes → Marked
quoted [] = []
quoted (b ∷ s) = (b, false) ∷ quoted s

text_of-quoted : (s : Bytes) → text_of (quoted s) ≡ s
unfolding text_of quoted
text_of-quoted [] = refl
text_of-quoted (b ∷ s) = ap (λ t. b ∷ t) (text_of-quoted s)

drop-quoted : (n : ℕ) (s : Bytes) → drop n (quoted s) ≡ quoted (drop n s)
unfolding quoted
drop-quoted zero s = refl
drop-quoted (suc n) [] = refl
drop-quoted (suc n) (b ∷ s) = drop-quoted n s

after_marked-quoted :
    (b : ℕ) (s : Bytes) → after_marked b false (quoted s) ≡ quoted (after_unit b s)
unfolding quoted
after_marked-quoted b s = rw (text_of-quoted s) (drop-quoted (unit_at b s).1 (b ∷ s))

step-quoted :
    (b : ℕ) (s : Bytes) (items : Pattern)
    → compile_step b false (quoted s) items
      ≡ done (items ++ char (unit_at b s).0 ∷ [], quoted (after_unit b s))
unfolding compile_step
step-quoted b s items =
    let e : after_marked b false (quoted s) ≡ quoted (after_unit b s) = after_marked-quoted b s in
    rw (e, marked_unit, text_of-quoted s) refl

loop-quoted :
    (f : ℕ) (s : Bytes) (items : Pattern)
    → length s ≤ f
    → compile_loop f (quoted s) items ≡ done (items ++ map char (units s))
unfolding compile_loop quoted
loop-quoted f [] items h = rw (units-nil, append-nil) refl
loop-quoted zero (b ∷ s) items h = absurd (omega arith)
loop-quoted (suc f) (b ∷ s) items h = rw (step-quoted b s items) (
    loop-quoted f (after_unit b s) (items ++ char (unit_at b s).0 ∷ [])
      (omega (arith, after_unit_lt b s))
    ∙ rw (units-cons b s, append_assoc) refl)

length-quoted : (s : Bytes) → length (quoted s) ≡ length s
unfolding quoted
length-quoted [] = refl
length-quoted (b ∷ s) = ap suc (length-quoted s)

-- A quoted text compiles to its characters, one plain item each.
pub compile-quoted : (s : Bytes) → compile (quoted s) ≡ done (map char (units s))
unfolding compile
compile-quoted s = loop-quoted (length (quoted s)) s [] (omega (arith, length-quoted s))

Matches-chars : (us : List ℕ) → Matches (map char us) us
unfolding takes
Matches-chars [] = nothing
Matches-chars (u ∷ us) = fits ((==_iff u u).1 refl) (Matches-chars us)

Matches-chars_unique : (us vs : List ℕ) → Matches (map char us) vs → vs ≡ us
unfolding takes
Matches-chars_unique [] vs nothing = refl
Matches-chars_unique (u ∷ us) vs (fits {u = v} h m) =
    ap₂ ◌∷◌ (sym ((==_iff u v).0 h)) (Matches-chars_unique us _ m)

-- Compiles a pattern and matches a text against it, as `run_case` does with an arm's pattern.
unfoldable pub pattern_matches : Marked → Bytes → Run Bool
unfolding compile is_match
pattern_matches m t = do p ← compile m; done (is_match p t)

done_inv : {a b : Bool} → ◌≡◌ {A = Run Bool} (done a) (done b) → a ≡ b
done_inv e = cc

-- A quoted text, compiled and matched, accepts its own bytes and nothing else, be it valid UTF-8 or
-- not, and whatever pattern characters it holds.
pub pattern_matches-quoted : (s t : Bytes) → (pattern_matches (quoted s) t ≡ done true) ↔ (t ≡ s)
unfolding pattern_matches
pattern_matches-quoted s t = rw (compile-quoted s) (
  λ e.
      units-injective t s
        (Matches-chars_unique (units s) (units t) ((is_match_iff _ t).0 (done_inv e))),
  λ e. ap done ((is_match_iff _ t).1 (rw e (Matches-chars (units s)))),
)
