-- ===== src/Samples/Patterns.antt =====
-- crates/omsh-exec/src/expand/pattern.rs and expand/param.rs: tests and instances.
use mathlib.Core.List.{flat_map}
use oh_my_shell.Base.{ℕ, ◌≤◌, ◌<◌, Bytes, Bool, true, false, [], ◌∷◌, ◌≡◌, refl, ◌↔◌, codes, length}
use oh_my_shell.Base.Order.{In, Ordered}
use oh_my_shell.Base.Run.{Run, done}
use oh_my_shell.Chars.{unit_at, from_utf8_3, boundaries, units}
use oh_my_shell.Chars.Utf8.{encode}
use oh_my_shell.Chars.Decode.{flat_map-encode-units}
use oh_my_shell.Chars.Boundaries.{boundaries_lem}
use oh_my_shell.Pattern.{Pattern, char, any_many}
use oh_my_shell.Pattern.Compile.{Marked, compile}
use oh_my_shell.Pattern.Compiled.{compile_total}
use oh_my_shell.Pattern.Matching.{matches}
use oh_my_shell.Pattern.Meaning.{Matches}
use oh_my_shell.Pattern.Decide.{Answers, matches-Answers}
use oh_my_shell.Pattern.Quoted.{quoted, pattern_matches, pattern_matches-quoted}
use oh_my_shell.Pattern.Affix.{hash, double_hash, percent, trim}
use oh_my_shell.Pattern.Affix.Extremal.{Trimmed, trim-Trimmed}

-- Every byte active, as in `Pattern::from_text`.
abbrev active : Bytes → Marked
active [] = []
active (b ∷ s) = (b, true) ∷ active s

abbrev m : Bytes → Bytes → Run Bool
m p t = pattern_matches (active p) t

star_backtracks : m (codes "a*c") (codes "abbbc") ≡ done true
unfolding pattern_matches unit_at from_utf8_3
star_backtracks = refl

star_at_end : m (codes "*.rs") (codes "main.rs.bak") ≡ done false
unfolding pattern_matches unit_at from_utf8_3
star_at_end = refl

-- `?` takes a whole character: "ব" is three bytes.
abbrev bangla : Bytes
bangla = 0xE0 ∷ 0xA6 ∷ 0xAC ∷ []

question_multibyte : m (codes "?") bangla ≡ done true
unfolding pattern_matches unit_at from_utf8_3
question_multibyte = refl

two_questions : m (codes "??") bangla ≡ done false
unfolding pattern_matches unit_at from_utf8_3
two_questions = refl

invalid_byte : m (codes "a?c") (b'a' ∷ 0xFF ∷ b'c' ∷ []) ≡ done true
unfolding pattern_matches unit_at from_utf8_3
invalid_byte = refl

truncated_character : m (codes "a?c") (b'a' ∷ 0xE0 ∷ 0xA6 ∷ b'c' ∷ []) ≡ done false
unfolding pattern_matches unit_at from_utf8_3
truncated_character = refl

set_range : m (codes "[a-c]x") (codes "bx") ≡ done true
unfolding pattern_matches unit_at from_utf8_3
set_range = refl

set_negated : m (codes "[!a-c]") (codes "a") ≡ done false
unfolding pattern_matches unit_at from_utf8_3
set_negated = refl

set_final_dash : m (codes "[a-]") (codes "-") ≡ done true
unfolding pattern_matches unit_at from_utf8_3
set_final_dash = refl

set_first_bracket : m (codes "[!]a]") (codes "]") ≡ done false
unfolding pattern_matches unit_at from_utf8_3
set_first_bracket = refl

set_classes : m (codes "[[:alpha:][:digit:]_]") (codes "_") ≡ done true
unfolding pattern_matches unit_at from_utf8_3
set_classes = refl

set_unclosed : m (codes "[abc") (codes "[abc") ≡ done true
unfolding pattern_matches unit_at from_utf8_3
set_unclosed = refl

set_no_class : m (codes "[[:nosuch:]]") (codes "n]") ≡ done true
unfolding pattern_matches unit_at from_utf8_3
set_no_class = refl

-- A quoted `]` does not close the set.
quoted_bracket :
    pattern_matches ((b'[', true) ∷ (b'a', true) ∷ (b']', false) ∷ []) (codes "[a]") ≡ done true
unfolding pattern_matches unit_at from_utf8_3
quoted_bracket = refl

abbrev star_b : Pattern
star_b = any_many ∷ char b'b' ∷ []

cut_shortest : trim star_b hash (codes "abcabc") ≡ codes "cabc"
unfolding trim unit_at
cut_shortest = refl

cut_longest : trim star_b double_hash (codes "abcabc") ≡ codes "c"
unfolding trim unit_at
cut_longest = refl

matches-Answers_example :
    Answers (Matches star_b (units (codes "abab"))) (matches star_b (codes "abab"))
matches-Answers_example = matches-Answers star_b (codes "abab")

pattern_matches-quoted_example :
    (pattern_matches (quoted (codes "a*b")) (codes "axxb") ≡ done true)
    ↔ (codes "axxb" ≡ codes "a*b")
pattern_matches-quoted_example = pattern_matches-quoted (codes "a*b") (codes "axxb")

trim-Trimmed_example : Trimmed percent star_b (codes "abcab") (trim star_b percent (codes "abcab"))
trim-Trimmed_example = trim-Trimmed percent star_b (codes "abcab")

compile_total_example : (p : Pattern) × (compile (active (codes "[[:x]*")) ≡ done p)
compile_total_example = compile_total (active (codes "[[:x]*"))

flat_map-encode-units_example :
    flat_map encode (units (0xE0 ∷ 0xA6 ∷ b'c' ∷ [])) ≡ 0xE0 ∷ 0xA6 ∷ b'c' ∷ []
flat_map-encode-units_example = flat_map-encode-units (0xE0 ∷ 0xA6 ∷ b'c' ∷ [])

boundaries_lem_example :
    Ordered ◌<◌ (boundaries bangla)
    × In 0 (boundaries bangla)
    × In (length bangla) (boundaries bangla)
    × ((n : ℕ) → In n (boundaries bangla) → n ≤ length bangla)
boundaries_lem_example = boundaries_lem bangla
