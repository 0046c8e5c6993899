-- ===== src/Samples/Expansion.antt =====
-- expand/ansi_c.rs and expand/split.rs: tests and instances.
use oh_my_shell.Base.{Bytes, true, false, List, [], ◌∷◌, ◌++◌, ◌≡◌, refl, codes}
use oh_my_shell.Base.Run.{done}
use oh_my_shell.Chars.{unit_at}
use oh_my_shell.AnsiC.{decode}
use oh_my_shell.AnsiC.NoNul.{NoNul, decode-NoNul}
use oh_my_shell.Split.{Kind, literal, quoted, expanded, Marks, Field, empty_field, split}
use oh_my_shell.Split.Kept.{kept, all_marks, split-kept}

newline_escape : decode (b'a' ∷ b'\\' ∷ b'n' ∷ []) ≡ done (b'a' ∷ 0x0A ∷ [])
unfolding decode
newline_escape = refl

nul_ends : decode (b'a' ∷ b'\\' ∷ b'0' ∷ b'b' ∷ []) ≡ done (b'a' ∷ [])
unfolding decode
nul_ends = refl

unicode_char : decode (b'\\' ∷ codes "u09ac!") ≡ done (0xE0 ∷ 0xA6 ∷ 0xAC ∷ b'!' ∷ [])
unfolding decode
unicode_char = refl

surrogate_stays : decode (b'\\' ∷ codes "ud800!") ≡ done (b'\\' ∷ codes "ud800!")
unfolding decode
surrogate_stays = refl

decode-NoNul_example :
    (out : Bytes) × (decode (b'\\' ∷ b'x' ∷ b'4' ∷ b'1' ∷ []) ≡ done out) × NoNul out
decode-NoNul_example =
    decode-NoNul (b'\\' ∷ b'x' ∷ b'4' ∷ b'1' ∷ []) (refl, (refl, (refl, (refl, tt))))

abbrev all_of : Kind → Bytes → Marks
all_of k [] = []
all_of k (b ∷ s) = (b, k) ∷ all_of k s

abbrev result_of : Bytes → Field
result_of s = record { marks = all_of expanded s; forced = false }

-- `a : b` with `IFS=' :'` is two fields.
one_separator :
    split (result_of (codes "a : b")) (codes " :")
    ≡ done (result_of (codes "a") ∷ result_of (codes "b") ∷ [])
unfolding split unit_at
one_separator = refl

-- `a::b` with `IFS=:` is three.
empty_between :
    split (result_of (codes "a::b")) (codes ":")
    ≡ done (result_of (codes "a") ∷ empty_field ∷ result_of (codes "b") ∷ [])
unfolding split unit_at
empty_between = refl

abbrev mixed : Field
mixed = record {
  marks =
      all_of expanded (codes "a b") ++ all_of quoted (codes " c") ++ all_of literal (codes " d");
  forced = true;
}

split-kept_example :
    (fs : List Field) × (split mixed (codes " ") ≡ done fs)
    × (kept (all_marks fs) ≡ kept mixed.marks)
split-kept_example = split-kept mixed (codes " ")
