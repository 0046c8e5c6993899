-- ===== src/Pattern/Compiled.antt =====
-- The fuel of compiling a pattern, against the length of the text.
use oh_my_shell.Base.{
  ℕ, zero, suc, ◌≤◌, ◌<◌, Bool, true, false, Option, none, some, List, [], ◌∷◌, ◌++◌, ◌≡◌, length,
  length-drop, arith,
}
use oh_my_shell.Base.Run.{done, Ends, Ends-bind, Ends→done}
use oh_my_shell.Chars.{unit_at}
use oh_my_shell.Chars.Utf8.{unit_at_len}
use oh_my_shell.Pattern.{Member, Pattern}
use oh_my_shell.Pattern.Compile.{
  Marked, text_of, after_marked, find_class_end, parse_class, parse_range, parse_member, set_loop,
  parse_negate, parse_set, compile_step, compile_loop, compile,
}

pub after_marked_lt : (b : ℕ) (a : Bool) (m : Marked) → length (after_marked b a m) < suc (length m)
after_marked_lt b a m =
    omega (arith, unit_at_len b (text_of m), length-drop {0} (unit_at b (text_of m)).1 ((b, a) ∷ m))

-- The text that a result leaves, if there is one, has at most `n` bytes.
abbrev Leaves : {A : Type 0} → ℕ → Option (A × Marked) → Type 0
Leaves n none = Unit
Leaves n (some (_, rest)) = length rest ≤ n

find_class_end-Leaves : (m : Marked) → Leaves (length m) (find_class_end m)
unfolding find_class_end
find_class_end-Leaves [] = tt
find_class_end-Leaves (c ∷ []) = tt
find_class_end-Leaves (c ∷ d ∷ m) = ground (arith, find_class_end-Leaves (d ∷ m))

parse_class-Leaves : (m : Marked) → Leaves (length m) (parse_class m)
unfolding parse_class
parse_class-Leaves [] = tt
parse_class-Leaves ((c, a) ∷ m) = ground (arith, find_class_end-Leaves m)

parse_range_le : (low : ℕ) (m : Marked) → length (parse_range low m).1 ≤ length m
unfolding parse_range
parse_range_le low [] = omega arith
parse_range_le low (c ∷ []) = omega arith
parse_range_le low ((c, ac) ∷ (h, ah) ∷ m) = ground (arith, after_marked_lt h ah m)

parse_member_le : (b : ℕ) (a : Bool) (m : Marked) → length (parse_member b a m).1 ≤ length m
unfolding parse_member
parse_member_le b a m = ground (
  arith,
  parse_class-Leaves m,
  after_marked_lt b a m,
  parse_range_le (unit_at b (text_of m)).0 (after_marked b a m),
)

set_loop-Ends :
    (f : ℕ) (negate first : Bool) (members : List Member) (m : Marked) (n : ℕ)
    → length m ≤ f
    → length m ≤ n
    → Ends (Leaves n) (set_loop f negate first members m)
unfolding set_loop
set_loop-Ends f negate first members [] n h k = tt
set_loop-Ends zero negate first members (c ∷ m) n h k = absurd (omega arith)
set_loop-Ends (suc f) negate first members ((b, a) ∷ m) n h k = ground (
  arith,
  parse_member_le b a m,
  set_loop-Ends f negate false (members ++ (parse_member b a m).0 ∷ []) (parse_member b a m).1 n,
)

parse_negate_le : (m : Marked) → length (parse_negate m).1 ≤ length m
unfolding parse_negate
parse_negate_le [] = omega arith
parse_negate_le ((b, a) ∷ m) = ground arith

parse_set-Ends : (m : Marked) → Ends (Leaves (length m)) (parse_set m)
unfolding parse_set
parse_set-Ends m =
    set_loop-Ends (length (parse_negate m).1) (parse_negate m).0 true [] (parse_negate m).1
      (length m) (omega arith) (parse_negate_le m)

abbrev Shrinks : ℕ → Pattern × Marked → Type 0
Shrinks n (_, rest) = length rest ≤ n

compile_step-Ends :
    (b : ℕ) (a : Bool) (m : Marked) (items : Pattern)
    → Ends (Shrinks (length m)) (compile_step b a m items)
unfolding compile_step
compile_step-Ends b a m items = ground (arith, parse_set-Ends m, after_marked_lt b a m)

compile_loop-Ends :
    (f : ℕ) (m : Marked) (items : Pattern)
    → length m ≤ f
    → Ends (λ _. Unit {0}) (compile_loop f m items)
unfolding compile_loop
compile_loop-Ends f [] items h = tt
compile_loop-Ends zero (c ∷ m) items h = absurd (omega arith)
compile_loop-Ends (suc f) ((b, a) ∷ m) items h =
    Ends-bind (Shrinks (length m)) (λ _. Unit {0}) (compile_step b a m items) _
      (compile_step-Ends b a m items)
      (λ (items', after) shorter. compile_loop-Ends f after items' (omega arith))

-- Compiling ends with a pattern for every marked text: the fuel, the length of the text, is enough
-- for the outer loop and for the loop of every bracket in it.
pub compile_total : (m : Marked) → (p : Pattern) × (compile m ≡ done p)
unfolding compile
compile_total m =
    Ends→done (λ _. Unit {0}) (compile m) (compile_loop-Ends (length m) m [] (omega arith))
