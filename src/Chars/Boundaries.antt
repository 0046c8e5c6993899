-- ===== src/Chars/Boundaries.antt =====
-- The offsets that `boundaries` lists: their bounds and their order.
use oh_my_shell.Base.{
  ℕ, zero, suc, ◌+◌, ◌≤◌, ◌<◌, Bytes, [], ◌∷◌, ◌≡◌, refl, inl, inr, length, length-drop, arith,
}
use oh_my_shell.Base.Order.{In, Ordered}
use oh_my_shell.Chars.{unit_at, after_unit, boundaries_loop, boundaries}
use oh_my_shell.Chars.Utf8.{unit_at_len}
use oh_my_shell.Chars.Decode.{after_unit_lt}

loop_bounds :
    (f at : ℕ) (s : Bytes) (n : ℕ) → In n (boundaries_loop f at s) → (at ≤ n) × (n ≤ at + length s)
unfolding boundaries_loop
loop_bounds f at [] n (inl e) = omega arith
loop_bounds f at [] n (inr i) = elim i [ ]
loop_bounds zero at (b ∷ s) n i = absurd i
loop_bounds (suc f) at (b ∷ s) n (inl e) = omega arith
loop_bounds (suc f) at (b ∷ s) n (inr i) = omega (
  arith,
  loop_bounds f (at + (unit_at b s).1) (after_unit b s) n i,
  unit_at_len b s,
  length-drop {0} (unit_at b s).1 (b ∷ s),
)

loop-Ordered : (f at : ℕ) (s : Bytes) → Ordered ◌<◌ (boundaries_loop f at s)
unfolding boundaries_loop
loop-Ordered f at [] = (λ m i. absurd i, tt)
loop-Ordered zero at (b ∷ s) = tt
loop-Ordered (suc f) at (b ∷ s) = (
  λ m i. omega (arith, loop_bounds f (at + (unit_at b s).1) (after_unit b s) m i, unit_at_len b s),
  loop-Ordered f (at + (unit_at b s).1) (after_unit b s),
)

loop_end :
    (f at : ℕ) (s : Bytes) (n : ℕ)
    → length s ≤ f
    → n ≡ at + length s
    → In n (boundaries_loop f at s)
unfolding boundaries_loop
loop_end f at [] n h e = inl (omega arith)
loop_end zero at (b ∷ s) n h e = absurd (omega arith)
loop_end (suc f) at (b ∷ s) n h e = inr (
    loop_end f (at + (unit_at b s).1) (after_unit b s) n (omega (arith, after_unit_lt b s))
      (omega (arith, unit_at_len b s, length-drop {0} (unit_at b s).1 (b ∷ s))))

loop_start : (f at : ℕ) (s : Bytes) → length s ≤ f → In at (boundaries_loop f at s)
unfolding boundaries_loop
loop_start f at [] h = inl refl
loop_start zero at (b ∷ s) h = absurd (omega arith)
loop_start (suc f) at (b ∷ s) h = inl refl

pub boundaries-Ordered : (s : Bytes) → Ordered ◌<◌ (boundaries s)
unfolding boundaries
boundaries-Ordered s = loop-Ordered (length s) 0 s

pub boundaries_le : (s : Bytes) (n : ℕ) → In n (boundaries s) → n ≤ length s
unfolding boundaries
boundaries_le s n i = omega (arith, loop_bounds (length s) 0 s n i)

-- The offsets are in increasing order, both ends of the text are among them, and none is outside.
pub boundaries_lem :
    (s : Bytes)
    → Ordered ◌<◌ (boundaries s)
      × In 0 (boundaries s)
      × In (length s) (boundaries s)
      × ((n : ℕ) → In n (boundaries s) → n ≤ length s)
unfolding boundaries
boundaries_lem s = (
  boundaries-Ordered s,
  loop_start (length s) 0 s (omega arith),
  loop_end (length s) 0 s (length s) (omega arith) (omega arith),
  boundaries_le s,
)
