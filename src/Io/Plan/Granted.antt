-- ===== src/Io/Plan/Granted.antt =====
-- Plans whose calls are all granted.
use oh_my_shell.Base.{ℕ, ◌≤◌, true, Option, none, some, List, [], ◌∷◌, ◌≡◌, refl, arith}
use oh_my_shell.Io.{Slot, Io}
use oh_my_shell.Io.Plan.{
  floor_of, closes_of, plan, Descriptors, update, file_at, Kernel, add_copy, then_copy, copy_all,
  move_all, close_all, moved_all, apply_plan,
}
use oh_my_shell.Io.Plan.Copying.{Duplicates, InRange, Below, floor_of-Below, pairs_of-InRange}

-- A copy of an open descriptor and a move to any number do not fail.
pub record Grants (kernel : Kernel) : Type 0 where
  pub copies :
      (fds : Descriptors) (source floor file : ℕ)
      → file_at fds source ≡ some file
      → (copy : ℕ) × (kernel.duplicate fds source floor ≡ some copy)
  pub moves : (target : ℕ) → kernel.accepts target ≡ true

-- Every slot of a table is open.
abbrev pub Open : Descriptors → List (ℕ × Slot) → Type 0
Open fds [] = Unit
Open fds ((target, source) ∷ pairs) =
    ((file : ℕ) × (file_at fds source ≡ some file)) × Open fds pairs

abbrev Given : {A : Type 0} → Option A → Type 0
Given {A = A} o = (a : A) × (o ≡ some a)

Open-update :
    (fds : Descriptors) (floor copy : ℕ) (file : Option ℕ) (pairs : List (ℕ × Slot))
    → floor ≤ copy
    → Below floor pairs
    → Open fds pairs
    → Open (update copy file fds) pairs
Open-update fds floor copy file [] l b o = tt
Open-update fds floor copy file ((target, source) ∷ pairs) l (b, b', below) ((f, e), o) =
    ((f, ground arith), Open-update fds floor copy file pairs l below o)

copy_all-Given :
    (kernel : Kernel)
    → Duplicates kernel
    → Grants kernel
    → (floor : ℕ) (pairs : List (ℕ × Slot)) (fds : Descriptors) → Below floor pairs
    → Open fds pairs
    → Given (copy_all kernel floor pairs fds)
unfolding copy_all
copy_all-Given kernel dup grants floor [] fds b o = (([], fds), refl)
copy_all-Given kernel dup grants floor ((target, source) ∷ pairs) fds (b, b', below)
      ((file, e), o) =
    with_copy (grants.copies fds source floor file e) (λ copy e'.
      copy_all-Given kernel dup grants floor pairs (update copy (file_at fds source) fds) below (
        Open-update fds floor copy (file_at fds source) pairs (dup.above fds source floor copy e')
          below o))
  where
    others : ℕ → Option (List ℕ × Descriptors)
    others copy = copy_all kernel floor pairs (update copy (file_at fds source) fds)

    added : (copy : ℕ) (r : Option (List ℕ × Descriptors)) → Given r → Given (add_copy copy r)
    added copy none (a, e) = (([], fds), cc)
    added copy (some (scratch, now)) h = ((copy ∷ scratch, now), refl)

    with_copy :
        Given (kernel.duplicate fds source floor)
        → ((copy : ℕ) → kernel.duplicate fds source floor ≡ some copy → Given (others copy))
        → Given (then_copy others (kernel.duplicate fds source floor))
    with_copy (copy, e) rest = rw e (added copy (others copy) (rest copy e))

move_all-Given :
    (kernel : Kernel)
    → Grants kernel
    → (scratch : List ℕ) (pairs : List (ℕ × Slot)) (fds : Descriptors)
    → Given (move_all kernel scratch pairs fds)
unfolding move_all
move_all-Given kernel grants (copy ∷ scratch) ((target, source) ∷ pairs) fds =
    rw (grants.moves target)
      (move_all-Given kernel grants scratch pairs (update target (file_at fds copy) fds))
move_all-Given kernel grants [] pairs fds = (fds, refl)
move_all-Given kernel grants (copy ∷ scratch) [] fds = (fds, refl)

-- If `fcntl` gives, for every descriptor that is open, a number that is not in use, at the floor or above, and
-- `dup2` accepts every target, and the slots of the table are open and its descriptors below the largest
-- `i32`, then `apply_plan` of the plan of the table succeeds.
pub apply_plan-Given :
    (kernel : Kernel)
    → Duplicates kernel
    → Grants kernel
    → (io : Io) (fds : Descriptors) → InRange io
    → Open fds io
    → (after : Descriptors) × (apply_plan kernel (plan io) fds ≡ some after)
unfolding apply_plan plan
apply_plan-Given kernel dup grants io fds r o = rw (pairs_of-InRange io r) (
    with_copies (copy_all-Given kernel dup grants (floor_of 3 io) io fds (floor_of-Below 3 io r) o))
  where
    with_moved :
        (scratch : List ℕ) (now : Descriptors)
        → Given (move_all kernel scratch io now)
        → Given (moved_all kernel (record (plan io) { pairs = io }) (some (scratch, now)))
    with_moved scratch now (after, e) = (close_all (closes_of (0 ∷ 1 ∷ 2 ∷ []) io) after, rw e refl)

    with_copies :
        Given (copy_all kernel (floor_of 3 io) io fds)
        → Given (
            moved_all kernel
              (record (plan io) { pairs = io })
              (copy_all kernel (floor_of 3 io) io fds))
    with_copies ((scratch, now), e) =
        rw e (with_moved scratch now (move_all-Given kernel grants scratch io now))
