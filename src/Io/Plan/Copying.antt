-- ===== src/Io/Plan/Copying.antt =====
-- The first pass of `apply_plan`: where its copies are, and what they refer to.
use mathlib.Core.Path.{subst}
use oh_my_shell.Base.{
  lt→ltb, ℕ, ◌-◌, ◌≤◌, ◌<◌, ◌^◌, Option, none, some, List, [], ◌∷◌, ◌≡◌, refl, ◌∙◌, arith,
}
use oh_my_shell.Io.{Slot, Io}
use oh_my_shell.Io.Plan.{
  saturating_suc, maximum, pairs_of, floor_of, Descriptors, update, file_at, Kernel, add_copy,
  then_copy, copy_all,
}

-- What the manual of `fcntl` says of `F_DUPFD_CLOEXEC`: the source is open, and the copy is a number that is
-- not in use, at the floor or above.
pub record Duplicates (kernel : Kernel) : Type 0 where
  pub opened :
      (fds : Descriptors) (source floor copy : ℕ)
      → kernel.duplicate fds source floor ≡ some copy
      → (file : ℕ) × (file_at fds source ≡ some file)
  pub unused :
      (fds : Descriptors) (source floor copy : ℕ)
      → kernel.duplicate fds source floor ≡ some copy
      → file_at fds copy ≡ none
  pub above :
      (fds : Descriptors) (source floor copy : ℕ)
      → kernel.duplicate fds source floor ≡ some copy
      → floor ≤ copy

-- Descriptors of a process are smaller than the largest `i32`.
abbrev pub InRange : Io → Type 0
InRange [] = Unit
InRange ((target, source) ∷ io) = (target < 2 ^ 31 - 1) × (source < 2 ^ 31 - 1) × InRange io

abbrev pub Below : ℕ → List (ℕ × Slot) → Type 0
Below floor [] = Unit
Below floor ((target, source) ∷ pairs) = (target < floor) × (source < floor) × Below floor pairs

-- Each copy is above the floor, and refers to what the source did.
abbrev pub Copied : ℕ → Descriptors → Descriptors → List (ℕ × Slot) → List ℕ → Type 0
Copied floor old now [] [] = Unit
Copied floor old now ((target, source) ∷ pairs) (copy ∷ scratch) =
    (floor ≤ copy)
    × ((file : ℕ) × (file_at old source ≡ some file) × (file_at now copy ≡ some file))
    × Copied floor old now pairs scratch
Copied floor old now _ _ = ⊥

pub pairs_of-InRange : (io : Io) → InRange io → pairs_of io ≡ io
unfolding pairs_of
pairs_of-InRange [] h = refl
pairs_of-InRange ((target, source) ∷ io) (h, k, r) = rw (pairs_of-InRange io r) (ground arith)

floor-floor_of : (floor : ℕ) (io : Io) → floor ≤ floor_of floor io
unfolding floor_of
floor-floor_of floor [] = omega arith
floor-floor_of floor ((target, source) ∷ io) = ground (
  arith,
  floor-floor_of floor io,
  floor-floor_of (maximum (maximum floor (saturating_suc target)) (saturating_suc source)) io,
)

weaken-Below :
    (low high : ℕ) (pairs : List (ℕ × Slot)) → low ≤ high → Below low pairs → Below high pairs
weaken-Below low high [] l h = tt
weaken-Below low high ((target, source) ∷ pairs) l (h, k, r) =
    (omega arith, omega arith, weaken-Below low high pairs l r)

abbrev raised : ℕ → ℕ → ℕ → ℕ
raised floor target source = maximum (maximum floor (saturating_suc target)) (saturating_suc source)

floor_of-next :
    (floor target source : ℕ) (io : Io)
    → target < 2 ^ 31 - 1
    → floor_of (raised floor target source) io ≡ floor_of floor ((target, source) ∷ io)
unfolding floor_of
floor_of-next floor target source io h = rw (lt→ltb target (2 ^ 31) (omega arith)) refl

pub floor_of-Below : (floor : ℕ) (io : Io) → InRange io → Below (floor_of floor io) io
floor_of-Below floor [] h = tt
floor_of-Below floor ((target, source) ∷ io) (h, k, r) =
    subst (λ n. Below n ((target, source) ∷ io)) (floor_of-next floor target source io h)
      (below (floor-floor_of (raised floor target source) io)
        (floor_of-Below (raised floor target source) io r))
  where
    below :
        raised floor target source ≤ floor_of (raised floor target source) io
        → Below (floor_of (raised floor target source) io) io
        → Below (floor_of (raised floor target source) io) ((target, source) ∷ io)
    below l rest = (ground arith, ground arith, rest)

-- The copies: the descriptors below the floor and those that are open stay as they were.
abbrev pub CopiedAll : ℕ → Descriptors → List (ℕ × Slot) → Option (List ℕ × Descriptors) → Type 0
CopiedAll floor fds pairs none = Unit
CopiedAll floor fds pairs (some (scratch, now)) =
    ((fd : ℕ) → fd < floor → file_at now fd ≡ file_at fds fd)
    × ((fd file : ℕ) → file_at fds fd ≡ some file → file_at now fd ≡ some file)
    × Copied floor fds now pairs scratch

-- Copies of what a table without `copy` held are copies of what it held before.
Copied-update :
    (floor copy : ℕ) (file : Option ℕ) (fds now : Descriptors) (pairs : List (ℕ × Slot))
    (scratch : List ℕ)
    → floor ≤ copy
    → Below floor pairs
    → Copied floor (update copy file fds) now pairs scratch
    → Copied floor fds now pairs scratch
Copied-update floor copy file fds now [] [] l b h = tt
Copied-update floor copy file fds now ((target, source) ∷ pairs) (c ∷ scratch) l (b, b', below)
      (h, (f, e, e'), k) =
    (h, (f, ground arith, e'), Copied-update floor copy file fds now pairs scratch l below k)
Copied-update floor copy file fds now [] (c ∷ scratch) l b h = absurd h
Copied-update floor copy file fds now (p ∷ pairs) [] l b h = absurd h

pub copy_all-CopiedAll :
    (kernel : Kernel)
    → Duplicates kernel
    → (floor : ℕ) (pairs : List (ℕ × Slot)) (fds : Descriptors) → Below floor pairs
    → CopiedAll floor fds pairs (copy_all kernel floor pairs fds)
unfolding copy_all
copy_all-CopiedAll kernel dup floor [] fds below = ((λ fd l. refl), (λ fd file e. e), tt)
copy_all-CopiedAll kernel dup floor ((target, source) ∷ pairs) fds (h, k, below) =
    with_copy
      (λ copy.
        copy_all-CopiedAll kernel dup floor pairs (update copy (file_at fds source) fds) below)
      (kernel.duplicate fds source floor) refl
  where
    added :
        (copy : ℕ)
        → (file : ℕ) × (file_at fds source ≡ some file)
        → file_at fds copy ≡ none
        → floor ≤ copy
        → (r : Option (List ℕ × Descriptors))
        → CopiedAll floor (update copy (file_at fds source) fds) pairs r
        → CopiedAll floor fds ((target, source) ∷ pairs) (add_copy copy r)
    added copy (file, e) u l none q = tt
    added copy (file, e) u l (some (scratch, now)) (low, kept, copied) = (
      (λ fd m. low fd m ∙ ground arith),
      (λ fd file' e'. kept fd file' (ground arith)),
      (
        l,
        (file, e, kept copy file (ground arith)),
        Copied-update floor copy (file_at fds source) fds now pairs scratch l below copied,
      ),
    )

    with_copy :
        ((copy : ℕ)
          → CopiedAll floor
              (update copy (file_at fds source) fds)
              pairs
              (copy_all kernel floor pairs (update copy (file_at fds source) fds)))
        → (o : Option ℕ) → kernel.duplicate fds source floor ≡ o
        → CopiedAll floor fds ((target, source) ∷ pairs) (
            then_copy
              (λ copy. copy_all kernel floor pairs (update copy (file_at fds source) fds))
              o)
    with_copy others none e = tt
    with_copy others (some copy) e =
        added copy (dup.opened fds source floor copy e) (dup.unused fds source floor copy e)
          (dup.above fds source floor copy e)
          (copy_all kernel floor pairs (update copy (file_at fds source) fds)) (others copy)
