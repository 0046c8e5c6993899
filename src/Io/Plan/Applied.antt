-- ===== src/Io/Plan/Applied.antt =====
-- The descriptors that `apply_plan` leaves, against the table.
use oh_my_shell.Base.{
  ==_iff, ℕ, suc, ◌<◌, Bool, true, false, not, ◌&&◌, ◌||◌, Option, none, some, List, [], ◌∷◌, ◌≡◌,
  refl, sym, ◌∙◌, ltb, ◌==◌, if◌then◌else◌, Bool-cases, inl, inr, arith,
}
use oh_my_shell.Io.{Slot, Io, get, is_open}
use oh_my_shell.Io.Changes.{IsTableFrom, IsTable, get-below}
use oh_my_shell.Io.Plan.{
  floor_of, closes_of, plan, Descriptors, update, file_at, Kernel, copy_all, move_all, close_all,
  closed_all, moved_all, apply_plan,
}
use oh_my_shell.Io.Plan.Copying.{
  Duplicates, InRange, Below, Copied, CopiedAll, copy_all-CopiedAll, floor_of-Below,
  pairs_of-InRange,
}

-- What a descriptor refers to in the end: what the slot of the table did, or what it did before.
abbrev moved : Descriptors → Descriptors → Option Slot → ℕ → Option ℕ
moved old now none fd = file_at now fd
moved old now (some slot) fd = file_at old slot

abbrev MovedAll : Descriptors → Descriptors → Io → Option Descriptors → Type 0
MovedAll old now io none = Unit
MovedAll old now io (some after) = (fd : ℕ) → file_at after fd ≡ moved old now (get fd io) fd

Copied-moved :
    (floor target : ℕ) (file : Option ℕ) (old now : Descriptors) (pairs : List (ℕ × Slot))
    (scratch : List ℕ)
    → target < floor
    → Copied floor old now pairs scratch
    → Copied floor old (update target file now) pairs scratch
Copied-moved floor target file old now [] [] l h = tt
Copied-moved floor target file old now (p ∷ pairs) (c ∷ scratch) l (h, (f, e, e'), k) =
    (h, (f, e, ground arith), Copied-moved floor target file old now pairs scratch l k)
Copied-moved floor target file old now [] (c ∷ scratch) l h = absurd h
Copied-moved floor target file old now (p ∷ pairs) [] l h = absurd h

move_all-MovedAll :
    (kernel : Kernel) (floor low : ℕ) (io : Io) (scratch : List ℕ) (old now : Descriptors)
    → IsTableFrom low io
    → Below floor io
    → Copied floor old now io scratch
    → MovedAll old now io (move_all kernel scratch io now)
unfolding move_all get
move_all-MovedAll kernel floor low [] [] old now t b c = λ fd. refl
move_all-MovedAll kernel floor low [] (copy ∷ scratch) old now t b c = absurd c
move_all-MovedAll kernel floor low (p ∷ io) [] old now t b c = absurd c
move_all-MovedAll kernel floor low ((target, source) ∷ io) (copy ∷ scratch) old now (l, t)
      (b, b', below) (h, (file, e, e'), copied) =
    granted (kernel.accepts target)
      (move_all kernel scratch io (update target (file_at now copy) now))
      (move_all-MovedAll kernel floor (suc target) io scratch old
        (update target (file_at now copy) now) t below
        (Copied-moved floor target (file_at now copy) old now io scratch b copied))
  where
    at :
        (o : Option Slot) (fd : ℕ)
        → get fd io ≡ o
        → (target == fd) ≡ false
        → moved old (update target (file_at now copy) now) o fd ≡ moved old now o fd
    at none fd eq ne = rw ne refl
    at (some slot) fd eq ne = refl

    all :
        (after : Descriptors)
        → MovedAll old (update target (file_at now copy) now) io (some after)
        → MovedAll old now ((target, source) ∷ io) (some after)
    all after q fd = elim (Bool-cases (target == fd)) [
      | inl eq ↦ rw eq (q fd ∙ rw (get-below fd (suc target) io t (ground arith), eq) (e' ∙ sym e))
      | inr ne ↦ rw ne (q fd ∙ at (get fd io) fd refl ne)
    ]

    granted :
        (g : Bool) (r : Option Descriptors)
        → MovedAll old (update target (file_at now copy) now) io r
        → MovedAll old now ((target, source) ∷ io) (if g then r else none)
    granted false r q = tt
    granted true none q = tt
    granted true (some after) q = all after q

-- Closing.
abbrev has : ℕ → List ℕ → Bool
has fd [] = false
has fd (n ∷ ns) = n == fd || has fd ns

close_all-closed :
    (targets : List ℕ) (fds : Descriptors) (fd : ℕ)
    → file_at (close_all targets fds) fd ≡ (if has fd targets then none else file_at fds fd)
unfolding close_all
close_all-closed [] fds fd = refl
close_all-closed (n ∷ targets) fds fd =
    rw (close_all-closed targets (update n none fds) fd) (ground arith)

has-closes_of :
    (fd : ℕ) (fds : List ℕ) (io : Io)
    → has fd (closes_of fds io) ≡ (has fd fds && not (is_open (get fd io)))
unfolding closes_of
has-closes_of fd [] io = refl
has-closes_of fd (n ∷ fds) io = elim (Bool-cases (n == fd)) [
  | inl e ↦
      (let same = ==_iff n fd in
        rw (e, same.0 e) (at (is_open (get fd io)) (has-closes_of fd fds io)))
  | inr e ↦ rw e (skip e (is_open (get n io)) (has-closes_of fd fds io))
]
  where
    at :
        (o : Bool)
        → has fd (closes_of fds io) ≡ (has fd fds && not o)
        → has fd (if o then closes_of fds io else fd ∷ closes_of fds io) ≡ not o
    at true q = q ∙ ground arith
    at false q = ground arith

    skip :
        (n == fd) ≡ false
        → (o : Bool) → has fd (closes_of fds io) ≡ (has fd fds && not (is_open (get fd io)))
        → has fd (if o then closes_of fds io else n ∷ closes_of fds io)
          ≡ (has fd fds && not (is_open (get fd io)))
    skip e true q = q
    skip e false q = rw e q

-- What a descriptor below the floor refers to after a plan.
abbrev pub planned : Descriptors → Option Slot → ℕ → Option ℕ
planned fds none fd = if ltb fd 3 then none else file_at fds fd
planned fds (some slot) fd = file_at fds slot

abbrev pub Planned : ℕ → Descriptors → Io → Option Descriptors → Type 0
Planned fd fds io none = Unit
Planned fd fds io (some after) = file_at after fd ≡ planned fds (get fd io) fd

-- If `fcntl` gives a number that is not in use, at the floor or above, and the table has its descriptors in
-- increasing order and below the largest `i32`, then, unless a call fails, `apply_plan` of the plan of the
-- table leaves each descriptor of the table referring to what its source did, also where sources and
-- targets overlap, the standard descriptors that are not in the table closed, and every other one below the floor as it was.
pub apply_plan-Planned :
    (kernel : Kernel)
    → Duplicates kernel
    → (io : Io) (fds : Descriptors) → IsTable io
    → InRange io
    → (fd : ℕ) → fd < floor_of 3 io
    → Planned fd fds io (apply_plan kernel (plan io) fds)
unfolding apply_plan plan
apply_plan-Planned kernel dup io fds t r fd l = rw (pairs_of-InRange io r) (
    with_copies (copy_all kernel (floor_of 3 io) io fds)
      (copy_all-CopiedAll kernel dup (floor_of 3 io) io fds (floor_of-Below 3 io r)))
  where
    closed :
        (o : Option Slot) (now : Descriptors) (fd : ℕ)
        → file_at now fd ≡ file_at fds fd
        → (if has fd (0 ∷ 1 ∷ 2 ∷ []) && not (is_open o) then none else moved fds now o fd)
          ≡ planned fds o fd
    closed none now fd e = ground arith
    closed (some slot) now fd e = ground arith

    with_moved :
        (now : Descriptors)
        → file_at now fd ≡ file_at fds fd
        → (o : Option Descriptors) → MovedAll fds now io o
        → Planned fd fds io (closed_all (closes_of (0 ∷ 1 ∷ 2 ∷ []) io) o)
    with_moved now low none q = tt
    with_moved now low (some after) q =
        close_all-closed (closes_of (0 ∷ 1 ∷ 2 ∷ []) io) after fd
        ∙ rw (has-closes_of fd (0 ∷ 1 ∷ 2 ∷ []) io, q fd) (closed (get fd io) now fd low)

    with_copies :
        (copies : Option (List ℕ × Descriptors))
        → CopiedAll (floor_of 3 io) fds io copies
        → Planned fd fds io (moved_all kernel (record (plan io) { pairs = io }) copies)
    with_copies none c = tt
    with_copies (some (scratch, now)) (low, kept, copied) =
        with_moved now (low fd l) (move_all kernel scratch io now) (
          move_all-MovedAll kernel (floor_of 3 io) 0 io scratch fds now t (floor_of-Below 3 io r)
            copied)
