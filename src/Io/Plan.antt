-- ===== src/Io/Plan.antt =====
-- `Io::plan` of crates/omsh-exec/src/io.rs, and `apply_plan` of spawn.rs, which a child runs before
-- `execve`. A slot is here the number of its descriptor; the calls of the kernel are a parameter.
pub mod Copying
pub mod Applied
pub mod Granted
use oh_my_shell.Base.{
  ℕ, ◌+◌, ◌-◌, ◌^◌, Bool, true, false, not, Option, none, some, List, [], ◌∷◌, ltb, ◌==◌,
  if◌then◌else◌,
}
use oh_my_shell.Io.{Slot, Io, get, is_open}

-- `FdPlan`, without `scratch`, which `apply_plan` fills.
pub record FdPlan : Type 0 where
  pub pairs : List (ℕ × Slot)
  pub closes : List ℕ
  pub floor : ℕ

-- `saturating_add(1)` of an `i32`, and `max`.
abbrev pub saturating_suc : ℕ → ℕ
saturating_suc n = if ltb (n + 1) (2 ^ 31) then n + 1 else 2 ^ 31 - 1

abbrev pub maximum : ℕ → ℕ → ℕ
maximum a b = if ltb a b then b else a

-- The loop of `plan`: the pairs whose target is an `i32`, and the floor.
unfoldable pub pairs_of : Io → List (ℕ × Slot)
pairs_of [] = []
pairs_of ((target, slot) ∷ io) =
    let rest = pairs_of io in if ltb target (2 ^ 31) then (target, slot) ∷ rest else rest

unfoldable pub floor_of : ℕ → Io → ℕ
floor_of floor [] = floor
floor_of floor ((target, slot) ∷ io) =
    let next =
      floor_of (maximum (maximum floor (saturating_suc target)) (saturating_suc slot)) io in
    let rest = floor_of floor io in if ltb target (2 ^ 31) then next else rest

unfoldable pub closes_of : List ℕ → Io → List ℕ
unfolding get
closes_of [] io = []
closes_of (fd ∷ fds) io =
    let rest = closes_of fds io in if is_open (get fd io) then rest else fd ∷ rest

-- `plan`
unfoldable pub plan : Io → FdPlan
unfolding pairs_of floor_of closes_of
plan io = record {
  pairs = pairs_of io;
  closes = closes_of (0 ∷ 1 ∷ 2 ∷ []) io;
  floor = floor_of 3 io;
}

-- The descriptors of a process: what was done to each, the last first, and what a descriptor refers to.
abbrev pub Descriptors : Type 0
Descriptors = List (ℕ × Option ℕ)

abbrev pub update : ℕ → Option ℕ → Descriptors → Descriptors
update fd file fds = (fd, file) ∷ fds

abbrev pub file_at : Descriptors → ℕ → Option ℕ
file_at [] j = none
file_at ((fd, file) ∷ fds) j = if fd == j then file else file_at fds j

-- The number that `fcntl` with `F_DUPFD_CLOEXEC` gives for a source and a floor, if it does not fail, and
-- whether `dup2` accepts a target.
pub record Kernel : Type 0 where
  pub duplicate : Descriptors → ℕ → ℕ → Option ℕ
  pub accepts : ℕ → Bool

-- The first loop of `apply_plan`: the copies, and the descriptors.
abbrev pub Copies : Type 0
Copies = Option (List ℕ × Descriptors)

abbrev pub add_copy : ℕ → Copies → Copies
add_copy copy none = none
add_copy copy (some (scratch, fds)) = some (copy ∷ scratch, fds)

abbrev pub then_copy : (ℕ → Copies) → Option ℕ → Copies
then_copy others none = none
then_copy others (some copy) = add_copy copy (others copy)

unfoldable pub copy_all : Kernel → ℕ → List (ℕ × Slot) → Descriptors → Copies
copy_all kernel floor [] fds = some ([], fds)
copy_all kernel floor ((target, source) ∷ pairs) fds =
    then_copy (λ copy. copy_all kernel floor pairs (update copy (file_at fds source) fds))
      (kernel.duplicate fds source floor)

-- The second loop, over the copies and their targets.
unfoldable pub move_all : Kernel → List ℕ → List (ℕ × Slot) → Descriptors → Option Descriptors
move_all kernel (copy ∷ scratch) ((target, source) ∷ pairs) fds =
    let rest = move_all kernel scratch pairs (update target (file_at fds copy) fds) in
    if kernel.accepts target then rest else none
move_all kernel [] pairs fds = some fds
move_all kernel (copy ∷ scratch) [] fds = some fds

-- The third loop: what `close` returns is not read.
unfoldable pub close_all : List ℕ → Descriptors → Descriptors
close_all [] fds = fds
close_all (target ∷ targets) fds = close_all targets (update target none fds)

abbrev pub closed_all : List ℕ → Option Descriptors → Option Descriptors
closed_all closes none = none
closed_all closes (some fds) = some (close_all closes fds)

abbrev pub moved_all : Kernel → FdPlan → Copies → Option Descriptors
moved_all kernel p none = none
moved_all kernel p (some (scratch, fds)) = closed_all p.closes (move_all kernel scratch p.pairs fds)

-- `apply_plan`
unfoldable pub apply_plan : Kernel → FdPlan → Descriptors → Option Descriptors
unfolding copy_all move_all close_all
apply_plan kernel p fds = moved_all kernel p (copy_all kernel p.floor p.pairs fds)
