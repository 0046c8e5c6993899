-- ===== src/Samples/Files.antt =====
-- The tables of open files, and what a child does with its descriptors: tests and instances.
use oh_my_shell.Base.{
  codes, bytes_eq, false, ℕ, ◌+◌, ◌≤◌, true, Option, none, some, List, [], ◌∷◌, ◌≡◌, refl, arith,
}
use oh_my_shell.Builtins.{quote}
use oh_my_shell.Builtins.Quote.{outside, unquote, unquote-quote}
use oh_my_shell.Exec.SetOptions.{between, set_loop, listing}
use oh_my_shell.Exec.Source.{split_path}
use oh_my_shell.Options.{Options}
use oh_my_shell.Search.{PathCache, Files, search, lookup}
use oh_my_shell.Search.Cached.{Fresh, plain, lookup-plain, Executable, lookup-Executable}
use oh_my_shell.Io
use oh_my_shell.Io.{Io, apply, diff}
use oh_my_shell.Io.Changes.{apply-diff}
use oh_my_shell.Io.Plan.{plan, Descriptors, file_at, Kernel, apply_plan, maximum, floor_of}
use oh_my_shell.Io.Plan.Copying.{Duplicates}
use oh_my_shell.Io.Plan.Applied.{Planned, apply_plan-Planned}
use oh_my_shell.Io.Plan.Granted.{Grants, apply_plan-Given}

-- A number above every descriptor that was used.
abbrev top : Descriptors → ℕ
top [] = 0
top ((fd, file) ∷ fds) = maximum (fd + 1) (top fds)

file_at-top : (fds : Descriptors) (n : ℕ) → top fds ≤ n → file_at fds n ≡ none
file_at-top [] n l = refl
file_at-top ((fd, file) ∷ fds) n l = ground (arith, file_at-top fds n)

-- A kernel that copies to a number that was never used.
abbrev copied : Option ℕ → ℕ → Option ℕ
copied none n = none
copied (some file) n = some n

abbrev simple_kernel : Kernel
simple_kernel = record {
  duplicate = λ fds source floor. copied (file_at fds source) (maximum floor (top fds));
  accepts = λ target. true;
}

simple_kernel-Duplicates : Duplicates simple_kernel
simple_kernel-Duplicates = record {
  opened = λ fds source floor copy e. opened (file_at fds source) (maximum floor (top fds)) copy e;
  unused = λ fds source floor copy e.
      file_at-top fds copy (above_top (file_at fds source) floor (top fds) copy e);
  above = λ fds source floor copy e. above (file_at fds source) floor (top fds) copy e;
}
  where
    opened : (o : Option ℕ) (n copy : ℕ) → copied o n ≡ some copy → (file : ℕ) × (o ≡ some file)
    opened none n copy e = cc
    opened (some file) n copy e = (file, refl)

    above_top :
        (o : Option ℕ) (floor t copy : ℕ) → copied o (maximum floor t) ≡ some copy → t ≤ copy
    above_top none floor t copy e = cc
    above_top (some file) floor t copy e = ground arith

    above :
        (o : Option ℕ) (floor t copy : ℕ) → copied o (maximum floor t) ≡ some copy → floor ≤ copy
    above none floor t copy e = cc
    above (some file) floor t copy e = ground arith

simple_kernel-Grants : Grants simple_kernel
simple_kernel-Grants = record {
  copies = λ fds source floor file e. (maximum floor (top fds), rw e refl);
  moves = λ target. refl;
}

-- `1` and `2` are swapped, and `0` is closed.
abbrev swapped : Io
swapped = (1, 2) ∷ (2, 1) ∷ []

abbrev standard : Descriptors
standard = (0, some 100) ∷ (1, some 101) ∷ (2, some 102) ∷ []

abbrev files : Option Descriptors → List (Option ℕ)
files none = []
files (some fds) = file_at fds 0 ∷ file_at fds 1 ∷ file_at fds 2 ∷ []

swap : files (apply_plan simple_kernel (plan swapped) standard) ≡ none ∷ some 102 ∷ some 101 ∷ []
unfolding apply_plan plan
swap = refl

one_below_the_floor : 1 + 1 ≤ floor_of 3 swapped
unfolding floor_of
one_below_the_floor = omega arith

apply_plan-Planned_example :
    Planned 1 standard swapped (apply_plan simple_kernel (plan swapped) standard)
apply_plan-Planned_example =
    apply_plan-Planned simple_kernel simple_kernel-Duplicates swapped standard
      (omega arith, (omega arith, tt)) (omega arith, omega arith, (omega arith, omega arith, tt)) 1
      one_below_the_floor

apply_plan-Given_example :
    (after : Descriptors) × (apply_plan simple_kernel (plan swapped) standard ≡ some after)
apply_plan-Given_example =
    apply_plan-Given simple_kernel simple_kernel-Duplicates simple_kernel-Grants swapped standard
      (omega arith, omega arith, (omega arith, omega arith, tt)) ((102, refl), ((101, refl), tt))

-- Two changes of a table, taken over by another.
apply-diff_example :
    Io.get 2 (apply (diff ((1, 7) ∷ (3, 8) ∷ []) ((1, 5) ∷ (2, 6) ∷ [])) ((1, 5) ∷ (2, 6) ∷ []))
    ≡ Io.get 2 ((1, 7) ∷ (3, 8) ∷ [])
apply-diff_example =
    apply-diff 2 ((1, 7) ∷ (3, 8) ∷ []) ((1, 5) ∷ (2, 6) ∷ []) (omega arith, (omega arith, tt))
      (omega arith, (omega arith, tt))

-- A file system where one file is executable.
abbrev one_program : Files
one_program = record {
  is_file = λ path. bytes_eq path (codes "/bin/x");
  may_execute = λ path. bytes_eq path (codes "/bin/x");
}

abbrev bin_cache : PathCache
bin_cache = record { path_value = codes "/usr:/bin"; entries = (codes "x", codes "/bin/x") ∷ [] }

bin_cache-Fresh : Fresh one_program none bin_cache
unfolding search split_path bytes_eq
bin_cache-Fresh = (refl, tt)

lookup-plain_example :
    ((lookup one_program none (codes "x") (codes "/usr:/bin") bin_cache).0
      ≡ plain one_program none (codes "x") (codes "/usr:/bin"))
    × Fresh one_program none (lookup one_program none (codes "x") (codes "/usr:/bin") bin_cache).1
lookup-plain_example =
    lookup-plain one_program none (codes "x") (codes "/usr:/bin") bin_cache bin_cache-Fresh

lookup-Executable_example :
    Executable one_program none
      (lookup one_program none (codes "x") (codes "/usr:/bin") bin_cache).0
lookup-Executable_example =
    lookup-Executable one_program none (codes "x") (codes "/usr:/bin") bin_cache refl

unquote-quote_example : unquote outside (quote (codes "it's")) ≡ some (codes "it's")
unquote-quote_example = unquote-quote (codes "it's")

abbrev no_options : Options
no_options = record {
  errexit = false;
  nounset = false;
  xtrace = false;
  noglob = false;
  noclobber = false;
  pipefail = false;
}

-- `set -eo` lists the options with `errexit` on.
set_listing :
    set_loop between no_options (codes "-eo" ∷ [])
    ≡ listing (record no_options { errexit = true }) true
unfolding set_loop
set_listing = refl
