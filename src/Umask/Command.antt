-- ===== src/Umask/Command.antt =====
-- `umask`, `current_umask` and `set_umask`: the mask of the process and that of a copy of the shell.
use oh_my_shell.Base.{
  ℕ, Bytes, Bool, true, false, Option, none, some, List, [], ◌∷◌, ◌++◌, ◌≡◌, refl, ◌==◌,
  if◌then◌else◌, codes, bytes_eq, arith,
}
use oh_my_shell.Umask.{describe, octal, parse_mode}

-- The fields of `Shell` that umask.rs uses, and the mask of the process, which `process_umask` reads
-- and nix's `umask` sets.
pub record Shell : Type 0 where
  pub in_subshell : Bool
  pub umask_override : Option ℕ
  pub process_mask : ℕ

unfoldable pub current_umask : Shell → ℕ
current_umask shell = elim shell.umask_override [ none ↦ shell.process_mask | some mask ↦ mask ]

unfoldable pub set_umask : ℕ → Shell → Shell
set_umask mask shell =
    if shell.in_subshell
    then record shell { umask_override = some mask }
    else record shell { process_mask = mask }

-- `other.len() > 1 && other[0] == b'-'`
abbrev is_dashed : Bytes → Bool
is_dashed [] = false
is_dashed (b ∷ []) = false
is_dashed (b ∷ c ∷ rest) = b == b'-'

-- The loop over the options: `-S`, and the other arguments; `none`: an illegal option.
unfoldable pub read_options : Bool → List Bytes → Option (Bool × List Bytes)
unfolding bytes_eq
read_options symbolic [] = some (symbolic, [])
read_options symbolic (arg ∷ rest) =
    let more = read_options true rest in
    if bytes_eq arg (codes "-S")
    then more
    else if bytes_eq arg (codes "--")
    then some (symbolic, rest)
    else if is_dashed arg
    then none
    else some (symbolic, arg ∷ rest)

-- The status, what is written to descriptor 1 (`emit`), and the shell.
abbrev pub Answer : Type 0
Answer = ℕ × Bytes × Shell

abbrev pub change_mask : Shell → Option ℕ → Answer
change_mask shell (some mask) = (0, [], set_umask mask shell)
change_mask shell none = (2, [], shell)

abbrev pub with_arguments : Shell → Option (Bool × List Bytes) → Answer
with_arguments shell none = (2, [], shell)
with_arguments shell (some (symbolic, [])) = (
  0,
  (if symbolic then describe (current_umask shell) else octal (current_umask shell)) ++ 10 ∷ [],
  shell,
)
with_arguments shell (some (symbolic, mode ∷ rest)) =
    change_mask shell (parse_mode mode (current_umask shell))

-- `umask`, where the line can be written.
unfoldable pub umask : List Bytes → Shell → Answer
unfolding read_options describe octal current_umask parse_mode set_umask
umask args shell = with_arguments shell (read_options false args)

process-set_umask :
    (mask : ℕ) (shell : Shell)
    → shell.in_subshell ≡ true
    → (set_umask mask shell).process_mask ≡ shell.process_mask
unfolding set_umask
process-set_umask mask shell h = ground arith

-- In a copy of the shell, `umask` with any arguments leaves the mask of the process as it is.
pub umask-subshell :
    (args : List Bytes) (shell : Shell)
    → shell.in_subshell ≡ true
    → ((umask args shell).2).process_mask ≡ shell.process_mask
unfolding umask
umask-subshell args shell h = answered (read_options false args)
  where
    changed : (o : Option ℕ) → ((change_mask shell o).2).process_mask ≡ shell.process_mask
    changed none = refl
    changed (some mask) = process-set_umask mask shell h

    answered :
        (o : Option (Bool × List Bytes))
        → ((with_arguments shell o).2).process_mask ≡ shell.process_mask
    answered none = refl
    answered (some (symbolic, [])) = refl
    answered (some (symbolic, mode ∷ rest)) = changed (parse_mode mode (current_umask shell))
