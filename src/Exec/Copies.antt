-- ===== src/Exec/Copies.antt =====
-- What a copy of the shell starts with, and what functions and assignments in front of a command put back.
use oh_my_shell.Base.{
  ℕ, arith, [], ◌∷◌, ◌+◌, ◌-◌, ◌||◌, Bytes, Bool, true, false, Option, none, some, List, ◌≡◌, refl,
  ap, ◌∙◌, leb, Bool-cases, inl, inr, bytes_eq, bytes_eq→eq, if◌then◌else◌,
}
use oh_my_shell.Flow.{Status, ok}
use oh_my_shell.Io.{Io}
use oh_my_shell.Tree.{Assignments, no_assignments, assigning, Command}
use oh_my_shell.Vars.{Variables, find_var}
use oh_my_shell.Vars.Lookup.{restore-snapshot}
use oh_my_shell.Exec.{Action, ignore, run_command, Shell, Host, Result, cmd, Rec}
use oh_my_shell.Exec.Names.{Target}
use oh_my_shell.Exec.Nesting.{max_depth, after, nested}
use oh_my_shell.Exec.Simple.{
  caught, left_function, with_arguments, call_function, snapshots, restore_all, restored,
  run_assigned, run_target,
}
use oh_my_shell.Exec.Traps.{
  Traps, get, for_subshell, subshell, run_pending_traps, run_exit_command, run_exit_trap,
}

-- No signal is in the table twice, as in the map that the source has.
abbrev pub Distinct : Traps → Type 0
Distinct [] = Unit
Distinct ((signal, action) ∷ traps) = (get signal traps ≡ none) × Distinct traps

-- What a copy of the shell keeps of the action of a signal.
abbrev pub kept : Option Action → Option Action
kept (some ignore) = some ignore
kept _ = none

get-for_subshell :
    (signal : ℕ) (traps : Traps)
    → Distinct traps
    → get signal (for_subshell traps) ≡ kept (get signal traps)
unfolding get for_subshell
get-for_subshell signal [] d = refl
get-for_subshell signal ((n, ignore) ∷ traps) (fresh, d) =
    ground (arith, get-for_subshell signal traps d)
get-for_subshell signal ((n, run_command text) ∷ traps) (fresh, d) =
    ground (arith, get-for_subshell signal traps d)

exit_command-kept :
    {W : Type 0} (rec : Rec W) (status : Status) (io : Io) (o : Option Action) (s : Shell W)
    → run_exit_command rec status io (kept o) s ≡ some (ok status, s)
exit_command-kept rec status io none s = refl
exit_command-kept rec status io (some ignore) s = refl
exit_command-kept rec status io (some (run_command text)) s = refl

-- If no signal is in the table of traps twice, a copy of the shell, for a subshell or a stage of a
-- pipeline, starts with the signals that the shell ignores ignored, with no other trap, and with no
-- change of the files to hand on. At its start no trap of the shell runs in it, neither for a signal
-- that arrived nor at its end, which gives the status it is given.
pub subshell-Untrapped :
    {W : Type 0} (host : Host W) (rec : Rec W) (io : Io) (status : Status) (signal : ℕ)
    (s : Shell W)
    → Distinct s.traps
    → ((subshell host s).fd_changes ≡ [])
      × (get signal (subshell host s).traps ≡ kept (get signal s.traps))
      × (run_pending_traps host rec io (subshell host s) ≡ some (ok tt, subshell host s))
      × (run_exit_trap rec status io (subshell host s) ≡ some (ok status, subshell host s))
unfolding subshell run_pending_traps run_exit_trap
subshell-Untrapped host rec io status signal s d = (
  refl,
  get-for_subshell signal s.traps d,
  refl,
  rw (get-for_subshell 0 s.traps d) (exit_command-kept rec status io (get 0 s.traps) _),
)

-- The positional parameters at the end of a run are those given.
abbrev pub Positional : {W : Type 0} → List Bytes → Result W Status → Type 0
Positional args none = Unit
Positional args (some (flow, t)) = t.positional ≡ args

-- A call of a function leaves the positional parameters as they were, whatever its body does to them and however it ends.
pub call_function-Positional :
    {W : Type 0} (rec : Rec W) (body : Command) (args : List Bytes) (io : Io) (s : Shell W)
    → Positional s.positional (call_function rec body args io s)
unfolding call_function nested with_arguments
call_function-Positional {W = W} rec body args io s = elim (Bool-cases (leb max_depth s.depth)) [
  | inl e ↦ rw e refl
  | inr e ↦ rw e (
      left (
        rec (cmd body) io
          (record s { depth = s.depth + 1; positional = args; func_depth = s.func_depth + 1 })))
]
  where
    less : Shell W → Shell W
    less t = record t { depth = t.depth - 1 }

    left :
        (r : Result W Status)
        → Positional s.positional (caught (after less (left_function s.positional r)))
    left none = tt
    left (some (flow, t)) = refl

-- The names that are assigned in front of a command.
abbrev pub assigns_to : Bytes → Assignments → Bool
assigns_to j no_assignments = false
assigns_to j (assigning name value rest) = bytes_eq name j || assigns_to j rest

find_var-restore_all :
    (j : Bytes) (asg : Assignments) (before now : Variables)
    → find_var j (restore_all (snapshots asg before) now)
      ≡ (if assigns_to j asg then find_var j before else find_var j now)
unfolding restore_all snapshots
find_var-restore_all j no_assignments before now = refl
find_var-restore_all j (assigning name value rest) before now =
    restore-snapshot name j before (restore_all (snapshots rest before) now)
    ∙ elim (Bool-cases (bytes_eq name j)) [
      | inl e ↦ rw e (ap (λ n. find_var n before) (bytes_eq→eq name j e))
      | inr e ↦ rw e (find_var-restore_all j rest before now)
    ]

-- What a variable is in the end.
abbrev pub Keeps : {W : Type 0} → Bytes → Variables → Result W Status → Type 0
Keeps j before none = Unit
Keeps j before (some (flow, t)) = find_var j t.vars ≡ find_var j before

-- A variable that is assigned in front of a command that is not a special builtin is after the command
-- as it was, value and flags, or does not exist if it did not, however the command ended.
pub run_target-Keeps :
    {W : Type 0} (host : Host W) (rec : Rec W) (t : Target) (via : Option Bool) (asg : Assignments)
    (name : Bytes) (args : List Bytes) (io tab : Io) (s : Shell W) (j : Bytes)
    → assigns_to j asg ≡ true
    → Keeps j s.vars (run_target host rec false t via asg name args io tab s)
unfolding run_target
run_target-Keeps {W = W} host rec t via asg name args io tab s j e =
    from (run_assigned host rec false t via asg name args io tab s)
  where
    from : (r : Result W Status) → Keeps j s.vars (restored (snapshots asg s.vars) r)
    from none = tt
    from (some (flow, u)) = find_var-restore_all j asg s.vars u.vars ∙ rw e refl
