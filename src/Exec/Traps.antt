-- ===== src/Exec/Traps.antt =====
-- crates/omsh-exec/src/traps.rs and `Shell::subshell` of shell.rs.
use Prim.Native.Nat.{bit_or}
use oh_my_shell.Base.{
  ℕ, ◌^◌, Bytes, Bool, true, false, ◌&&◌, ◌||◌, Option, none, some, List, [], ◌∷◌, ltb, ◌==◌,
  if◌then◌else◌,
}
use oh_my_shell.Flow.{Status, exit_with, error_with, interrupted, ok, err, boundary}
use oh_my_shell.Io.{Io}
use oh_my_shell.Exec.{
  Action, ignore, run_command, Shell, Host, Result, Eval, pure, gets, poll, ◌>>=◌, ◌>>◌, text, Rec,
}

-- `Traps`: `set` with an action, in the order of the signals, and without one; `get`.
abbrev pub Traps : Type 0
Traps = List (ℕ × Action)

unfoldable pub insert : ℕ → Action → Traps → Traps
insert signal action [] = (signal, action) ∷ []
insert signal action ((n, old) ∷ traps) =
    if n == signal
    then (signal, action) ∷ traps
    else if ltb signal n
    then (signal, action) ∷ (n, old) ∷ traps
    else (n, old) ∷ insert signal action traps

unfoldable pub remove : ℕ → Traps → Traps
remove signal [] = []
remove signal ((n, action) ∷ traps) =
    if n == signal then traps else (n, action) ∷ remove signal traps

unfoldable pub set : ℕ → Option Action → Traps → Traps
unfolding insert remove
set signal none traps = remove signal traps
set signal (some action) traps = insert signal action traps

unfoldable pub get : ℕ → Traps → Option Action
get signal [] = none
get signal ((n, action) ∷ traps) = if n == signal then some action else get signal traps

abbrev pub is_ignore : Action → Bool
is_ignore ignore = true
is_ignore (run_command _) = false

-- `for_subshell`
unfoldable pub for_subshell : Traps → Traps
for_subshell [] = []
for_subshell ((n, action) ∷ traps) =
    if is_ignore action then (n, action) ∷ for_subshell traps else for_subshell traps

-- `ignored_mask`
unfoldable pub ignored_mask : Traps → ℕ
ignored_mask [] = 0
ignored_mask ((n, action) ∷ traps) =
    if is_ignore action && ltb 0 n then bit_or (2 ^ n) (ignored_mask traps) else ignored_mask traps

abbrev pub or_current : Option Bytes → Option Bytes → Option Bytes
or_current (some dir) current = some dir
or_current none current = current

-- `subshell`
unfoldable pub subshell : {W : Type 0} → Host W → Shell W → Shell W
unfolding for_subshell
subshell host s = record s {
  in_subshell = true;
  fd_changes = [];
  traps = for_subshell s.traps;
  cwd_override = or_current s.cwd_override (host.current_dir s.world);
}

-- Running the command of a trap, and putting `$?` back; only an exit, an error or an interrupt goes on.
abbrev pub after_trap : {W : Type 0} → Status → Result W Status → Result W (Unit {0})
after_trap saved none = none
after_trap saved (some (err (exit_with n), s)) =
    some (err (exit_with n), record s { running_trap = false; status = saved })
after_trap saved (some (err (error_with n), s)) =
    some (err (error_with n), record s { running_trap = false; status = saved })
after_trap saved (some (err interrupted, s)) =
    some (err interrupted, record s { running_trap = false; status = saved })
after_trap saved (some (_, s)) = some (ok tt, record s { running_trap = false; status = saved })

unfoldable pub run_trap : {W : Type 0} → Rec W → Io → Option Action → Eval W (Unit {0})
run_trap rec io (some (run_command command)) s =
    after_trap s.status (rec (text command) io (record s { running_trap = true }))
run_trap rec io _ s = pure tt s

-- The loop over the signals that arrived.
unfoldable pub run_traps : {W : Type 0} → Rec W → Io → List ℕ → Eval W (Unit {0})
unfolding get run_trap
run_traps rec io [] = pure tt
run_traps rec io (signal ∷ arrived) = do
  action ← gets (λ s. get signal s.traps)
  run_trap rec io action
  run_traps rec io arrived

-- `run_pending_traps`
unfoldable pub run_pending_traps : {W : Type 0} → Host W → Rec W → Io → Eval W (Unit {0})
unfolding run_traps
run_pending_traps host rec io s =
    if s.in_subshell || s.running_trap
    then pure tt s
    else (poll host.take_pending >>= run_traps rec io) s

-- The status the shell ends with: that of an `exit` in the command.
abbrev pub exit_status : {W : Type 0} → Status → Result W Status → Result W Status
exit_status status none = none
exit_status status (some (err (exit_with code), s)) = some (ok code, s)
exit_status status (some (_, s)) = some (ok status, s)

abbrev pub run_exit_command : {W : Type 0} → Rec W → Status → Io → Option Action → Eval W Status
run_exit_command rec status io (some (run_command command)) s =
    exit_status status
      (rec (text command) io (record s { traps = remove 0 s.traps; status = status }))
run_exit_command rec status io _ s = pure status s

-- `run_exit_trap`
unfoldable pub run_exit_trap : {W : Type 0} → Rec W → Status → Io → Eval W Status
unfolding get remove
run_exit_trap rec status io s = run_exit_command rec status io (get 0 s.traps) s

-- `finish_copy`, of what a copy of the shell ended with.
unfoldable pub finish_copy : {W : Type 0} → Rec W → Io → Result W Status → Result W Status
unfolding boundary run_exit_trap
finish_copy rec io none = none
finish_copy rec io (some (flow, copy)) = run_exit_trap rec (boundary flow) io copy

-- The shell goes on after a copy of it. In the source the copy is a value of its own (`Clone`), and the
-- shell is not borrowed while it runs; what they share is the world.
abbrev pub back : {W : Type 0} → Shell W → Result W Status → Result W Status
back s none = none
back s (some (flow, copy)) = some (flow, record s { world = copy.world })

-- A body run on a copy of the shell: a subshell or a stage of a pipeline.
unfoldable pub on_copy : {W : Type 0} → Host W → Rec W → Io → Eval W Status → Eval W Status
unfolding subshell finish_copy
on_copy host rec io body s = back s (finish_copy rec io (body (subshell host s)))
