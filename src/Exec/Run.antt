-- ===== src/Exec/Run.antt =====
-- The interpreter: its functions tied together, on fuel, and `Shell::run` of shell.rs.
use oh_my_shell.Base.{ℕ, zero, suc, Bytes, Bool, true, false, Option, none, some, [], if◌then◌else◌}
use oh_my_shell.Flow.{
  Status, usage, exit_with, return_with, error_with, break_loops, continue_loops, interrupted, Flow,
  ok, err, from_signal,
}
use oh_my_shell.Io
use oh_my_shell.Io.{Io}
use oh_my_shell.Tree.{Items, Kind, simple, subshell, Command, command, Redirects}
use oh_my_shell.Exec.{
  Parsed, parsed, incomplete, rejected, Shell, Host, Result, Eval, pure, ◌>>=◌, ◌>>◌, list, cmd,
  passes, text, Rec,
}
use oh_my_shell.Exec.Check.{check_list}
use oh_my_shell.Exec.Compound.{run_passes, run_compound}
use oh_my_shell.Exec.Lists.{run_items, set_status}
use oh_my_shell.Exec.Nesting.{nested, errexit_check}
use oh_my_shell.Exec.Simple.{run_simple, redirected}
use oh_my_shell.Exec.Text.{run_text}

-- `run_list`
unfoldable pub run_list : {W : Type 0} → Host W → Rec W → Items → Io → Eval W Status
unfolding nested run_items
run_list host rec items io = nested (λ s. run_items host rec items io none s.status s)

abbrev pub checked : {W : Type 0} → Bool → Status → Eval W Status
checked true status = errexit_check status >> pure status
checked false status = pure status

-- The end of `run_command`, where the command ran.
unfoldable pub finish : {W : Type 0} → Bool → Status → Eval W Status
unfolding set_status errexit_check
finish check status = set_status status >> checked check status

abbrev pub is_checked : Kind → Bool
is_checked (simple _ _) = true
is_checked (subshell _) = true
is_checked _ = false

-- A command that is not simple; where its redirections cannot be made, `redirect_failed` ends it.
unfoldable pub run_redirected :
    {W : Type 0} → Host W → Rec W → Kind → Redirects → Io → Eval W Status
unfolding redirected run_compound finish
run_redirected host rec kind rs io =
    redirected host rs false io (λ tab. run_compound host rec kind tab >>= finish (is_checked kind))

-- `run_command`
unfoldable pub run_command : {W : Type 0} → Host W → Rec W → Command → Io → Eval W Status
unfolding run_simple run_redirected finish
run_command host rec (command (simple asg ws) rs) io =
    run_simple host rec asg ws rs io >>= finish true
run_command host rec (command kind rs) io = run_redirected host rec kind rs io

unfoldable pub body : {W : Type 0} → Host W → Rec W → Rec W
unfolding run_list run_command run_passes run_text
body host rec (list items) io = run_list host rec items io
body host rec (cmd c) io = run_command host rec c io
body host rec (passes condition b until status) io = run_passes host rec condition b until status io
body host rec (text src) io = run_text host rec src io

-- The interpreter; `none`: the fuel, which counts nested calls and passes of loops, ran out.
unfoldable pub run : {W : Type 0} → Host W → ℕ → Rec W
unfolding body
run host zero c io s = none
run host (suc f) c io s = body host (run host f) c io s

-- `Outcome`
pub data Outcome : Type 0 where
  continue_with exit_shell : Status → Outcome

-- The outcome of a line, for what `run_list` returned and the status of the shell.
unfoldable pub outcome : Flow Status → Status → Outcome
unfolding from_signal
outcome (ok status) last = continue_with status
outcome (err (exit_with status)) last = exit_shell status
outcome (err (error_with status)) last = continue_with status
outcome (err (return_with status)) last = continue_with status
outcome (err (break_loops n)) last = continue_with last
outcome (err (continue_loops n)) last = continue_with last
outcome (err interrupted) last = continue_with (from_signal 2)

abbrev pub keep_status : {W : Type 0} → Outcome → Shell W → Shell W
keep_status (continue_with status) s = record s { status = status }
keep_status (exit_shell status) s = s

-- What is left after a line: its outcome, the shell and the table of files.
abbrev pub Line : Type 0 → Type 0
Line W = Option (Outcome × Shell W × Io)

-- The flag of Ctrl+C, which `clear` takes back, when a line is at its end.
abbrev pub settled : {W : Type 0} → Host W → (W → W) → Flow Status → W → W
settled host clear (ok status) w = if (host.interrupted w).0 then clear w else w
settled host clear (err interrupted) w = clear w
settled host clear (err _) w = w

abbrev pub end_line : {W : Type 0} → Host W → (W → W) → Io → Result W Status → Line W
end_line host clear io none = none
end_line host clear io (some (flow, s)) =
    let result = outcome flow s.status in
    some (
      result,
      keep_status result (record s { fd_changes = []; world = settled host clear flow s.world }),
      Io.apply s.fd_changes io,
    )

-- `Shell::run`, of a list that `check_list` accepts.
unfoldable pub run_line : {W : Type 0} → Host W → (W → W) → ℕ → Items → Io → Shell W → Line W
unfolding run outcome
run_line host clear f items io s =
    end_line host clear io (run host f (list items) io (record s { world = clear s.world }))

-- `LineResult`, with the shell and the table of files that are left.
pub data LineResult (W : Type 0) : Type 0 where
  ran : Outcome → Shell W → Io → LineResult W
  unfinished : LineResult W
  refused : Shell W → LineResult W

abbrev pub ran_line : {W : Type 0} → Line W → Option (LineResult W)
ran_line none = none
ran_line (some (result, s, io)) = some (ran result s io)

abbrev pub with_usage : {W : Type 0} → Shell W → Shell W
with_usage s = record s { status = usage }

abbrev pub run_parsed_source :
    {W : Type 0} → Host W → (W → W) → ℕ → Bool → Io → Shell W → Parsed → Option (LineResult W)
run_parsed_source host clear f at_end io s (parsed items) =
    if check_list items
    then ran_line (run_line host clear f items io s)
    else some (refused (with_usage s))
run_parsed_source host clear f false io s incomplete = some unfinished
run_parsed_source host clear f true io s incomplete = some (refused (with_usage s))
run_parsed_source host clear f at_end io s rejected = some (refused (with_usage s))

-- `run_source`
unfoldable pub run_source :
    {W : Type 0} → Host W → (W → W) → ℕ → Bytes → Bool → Io → Shell W → Option (LineResult W)
unfolding run_line check_list
run_source host clear f src at_end io s =
    run_parsed_source host clear f at_end io s (host.parse s.aliases src)
