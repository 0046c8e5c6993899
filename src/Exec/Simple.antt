-- ===== src/Exec/Simple.antt =====
-- `run_simple` of exec/mod.rs and what it calls: `dispatch`, `call_function` and `run` of builtins/mod.rs.
use oh_my_shell.Base.{
  ◌+◌, ◌-◌, Bytes, Bool, true, false, not, ◌&&◌, ◌||◌, Option, none, some, List, [], ◌∷◌,
  if◌then◌else◌, codes, bytes_eq,
}
use oh_my_shell.Flow.{
  Status, success, usage, Unwind, error_with, break_loops, continue_loops, interrupted, Flow, ok,
  err, catch_return,
}
use oh_my_shell.Flow
use oh_my_shell.Io.{Io, diff}
use oh_my_shell.Test.{one_of}
use oh_my_shell.Tree.{
  Words, Assignments, no_assignments, assigning, Redirects, no_redirects, redirects, Command,
}
use oh_my_shell.Vars.{Variable, Variables, find_var, restore, export}
use oh_my_shell.Vars.Environment.{default_path}
use oh_my_shell.Exec.{
  Shell, Host, Redirected, table, failed, expand_error, Result, Eval, pure, fail, gets, modify,
  call, call_flow, flow_of, ◌>>=◌, ◌>>◌, cmd, Rec, check_interrupt,
}
use oh_my_shell.Exec.Names.{
  Target, builtin, function, external, classify, strip_command, target_of, names_special,
}
use oh_my_shell.Exec.Declare
use oh_my_shell.Exec.SetOptions
use oh_my_shell.Exec.TrapBuiltin
use oh_my_shell.Exec.Redirection.{apply_redirects}
use oh_my_shell.Exec.Source
use oh_my_shell.Exec.Nesting.{nested}
use oh_my_shell.Exec.Lists.{record_fd_changes, set_status}
use oh_my_shell.Exec.Compound.{or_fail}
use oh_my_shell.Exec.Trace.{trace}

-- What the builtins of flow.rs read.
abbrev pub flow_shell : {W : Type 0} → Shell W → Flow.Shell
flow_shell s = record { last = s.status; func_depth = s.func_depth; loop_depth = s.loop_depth }

-- `builtins::run`
unfoldable pub run_builtin : {W : Type 0} → Host W → Rec W → Bytes → List Bytes → Io → Eval W Status
unfolding one_of Flow.exit Flow.return_ Flow.loop_control Source.eval Source.dot Declare.export
    Declare.readonly Declare.unset Declare.shift SetOptions.set TrapBuiltin.trap
run_builtin host rec name args io =
    if one_of name (codes ":" ∷ codes "true" ∷ [])
    then pure success
    else if bytes_eq name (codes "false")
    then pure 1
    else if one_of name (codes "." ∷ codes "source" ∷ [])
    then Source.dot host rec args io
    else if bytes_eq name (codes "eval")
    then Source.eval rec args io
    else if bytes_eq name (codes "exit")
    then flow_of (λ s. Flow.exit (flow_shell s) args)
    else if bytes_eq name (codes "return")
    then flow_of (λ s. Flow.return_ (flow_shell s) args)
    else if bytes_eq name (codes "break")
    then flow_of (λ s. Flow.loop_control (flow_shell s) args break_loops)
    else if bytes_eq name (codes "continue")
    then flow_of (λ s. Flow.loop_control (flow_shell s) args continue_loops)
    else if bytes_eq name (codes "export")
    then Declare.export host args io
    else if bytes_eq name (codes "readonly")
    then Declare.readonly host args io
    else if bytes_eq name (codes "unset")
    then Declare.unset args
    else if bytes_eq name (codes "shift")
    then Declare.shift args
    else if bytes_eq name (codes "set")
    then SetOptions.set host args io
    else if bytes_eq name (codes "trap")
    then TrapBuiltin.trap host args io
    else call_flow (host.run_builtin name args io)

abbrev pub caught : {W : Type 0} → Result W Status → Result W Status
caught none = none
caught (some (flow, s)) = some (catch_return flow, s)

-- The body of `call_function`, between `enter` and the end: `saved` is put back however it ends.
abbrev pub left_function : {W : Type 0} → List Bytes → Result W Status → Result W Status
left_function saved none = none
left_function saved (some (flow, s)) =
    some (flow, record s { func_depth = s.func_depth - 1; positional = saved })

unfoldable pub with_arguments : {W : Type 0} → List Bytes → Eval W Status → Eval W Status
with_arguments args body s =
    left_function s.positional
      (body (record s { positional = args; func_depth = s.func_depth + 1 }))

-- `call_function`
unfoldable pub call_function : {W : Type 0} → Rec W → Command → List Bytes → Io → Eval W Status
unfolding nested with_arguments catch_return
call_function rec body args io s = caught (nested (with_arguments args (rec (cmd body) io)) s)

-- `dispatch`
unfoldable pub dispatch :
    {W : Type 0} → Host W → Rec W → Target → Bytes → List Bytes → Io → Eval W Status
unfolding run_builtin call_function
dispatch host rec (builtin class) name args io = run_builtin host rec name args io
dispatch host rec (function body) name args io = call_function rec body args io
dispatch host rec external name args io = call (host.run_external (name ∷ args) io)

-- The variables that are assigned in front of a command, as they were.
unfoldable pub snapshots : Assignments → Variables → List (Bytes × Option Variable)
unfolding find_var
snapshots no_assignments vars = []
snapshots (assigning name value rest) vars = (name, find_var name vars) ∷ snapshots rest vars

-- `for (name, old) in saved.into_iter().rev()`
unfoldable pub restore_all : List (Bytes × Option Variable) → Variables → Variables
unfolding restore
restore_all [] vars = vars
restore_all ((name, old) ∷ saved) vars = restore name old (restore_all saved vars)

unfoldable pub export_all : Assignments → Variables → Variables
unfolding export
export_all no_assignments vars = vars
export_all (assigning name value rest) vars = export_all rest (export name vars)

-- `command -p` replaces `path_override` for the command.
abbrev pub put_path : {W : Type 0} → Option Bytes → Result W Status → Result W Status
put_path old none = none
put_path old (some (flow, s)) = some (flow, record s { path_override = old })

abbrev pub wants_default : Option Bool → Bool
wants_default none = false
wants_default (some standard) = standard

unfoldable pub with_path : {W : Type 0} → Bool → Eval W Status → Eval W Status
with_path false body s = body s
with_path true body s =
    put_path s.path_override (body (record s { path_override = some default_path }))

abbrev pub restored :
    {W : Type 0} → List (Bytes × Option Variable) → Result W Status → Result W Status
restored saved none = none
restored saved (some (flow, s)) = some (flow, record s { vars = restore_all saved s.vars })

-- The assignments in front of a command, and the command; `keeps` is that of a special builtin.
unfoldable pub run_assigned :
    {W : Type 0}
    → Host W
    → Rec W
    → Bool
    → Target
    → Option Bool
    → Assignments
    → Bytes
    → List Bytes
    → Io
    → Io
    → Eval W Status
unfolding export_all with_path dispatch trace
run_assigned host rec keeps t via asg name args io tab = do
  applied ← call (host.apply_assignments asg io)
  assigned ← or_fail applied
  trace host assigned (name ∷ args) io
  if not keeps || bytes_eq name (codes "exec")
      then modify (λ s. record s { vars = export_all asg s.vars })
      else pure tt
  with_path (wants_default via) (dispatch host rec t name args tab)

unfoldable pub run_target :
    {W : Type 0}
    → Host W
    → Rec W
    → Bool
    → Target
    → Option Bool
    → Assignments
    → Bytes
    → List Bytes
    → Io
    → Io
    → Eval W Status
unfolding run_assigned snapshots restore_all
run_target host rec true t via asg name args io tab s =
    run_assigned host rec true t via asg name args io tab s
run_target host rec false t via asg name args io tab s =
    restored (snapshots asg s.vars) (run_assigned host rec false t via asg name args io tab s)

-- A command of assignments only.
abbrev pub or_success : Option Status → Status
or_success none = success
or_success (some status) = status

unfoldable pub only_assignments :
    {W : Type 0} → Host W → Assignments → List Bytes → Io → Eval W Status
unfolding trace
only_assignments host asg ws io = do
  applied ← call (host.apply_assignments asg io)
  assigned ← or_fail applied
  trace host assigned ws io
  gets (λ s. or_success s.cmdsub_status)

-- `exec` with redirections and no command.
abbrev pub is_bare_exec : List Bytes → Bool
is_bare_exec [] = false
is_bare_exec (name ∷ []) = bytes_eq name (codes "exec")
is_bare_exec (name ∷ arg ∷ []) = bytes_eq name (codes "exec") && bytes_eq arg (codes "--")
is_bare_exec (name ∷ arg ∷ next ∷ rest) = false

unfoldable pub note_exec : {W : Type 0} → List Bytes → Io → Io → Eval W (Unit {0})
unfolding record_fd_changes diff
note_exec ws tab io =
    if is_bare_exec ws
    then modify (λ s. record s { fd_changes = record_fd_changes (diff tab io) s.fd_changes })
    else pure tt

-- The words after `strip_command`, with what they stand for and the table of the command.
unfoldable pub run_words :
    {W : Type 0}
    → Host W
    → Rec W
    → Option Bool
    → Option Target
    → Assignments
    → List Bytes
    → Io
    → Io
    → Eval W Status
unfolding note_exec only_assignments run_target
run_words host rec via (some t) asg (name ∷ args) io tab = do
  note_exec (name ∷ args) tab io
  run_target host rec (names_special via (some t)) t via asg name args io tab
run_words host rec via _ asg ws io tab = do note_exec ws tab io; only_assignments host asg ws io

-- `redirect_failed`, and a failure in front of a special builtin.
unfoldable pub redirect_failed : {W : Type 0} → Bool → Eval W Status
unfolding set_status
redirect_failed true = fail (error_with usage)
redirect_failed false = set_status usage

abbrev pub with_table : {W : Type 0} → Bool → (Io → Eval W Status) → Redirected → Eval W Status
with_table at_special body (table tab) = body tab
with_table at_special body failed = redirect_failed at_special
with_table at_special body expand_error = fail (error_with usage)

-- `if redirects.is_empty() { io } else { self.apply_redirects(..) }`
unfoldable pub redirected :
    {W : Type 0} → Host W → Redirects → Bool → Io → (Io → Eval W Status) → Eval W Status
unfolding redirect_failed apply_redirects
redirected host no_redirects at_special io body = body io
redirected host (redirects r rs) at_special io body = do
  made ← apply_redirects host (redirects r rs) io
  with_table at_special body made

-- `run_simple`
unfoldable pub run_simple :
    {W : Type 0} → Host W → Rec W → Assignments → Words → Redirects → Io → Eval W Status
unfolding check_interrupt strip_command classify redirected run_words
run_simple host rec asg ws rs io = do
  modify (λ s. record s { cmdsub_status = none })
  expanded ← call (host.expand_words ws io)
  found ← or_fail expanded
  check_interrupt host
  functions ← gets (λ s. s.functions)
  let (args, via) = strip_command functions found
  let t = target_of functions via args
  redirected host rs (names_special via t) io (run_words host rec via t asg args io)
