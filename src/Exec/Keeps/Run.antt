-- ===== src/Exec/Keeps/Run.antt =====
-- The counters through the whole interpreter.
use oh_my_shell.Base.{ℕ, zero, suc, Bytes, Bool, true, false, none, List, [], ◌∷◌, ◌++◌, is_empty}
use oh_my_shell.Flow.{Status}
use oh_my_shell.Io.{Io}
use oh_my_shell.Tree.{
  Items, Kind, simple, subshell, group, if_branches, while_loop, until_loop, for_words,
  for_positional, case_of, function, Command, command, Redirects,
}
use oh_my_shell.Exec.{
  Shell, Parsed, parsed, incomplete, rejected, Host, Eval, Call, list, cmd, passes, text, Rec,
}
use oh_my_shell.Exec.Check.{check_list}
use oh_my_shell.Exec.Run.{
  run_list, finish, run_redirected, checked, is_checked, run_command, body, run,
}
use oh_my_shell.Exec.Text.{split_lines, run_checked, run_parsed, run_lines, run_text}
use oh_my_shell.Exec.Keeps.{counters, Sound, Safe, HostKeeps}
use oh_my_shell.Exec.Keeps.Combine.{
  bind-Safe, then-Safe, pure-Safe, gets-Safe, set_status-Safe, errexit_check-Safe,
}
use oh_my_shell.Exec.Keeps.Change.{nested-Safe}
use oh_my_shell.Exec.Keeps.Commands.{run_passes-Safe, run_compound-Safe}
use oh_my_shell.Exec.Keeps.Lists.{run_items-Safe}
use oh_my_shell.Exec.Keeps.Simple.{redirected-Safe, run_simple-Safe}

module _ {W : Type 0} (host : Host W) (keeps : HostKeeps host) (rec : Rec W)
    (safe : (c : Call) (io : Io) → Safe (rec c io)) where
  run_list-Safe : (items : Items) (io : Io) → Safe (run_list host rec items io)
  unfolding run_list
  run_list-Safe items io =
      nested-Safe
        (record { from = λ s. (run_items-Safe host rec safe items io none s.status).from s })

  checked-Safe : (b : Bool) (status : Status) → Safe {W = W} (checked b status)
  checked-Safe true status = then-Safe (errexit_check-Safe status) (pure-Safe status)
  checked-Safe false status = pure-Safe status

  finish-Safe : (b : Bool) (status : Status) → Safe {W = W} (finish b status)
  unfolding finish
  finish-Safe b status = then-Safe (set_status-Safe status) (checked-Safe b status)

  run_redirected-Safe :
      (kind : Kind) (rs : Redirects) (io : Io) → Safe (run_redirected host rec kind rs io)
  unfolding run_redirected
  run_redirected-Safe kind rs io = redirected-Safe host keeps rec safe rs false io (λ tab.
      bind-Safe (run_compound-Safe host keeps rec safe kind tab) (finish-Safe (is_checked kind)))

  run_command-Safe : (c : Command) (io : Io) → Safe (run_command host rec c io)
  unfolding run_command
  run_command-Safe (command (simple asg ws) rs) io =
      bind-Safe (run_simple-Safe host keeps rec safe asg ws rs io) (finish-Safe true)
  run_command-Safe (command (subshell b) rs) io = run_redirected-Safe (subshell b) rs io
  run_command-Safe (command (group b) rs) io = run_redirected-Safe (group b) rs io
  run_command-Safe (command (if_branches b) rs) io = run_redirected-Safe (if_branches b) rs io
  run_command-Safe (command (while_loop c b) rs) io = run_redirected-Safe (while_loop c b) rs io
  run_command-Safe (command (until_loop c b) rs) io = run_redirected-Safe (until_loop c b) rs io
  run_command-Safe (command (for_words n ws b) rs) io = run_redirected-Safe (for_words n ws b) rs io
  run_command-Safe (command (for_positional n b) rs) io =
      run_redirected-Safe (for_positional n b) rs io
  run_command-Safe (command (case_of w arms) rs) io = run_redirected-Safe (case_of w arms) rs io
  run_command-Safe (command (function n b) rs) io = run_redirected-Safe (function n b) rs io

  run_checked-Safe :
      (io : Io) {others : Status → Eval W Status} (items : Items) (b : Bool)
      → ((status : Status) → Safe (others status))
      → Safe (run_checked rec io others items b)
  run_checked-Safe io items true others =
      bind-Safe (safe (list items) io) (λ next. then-Safe (set_status-Safe next) (others next))
  run_checked-Safe io items false others = pure-Safe 2

  run_parsed-Safe :
      (io : Io) {others : Bytes → Status → Eval W Status} (at_end : Bool) (pending : Bytes)
      (status : Status) (found : Parsed)
      → ((pending : Bytes) (status : Status) → Safe (others pending status))
      → Safe (run_parsed rec io others at_end pending status found)
  run_parsed-Safe io at_end pending status (parsed items) others =
      run_checked-Safe io items (check_list items) (others [])
  run_parsed-Safe io true pending status incomplete others = pure-Safe 2
  run_parsed-Safe io false pending status incomplete others = others pending status
  run_parsed-Safe io at_end pending status rejected others = pure-Safe 2

  run_lines-Safe :
      (io : Io) (lines : List Bytes) (pending : Bytes) (status : Status)
      → Safe (run_lines host rec io lines pending status)
  unfolding run_lines
  run_lines-Safe io [] pending status = pure-Safe status
  run_lines-Safe io (line ∷ lines) pending status =
      bind-Safe (gets-Safe (λ s. host.parse s.aliases (pending ++ line))) (λ found.
        run_parsed-Safe io (is_empty lines) (pending ++ line) status found
          (run_lines-Safe io lines))

  run_text-Safe : (src : Bytes) (io : Io) → Safe (run_text host rec src io)
  unfolding run_text
  run_text-Safe src io =
      bind-Safe (gets-Safe (λ s. s.status)) (run_lines-Safe io (split_lines src) [])

  body-Safe : (c : Call) (io : Io) → Safe (body host rec c io)
  unfolding body
  body-Safe (list items) io = run_list-Safe items io
  body-Safe (cmd c) io = run_command-Safe c io
  body-Safe (passes condition b until status) io =
      run_passes-Safe host keeps rec safe condition b until status io
  body-Safe (text src) io = run_text-Safe src io

run-Safe :
    {W : Type 0} (host : Host W)
    → HostKeeps host
    → (f : ℕ) (c : Call) (io : Io) → Safe (run host f c io)
unfolding run
run-Safe host keeps zero c io = record { from = λ s. tt }
run-Safe host keeps (suc f) c io = record {
  from = (body-Safe host keeps (run host f) (run-Safe host keeps f) c io).from;
}

-- If the expansions, writes, programs and the builtins of the host keep the counters, and those builtins
-- name at least one loop where they end by `break` or `continue` and end by `return` only inside a function
-- or a sourced file, then a run of the interpreter that returns, on any state and however the command ends,
-- leaves the depth of calls, of loops and of functions and the count that switches `set -e` off as they
-- were; and a command that ends by `break` or `continue` names at least one loop, one that ends by
-- `return` was run inside a function or a sourced file.
pub run-Sound :
    {W : Type 0} (host : Host W)
    → HostKeeps host
    → (f : ℕ) (c : Call) (io : Io) (s : Shell W) → Sound (counters s) (run host f c io s)
run-Sound host keeps f c io s = (run-Safe host keeps f c io).from s
