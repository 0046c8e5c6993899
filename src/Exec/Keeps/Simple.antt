-- ===== src/Exec/Keeps/Simple.antt =====
-- The counters through simple commands.
use oh_my_shell.Base.{
  Bytes, Bool, true, false, not, ◌||◌, Option, none, some, List, [], ◌∷◌, refl, bytes_eq, codes,
}
use oh_my_shell.Flow.{Status, ok, err}
use oh_my_shell.Io.{Io, diff}
use oh_my_shell.Tree.{Words, Assignments, Redirects, no_redirects, redirects, function, Command}
use oh_my_shell.Vars.Environment.{default_path}
use oh_my_shell.Vars.{Variable}
use oh_my_shell.Exec.{Host, Redirected, table, failed, expand_error, Result, Eval, Call, cmd, Rec}
use oh_my_shell.Exec.Lists.{record_fd_changes}
use oh_my_shell.Exec.Names.{
  Target, builtin, function, external, strip_command, target_of, names_special,
}
use oh_my_shell.Exec.Simple.{
  dispatch, snapshots, export_all, put_path, wants_default, with_path, restored, run_assigned,
  run_target, or_success, only_assignments, is_bare_exec, note_exec, run_words, redirect_failed,
  with_table, redirected, run_simple,
}
use oh_my_shell.Exec.Keeps.{Counters, counters, Sound, Safe, HostKeeps}
use oh_my_shell.Exec.Keeps.Combine.{
  bind-Safe, then-Safe, pure-Safe, gets-Safe, call-Safe, modify-Safe, if-Safe, or_fail-Safe,
  error-Safe, set_status-Safe, check_interrupt-Safe,
}
use oh_my_shell.Exec.Keeps.Builtins.{run_builtin-Safe}
use oh_my_shell.Exec.Keeps.Redirecting.{apply_redirects-Safe}
use oh_my_shell.Exec.Trace.{trace_line, trace}
use oh_my_shell.Exec.Keeps.Inside.{call_function-Safe}

put_path-Sound :
    {W : Type 0} (c : Counters) (old : Option Bytes) (r : Result W Status)
    → Sound c r
    → Sound c (put_path old r)
put_path-Sound c old none h = tt
put_path-Sound c old (some (ok status, s)) h = h
put_path-Sound c old (some (err u, s)) h = h

with_path-Safe :
    {W : Type 0} (on : Bool) {body : Eval W Status} → Safe body → Safe (with_path on body)
unfolding with_path
with_path-Safe false safe = record { from = safe.from }
with_path-Safe true {body = body} safe = record {
  from = λ s.
      put_path-Sound (counters s) s.path_override
        (body (record s { path_override = some default_path }))
        (safe.from (record s { path_override = some default_path }));
}

restored-Sound :
    {W : Type 0} (c : Counters) (saved : List (Bytes × Option Variable)) (r : Result W Status)
    → Sound c r
    → Sound c (restored saved r)
restored-Sound c saved none h = tt
restored-Sound c saved (some (ok status, s)) h = h
restored-Sound c saved (some (err u, s)) h = h

redirect_failed-Safe : {W : Type 0} (at_special : Bool) → Safe {W = W} (redirect_failed at_special)
unfolding redirect_failed
redirect_failed-Safe true = error-Safe 2
redirect_failed-Safe false = set_status-Safe 2

with_table-Safe :
    {W : Type 0} (at_special : Bool) (body : Io → Eval W Status) (made : Redirected)
    → ((tab : Io) → Safe (body tab))
    → Safe (with_table at_special body made)
with_table-Safe at_special body (table tab) safe = safe tab
with_table-Safe at_special body failed safe = redirect_failed-Safe at_special
with_table-Safe at_special body expand_error safe = error-Safe 2

module _ {W : Type 0} (host : Host W) (keeps : HostKeeps host) (rec : Rec W)
    (safe : (c : Call) (io : Io) → Safe (rec c io)) where
  trace-Safe :
      (asg : List (Bytes × Bytes)) (ws : List Bytes) (io : Io) → Safe (trace host asg ws io)
  unfolding trace
  trace-Safe asg ws io = bind-Safe (gets-Safe (λ s. s.options.xtrace)) (λ on.
      bind-Safe (gets-Safe (λ s. trace_line s.vars asg ws)) (λ line.
        if-Safe on
          (then-Safe (call-Safe (host.write_all 2 line io) (keeps.write_all 2 line io))
            (pure-Safe tt))
          (pure-Safe tt)))

  dispatch-Safe :
      (t : Target) (name : Bytes) (args : List Bytes) (io : Io)
      → Safe (dispatch host rec t name args io)
  unfolding dispatch
  dispatch-Safe (builtin class) name args io = run_builtin-Safe host keeps rec safe name args io
  dispatch-Safe (function body) name args io =
      call_function-Safe rec body args io (safe (cmd body) io)
  dispatch-Safe external name args io =
      call-Safe (host.run_external (name ∷ args) io) (keeps.run_external (name ∷ args) io)

  run_assigned-Safe :
      (special : Bool) (t : Target) (via : Option Bool) (asg : Assignments) (name : Bytes)
      (args : List Bytes) (io tab : Io)
      → Safe (run_assigned host rec special t via asg name args io tab)
  unfolding run_assigned
  run_assigned-Safe special t via asg name args io tab =
      bind-Safe (call-Safe (host.apply_assignments asg io) (keeps.apply_assignments asg io))
        (λ applied. bind-Safe (or_fail-Safe applied) (λ assigned.
          then-Safe (trace-Safe assigned (name ∷ args) io) (
            then-Safe
              (if-Safe (not special || bytes_eq name (codes "exec"))
                (modify-Safe (λ s. record s { vars = export_all asg s.vars }) (λ s. refl))
                (pure-Safe tt))
              (with_path-Safe (wants_default via) (dispatch-Safe t name args tab)))))

  run_target-Safe :
      (special : Bool) (t : Target) (via : Option Bool) (asg : Assignments) (name : Bytes)
      (args : List Bytes) (io tab : Io)
      → Safe (run_target host rec special t via asg name args io tab)
  unfolding run_target
  run_target-Safe true t via asg name args io tab = record {
    from = (run_assigned-Safe true t via asg name args io tab).from;
  }
  run_target-Safe false t via asg name args io tab = record {
    from = λ s.
        restored-Sound (counters s) (snapshots asg s.vars)
          (run_assigned host rec false t via asg name args io tab s)
          ((run_assigned-Safe false t via asg name args io tab).from s);
  }

  only_assignments-Safe :
      (asg : Assignments) (ws : List Bytes) (io : Io) → Safe (only_assignments host asg ws io)
  unfolding only_assignments
  only_assignments-Safe asg ws io =
      bind-Safe (call-Safe (host.apply_assignments asg io) (keeps.apply_assignments asg io))
        (λ applied. bind-Safe (or_fail-Safe applied) (λ assigned.
          then-Safe (trace-Safe assigned ws io) (gets-Safe (λ s. or_success s.cmdsub_status))))

  note_exec-Safe : (ws : List Bytes) (tab io : Io) → Safe {W = W} (note_exec ws tab io)
  unfolding note_exec
  note_exec-Safe ws tab io =
      if-Safe (is_bare_exec ws)
        (modify-Safe (λ s. record s { fd_changes = record_fd_changes (diff tab io) s.fd_changes })
          (λ s. refl))
        (pure-Safe tt)

  run_words-Safe :
      (via : Option Bool) (t : Option Target) (asg : Assignments) (ws : List Bytes) (io tab : Io)
      → Safe (run_words host rec via t asg ws io tab)
  unfolding run_words
  run_words-Safe via none asg ws io tab =
      then-Safe (note_exec-Safe ws tab io) (only_assignments-Safe asg ws io)
  run_words-Safe via (some t) asg [] io tab =
      then-Safe (note_exec-Safe [] tab io) (only_assignments-Safe asg [] io)
  run_words-Safe via (some t) asg (name ∷ args) io tab =
      then-Safe (note_exec-Safe (name ∷ args) tab io)
        (run_target-Safe (names_special via (some t)) t via asg name args io tab)

  pub redirected-Safe :
      (rs : Redirects) (at_special : Bool) (io : Io) {body : Io → Eval W Status}
      → ((tab : Io) → Safe (body tab))
      → Safe (redirected host rs at_special io body)
  unfolding redirected
  redirected-Safe no_redirects at_special io inner = inner io
  redirected-Safe (redirects r rs) at_special io {body = body} inner =
      bind-Safe (apply_redirects-Safe host keeps (redirects r rs) io)
        (λ made. with_table-Safe at_special body made inner)

  pub run_simple-Safe :
      (asg : Assignments) (ws : Words) (rs : Redirects) (io : Io)
      → Safe (run_simple host rec asg ws rs io)
  unfolding run_simple
  run_simple-Safe asg ws rs io =
      then-Safe (modify-Safe (λ s. record s { cmdsub_status = none }) (λ s. refl)) (
        bind-Safe (call-Safe (host.expand_words ws io) (keeps.expand_words ws io)) (λ expanded.
          bind-Safe (or_fail-Safe expanded) (λ found. then-Safe (check_interrupt-Safe host) (
            bind-Safe (gets-Safe (λ s. s.functions))
              (λ functions. stripped functions (strip_command functions found))))))
    where
      stripped :
          (functions : List (Bytes × Command)) (r : List Bytes × Option Bool)
          → Safe (
              let (args, via) = r in
              let t = target_of functions via args in
              redirected host rs (names_special via t) io (run_words host rec via t asg args io))
      stripped functions (args, via) =
          redirected-Safe rs (names_special via (target_of functions via args)) io
            (run_words-Safe via (target_of functions via args) asg args io)
