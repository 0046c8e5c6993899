-- ===== src/Exec/Keeps/Inside.antt =====
-- The counters through what runs inside of something: functions, sourced files, traps and copies of the shell.
use mathlib.Core.Path.{subst}
use oh_my_shell.Base.{
  ℕ, ◌+◌, ◌-◌, Bytes, true, Option, none, some, List, ◌≡◌, refl, sym, ap, ◌∙◌, leb, Bool-cases, inl,
  inr, arith,
}
use oh_my_shell.Flow.{
  Status, exit_with, return_with, error_with, break_loops, continue_loops, interrupted, Flow, ok,
  err, boundary, catch_return,
}
use oh_my_shell.Io.{Io}
use oh_my_shell.Tree.{Command}
use oh_my_shell.Exec.{Shell, Host, Result, Eval, text, Rec, cmd, Action, ignore, run_command}
use oh_my_shell.Exec.Nesting.{max_depth, after, nested}
use oh_my_shell.Exec.Simple.{caught, left_function, with_arguments, call_function}
use oh_my_shell.Exec.Source.{left_file, run_file, positional_after, arguments_or}
use oh_my_shell.Exec.Traps.{
  subshell, after_trap, run_trap, back, finish_copy, on_copy, exit_status, run_exit_command,
  run_exit_trap, remove, get,
}
use oh_my_shell.Exec.Keeps.{Counters, counters, Sound, Safe}
use oh_my_shell.Exec.Keeps.Change.{nested-Safe}

abbrev fewer_functions : Counters → Counters
fewer_functions c = record c { functions = c.functions - 1 }

abbrev more_functions : Counters → Counters
more_functions c = record c { functions = c.functions + 1 }

add-sub : (n : ℕ) → n + 1 - 1 ≡ n
add-sub n = omega arith

fewer-more : (c : Counters) → fewer_functions (more_functions c) ≡ c
fewer-more c = ap (λ n. record c { functions = n }) (add-sub c.functions)

-- `return` is allowed in a function or a sourced file, and ends it.
catch_return-Sound :
    {W : Type 0} (c : Counters) (flow : Flow Status) (t u : Shell W)
    → counters u ≡ fewer_functions (counters t)
    → Sound (more_functions c) (some (flow, t))
    → Sound c (some (catch_return flow, u))
unfolding catch_return
catch_return-Sound c (ok status) t u e h = e ∙ (ap fewer_functions h ∙ fewer-more c)
catch_return-Sound c (err (return_with n)) t u e (h, a) = e ∙ (ap fewer_functions h ∙ fewer-more c)
catch_return-Sound c (err (exit_with n)) t u e (h, a) =
    (e ∙ (ap fewer_functions h ∙ fewer-more c), tt)
catch_return-Sound c (err (error_with n)) t u e (h, a) =
    (e ∙ (ap fewer_functions h ∙ fewer-more c), tt)
catch_return-Sound c (err interrupted) t u e (h, a) =
    (e ∙ (ap fewer_functions h ∙ fewer-more c), tt)
catch_return-Sound c (err (break_loops n)) t u e (h, a) =
    (e ∙ (ap fewer_functions h ∙ fewer-more c), a)
catch_return-Sound c (err (continue_loops n)) t u e (h, a) =
    (e ∙ (ap fewer_functions h ∙ fewer-more c), a)

-- Catching the `return` outside of the count of calls is catching it inside.
caught-nested :
    {W : Type 0} (m : Eval W Status) (s : Shell W)
    → caught (nested m s) ≡ nested (λ t. caught (m t)) s
unfolding nested catch_return
caught-nested {W = W} m s = elim (Bool-cases (leb max_depth s.depth)) [
  | inl e ↦ rw e refl
  | inr e ↦ rw e (commutes (m (record s { depth = s.depth + 1 })))
]
  where
    less : Shell W → Shell W
    less t = record t { depth = t.depth - 1 }

    commutes : (r : Result W Status) → caught (after less r) ≡ after less (caught r)
    commutes none = refl
    commutes (some (flow, t)) = refl

caught_arguments-Sound :
    {W : Type 0} (c : Counters) (saved : List Bytes) (r : Result W Status)
    → Sound (more_functions c) r
    → Sound c (caught (left_function saved r))
caught_arguments-Sound c saved none h = tt
caught_arguments-Sound c saved (some (flow, t)) h =
    catch_return-Sound c flow t (record t { func_depth = t.func_depth - 1; positional = saved })
      refl h

pub call_function-Safe :
    {W : Type 0} (rec : Rec W) (c : Command) (args : List Bytes) (io : Io)
    → Safe (rec (cmd c) io)
    → Safe (call_function rec c args io)
unfolding call_function with_arguments
call_function-Safe {W = W} rec c args io safe = record {
  from = λ s.
      subst (Sound (counters s)) (sym (caught-nested (with_arguments args (rec (cmd c) io)) s))
        ((nested-Safe inner).from s);
}
  where
    inner : Safe {W = W} {A = Status} (λ t. caught (with_arguments args (rec (cmd c) io) t))
    inner = record {
      from = λ t.
          caught_arguments-Sound (counters t) t.positional
            (rec (cmd c) io (record t { positional = args; func_depth = t.func_depth + 1 }))
            (safe.from (record t { positional = args; func_depth = t.func_depth + 1 }));
    }

left_file-Sound :
    {W : Type 0} (c : Counters) (saved args : List Bytes) (r : Result W Status)
    → Sound (more_functions c) r
    → Sound c (left_file saved args r)
left_file-Sound c saved args none h = tt
left_file-Sound c saved args (some (flow, t)) h =
    catch_return-Sound c flow t
      (record t {
        func_depth = t.func_depth - 1;
        positional = positional_after saved args t.positional;
      })
      refl h

pub run_file-Safe :
    {W : Type 0} (args : List Bytes) {body : Eval W Status} → Safe body → Safe (run_file args body)
unfolding run_file
run_file-Safe args {body = body} safe = record {
  from = λ s.
      left_file-Sound (counters s) s.positional args
        (body
          (record s { func_depth = s.func_depth + 1; positional = arguments_or s.positional args }))
        (safe.from (record s {
          func_depth = s.func_depth + 1;
          positional = arguments_or s.positional args;
        }));
}

-- A trap: `break`, `continue` and `return` in its command do not come out.
after_trap-Sound :
    {W : Type 0} (c : Counters) (saved : Status) (r : Result W Status)
    → Sound c r
    → Sound c (after_trap saved r)
after_trap-Sound c saved none h = tt
after_trap-Sound c saved (some (ok status, s)) h = h
after_trap-Sound c saved (some (err (exit_with n), s)) h = h
after_trap-Sound c saved (some (err (error_with n), s)) h = h
after_trap-Sound c saved (some (err interrupted, s)) h = h
after_trap-Sound c saved (some (err (return_with n), s)) (h, a) = h
after_trap-Sound c saved (some (err (break_loops n), s)) (h, a) = h
after_trap-Sound c saved (some (err (continue_loops n), s)) (h, a) = h

pub run_trap-Safe :
    {W : Type 0} (rec : Rec W) (io : Io) (action : Option Action)
    → ((src : Bytes) → Safe (rec (text src) io))
    → Safe (run_trap rec io action)
unfolding run_trap
run_trap-Safe rec io none safe = record { from = λ s. refl }
run_trap-Safe rec io (some ignore) safe = record { from = λ s. refl }
run_trap-Safe rec io (some (run_command src)) safe = record {
  from = λ s.
      after_trap-Sound (counters s) s.status (rec (text src) io (record s { running_trap = true }))
        ((safe src).from (record s { running_trap = true }));
}

-- A copy of the shell ends with a status, whatever ended its body.
abbrev Finished : {W : Type 0} → Result W Status → Type 0
Finished none = Unit
Finished (some (ok _, _)) = Unit
Finished (some (err _, _)) = ⊥

exit_status-Finished :
    {W : Type 0} (status : Status) (r : Result W Status) → Finished (exit_status status r)
exit_status-Finished status none = tt
exit_status-Finished status (some (ok n, s)) = tt
exit_status-Finished status (some (err (exit_with n), s)) = tt
exit_status-Finished status (some (err (return_with n), s)) = tt
exit_status-Finished status (some (err (error_with n), s)) = tt
exit_status-Finished status (some (err (break_loops n), s)) = tt
exit_status-Finished status (some (err (continue_loops n), s)) = tt
exit_status-Finished status (some (err interrupted, s)) = tt

run_exit_command-Finished :
    {W : Type 0} (rec : Rec W) (status : Status) (io : Io) (action : Option Action) (s : Shell W)
    → Finished (run_exit_command rec status io action s)
run_exit_command-Finished rec status io none s = tt
run_exit_command-Finished rec status io (some ignore) s = tt
run_exit_command-Finished rec status io (some (run_command src)) s =
    exit_status-Finished status
      (rec (text src) io (record s { traps = remove 0 s.traps; status = status }))

finish_copy-Finished :
    {W : Type 0} (rec : Rec W) (io : Io) (r : Result W Status) → Finished (finish_copy rec io r)
unfolding finish_copy run_exit_trap
finish_copy-Finished rec io none = tt
finish_copy-Finished rec io (some (flow, s)) =
    run_exit_command-Finished rec (boundary flow) io (get 0 s.traps) s

back-Sound :
    {W : Type 0} (s : Shell W) (r : Result W Status) → Finished r → Sound (counters s) (back s r)
back-Sound s none h = tt
back-Sound s (some (ok status, t)) h = refl
back-Sound s (some (err _, t)) h = absurd h

pub on_copy-Safe :
    {W : Type 0} (host : Host W) (rec : Rec W) (io : Io) (body : Eval W Status)
    → Safe (on_copy host rec io body)
unfolding on_copy
on_copy-Safe host rec io body = record {
  from = λ s.
      back-Sound s (finish_copy rec io (body (subshell host s)))
        (finish_copy-Finished rec io (body (subshell host s)));
}
