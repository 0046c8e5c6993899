-- ===== src/Exec/Keeps.antt =====
-- The counters of `Shell` before and after a run, and the ways a run ends.
pub mod Combine
pub mod Change
pub mod Inside
pub mod Lists
pub mod Commands
pub mod Assign
pub mod Declared
pub mod Redirecting
pub mod Builtins
pub mod Simple
pub mod Run
use oh_my_shell.Base.{ℕ, ◌≤◌, Bytes, Option, none, some, List, ◌≡◌}
use oh_my_shell.Flow.{Status, Unwind, break_loops, continue_loops, return_with, Flow, ok, err}
use oh_my_shell.Io.{Io}
use oh_my_shell.Tree.{Word, Words, Assignments, Redirects}
use oh_my_shell.Exec.{Shell, Host, Result, Eval, call_flow}

-- The depth of calls, of loops and of functions, and how often `set -e` is switched off.
pub record Counters : Type 0 where
  pub calls : ℕ
  pub loops : ℕ
  pub functions : ℕ
  pub errexit_off : ℕ

abbrev pub counters : {W : Type 0} → Shell W → Counters
counters s = record {
  calls = s.depth;
  loops = s.loop_depth;
  functions = s.func_depth;
  errexit_off = s.errexit_off;
}

-- A `break` or `continue` names a loop at least, and a `return` is inside a function.
abbrev pub Allowed : Counters → Unwind → Type 0
Allowed c (break_loops n) = 1 ≤ n
Allowed c (continue_loops n) = 1 ≤ n
Allowed c (return_with _) = 1 ≤ c.functions
Allowed c _ = Unit

-- The counters at the end of a run that ended are those given, and the run ended as it may there.
abbrev pub Sound : {W A : Type 0} → Counters → Result W A → Type 0
Sound c none = Unit
Sound c (some (ok _, s)) = counters s ≡ c
Sound c (some (err u, s)) = (counters s ≡ c) × Allowed c u

-- A function of the interpreter keeps the counters, from every state.
pub record Safe {W A : Type 0} (m : Eval W A) : Type 0 where
  pub from : (s : Shell W) → Sound (counters s) (m s)

abbrev pub Quiet : {W A : Type 0} → (Shell W → A × Shell W) → Type 0
Quiet {W = W} f = (s : Shell W) → counters (f s).1 ≡ counters s

-- The parts of the shell that the interpreter calls keep the counters, and the builtins among them end as
-- they may.
pub record HostKeeps {W : Type 0} (host : Host W) : Type 0 where
  pub expand_words : (ws : Words) (io : Io) → Quiet (host.expand_words ws io)
  pub expand_target : (w : Word) (io : Io) → Quiet (host.expand_target w io)
  pub expand_pattern : (w : Word) (io : Io) → Quiet (host.expand_pattern w io)
  pub apply_assignments : (asg : Assignments) (io : Io) → Quiet (host.apply_assignments asg io)
  pub expand_heredoc : (w : Word) (io : Io) → Quiet (host.expand_heredoc w io)
  pub run_builtin :
      (name : Bytes) (args : List Bytes) (io : Io)
      → Safe (call_flow (host.run_builtin name args io))
  pub write_all : (fd : ℕ) (bytes : Bytes) (io : Io) → Quiet (host.write_all fd bytes io)
  pub run_external : (args : List Bytes) (io : Io) → Quiet (host.run_external args io)
