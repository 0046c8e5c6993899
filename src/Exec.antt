-- ===== src/Exec.antt =====
-- crates/omsh-exec/src/exec: running a list. This file has what the interpreter's functions share: the
-- state of the shell, and the parts of the shell that they call and that are not modelled.
pub mod Traps
pub mod Nesting
pub mod Lists
pub mod Names
pub mod Simple
pub mod Compound
pub mod Check
pub mod Text
pub mod Source
pub mod Redirection
pub mod Declare
pub mod SetOptions
pub mod TrapBuiltin
pub mod Run
pub mod Keeps
pub mod Copies
pub mod Statuses
pub mod Trace
use oh_my_shell.Base.{
  ℕ, zero, suc, ◌+◌, ◌-◌, Bytes, Bool, true, false, ◌&&◌, Option, none, some, List, [], ◌∷◌, ◌++◌,
  ◌==◌, if◌then◌else◌,
}
use oh_my_shell.Flow.{Status, Unwind, interrupted, Flow, ok, err}
use oh_my_shell.Io.{Slot, Io, Change}
use oh_my_shell.Options.{Options}
use oh_my_shell.Pattern.{Pattern}
use oh_my_shell.Tree.{Word, Words, Assignments, Redirects, Command, Items}
use oh_my_shell.Vars.{Variables}

-- `Action` of traps.rs
pub data Action : Type 0 where
  ignore : Action
  run_command : Bytes → Action

-- `Shell` of shell.rs, and the world outside of it: files, signals that arrived, the process. The cache
-- of the search path is part of the world here.
pub record Shell (W : Type 0) : Type 0 where
  pub world : W
  pub vars : Variables
  pub status : Status
  pub positional : List Bytes
  pub name : Bytes
  pub interactive : Bool
  pub cmdsub_status : Option Status
  pub functions : List (Bytes × Command)
  pub aliases : List (Bytes × Bytes)
  pub traps : List (ℕ × Action)
  pub running_trap : Bool
  pub fd_changes : List Change
  pub umask_override : Option ℕ
  pub path_override : Option Bytes
  pub options : Options
  pub errexit_off : ℕ
  pub cwd_override : Option Bytes
  pub in_subshell : Bool
  pub depth : ℕ
  pub loop_depth : ℕ
  pub func_depth : ℕ

-- What `apply_redirects` returns: the table, or one of the two constructors of `RedirectError`.
pub data Redirected : Type 0 where
  table : Io → Redirected
  failed expand_error : Redirected

-- The flags of `open`, and what it returns: the error `EEXIST` is told apart.
pub data Access : Type 0 where
  to_read to_write to_both : Access

pub record Flags : Type 0 where
  pub access : Access
  pub create : Bool
  pub exclusive : Bool
  pub truncate : Bool
  pub append : Bool

pub data Opened : Type 0 where
  opened : Slot → Opened
  exists open_failed : Opened

-- What `parse` returns for a text whose aliases are expanded.
pub data Parsed : Type 0 where
  parsed : Items → Parsed
  incomplete rejected : Parsed

-- `Disposition` of signals.rs
pub data Disposition : Type 0 where
  default ignored caught : Disposition

-- What `write_all` returns: the error `EPIPE` is told apart.
pub data Written : Type 0 where
  written broken_pipe write_failed : Written

-- The parts of the shell that the interpreter calls. Each may change the shell; `none` is an
-- `ExpandError`.
pub record Host (W : Type 0) : Type 0 where
  -- `signals::interrupted` and `signals::take_pending`, the signals in increasing order
  pub interrupted : W → Bool × W
  pub take_pending : W → List ℕ × W
  -- `std::env::current_dir` and `pipe2`
  pub current_dir : W → Option Bytes
  pub pipe : W → Option (Slot × Slot) × W
  -- starting the thread of a stage
  pub spawn : W → Bool × W
  -- `expand_aliases` and `parse`
  pub parse : List (Bytes × Bytes) → Bytes → Parsed
  -- `Expander::expand_words`, `target`, `pattern` and `apply_assignments`
  pub expand_words : Words → Io → Shell W → Option (List Bytes) × Shell W
  pub expand_target : Word → Io → Shell W → Option Bytes × Shell W
  pub expand_pattern : Word → Io → Shell W → Option Pattern × Shell W
  pub apply_assignments : Assignments → Io → Shell W → Option (List (Bytes × Bytes)) × Shell W
  -- `Expander::heredoc_body`, and `memory_file`
  pub expand_heredoc : Word → Io → Shell W → Option Bytes × Shell W
  pub memory_file : Bytes → W → Option Slot × W
  -- `open` of a path under a directory, if there is one, and `fchmod`
  pub open_at : Flags → Option Bytes → Bytes → W → Opened × W
  pub fchmod : Slot → ℕ → W → Bool × W
  -- `builtins::run`, for the builtins that Simple.run_builtin does not name
  pub run_builtin : Bytes → List Bytes → Io → Shell W → Flow Status × Shell W
  -- `is_file` of the metadata, and `read`, of `resolve(path)`
  pub is_file : Bytes → Shell W → Bool
  pub read_file : Bytes → Shell W → Option Bytes
  -- `Io::write_all`
  pub write_all : ℕ → Bytes → Io → Shell W → Written × Shell W
  -- `String::from_utf8_lossy`, and `set_disposition`
  pub lossy : Bytes → Bytes
  pub set_disposition : ℕ → Disposition → W → W
  -- `run_external`
  pub run_external : List Bytes → Io → Shell W → Status × Shell W

-- What a function of the interpreter does; `none`: out of fuel.
abbrev pub Result : Type 0 → Type 0 → Type 0
Result W A = Option (Flow A × Shell W)

abbrev pub Eval : Type 0 → Type 0 → Type 0
Eval W A = Shell W → Result W A

abbrev pub pure : {W A : Type 0} → A → Eval W A
pure a s = some (ok a, s)

abbrev pub fail : {W A : Type 0} → Unwind → Eval W A
fail u s = some (err u, s)

-- Returns what was computed from the state.
abbrev pub gets : {W A : Type 0} → (Shell W → A) → Eval W A
gets f s = some (ok (f s), s)

abbrev pub modify : {W : Type 0} → (Shell W → Shell W) → Eval W (Unit {0})
modify f s = some (ok tt, f s)

-- A call of the host that does not unwind.
abbrev pub call : {W A : Type 0} → (Shell W → A × Shell W) → Eval W A
call f s = let (a, s') = f s in some (ok a, s')

abbrev pub call_flow : {W A : Type 0} → (Shell W → Flow A × Shell W) → Eval W A
call_flow f s = some (f s)

-- What a builtin that changes nothing ends with.
abbrev pub flow_of : {W A : Type 0} → (Shell W → Flow A) → Eval W A
flow_of f s = some (f s, s)

-- A call on the world.
abbrev pub poll : {W A : Type 0} → (W → A × W) → Eval W A
poll f s = let (a, w) = f s.world in some (ok a, record s { world = w })

-- `?`
abbrev pub continue : {W A B : Type 0} → (A → Eval W B) → Result W A → Result W B
continue f none = none
continue f (some (ok a, s)) = f a s
continue f (some (err u, s)) = some (err u, s)

infixl 5 ◌>>=◌ ◌>>◌
abbrev pub ◌>>=◌ : {W A B : Type 0} → Eval W A → (A → Eval W B) → Eval W B
◌>>=◌ m f s = continue f (m s)

abbrev pub ◌>>◌ : {W A B : Type 0} → Eval W A → Eval W B → Eval W B
m >> k = m >>= λ _. k

-- The calls by which the functions of the interpreter reach one another. `passes` is the loop of
-- `loop_passes`, with the condition, the body, `until` and the status so far; `text` is `run_text`.
pub data Call : Type 0 where
  list : Items → Call
  cmd : Command → Call
  passes : Items → Items → Bool → Status → Call
  text : Bytes → Call

abbrev pub Rec : Type 0 → Type 0
Rec W = Call → Io → Eval W Status

-- `if signals::interrupted() { return Err(Unwind::Interrupted) }`
unfoldable pub check_interrupt : {W : Type 0} → Host W → Eval W (Unit {0})
check_interrupt host = do
  stopped ← poll host.interrupted
  if stopped then fail interrupted else pure tt
