-- ===== src/Exec/TrapBuiltin.antt =====
-- builtins/trap.rs, and the signals of traps.rs.
use oh_my_shell.Base.{
  ℕ, ◌^◌, Bytes, Bool, not, ◌&&◌, ◌||◌, Option, none, some, List, [], ◌∷◌, ◌++◌, within, ltb, ◌==◌,
  if◌then◌else◌, all, codes, bytes_eq, is_empty, take, drop,
}
use oh_my_shell.Arith.Number.{to_string}
use oh_my_shell.Builtins.{quote}
use oh_my_shell.Flow.{Status, success, usage, digits_value}
use oh_my_shell.Io.{Io}
use oh_my_shell.Test.{one_of}
use oh_my_shell.Exec.{
  Action, ignore, run_command, Disposition, default, ignored, caught, Shell, Host, Eval, pure, gets,
  modify, ◌>>=◌, ◌>>◌,
}
use oh_my_shell.Exec.Declare.{emit}
use oh_my_shell.Exec.Traps
use oh_my_shell.Exec.Traps.{Traps}

-- `SIGNALS`
abbrev pub signals : List (Bytes × ℕ)
signals =
    (codes "EXIT", 0)
    ∷ (codes "HUP", 1)
    ∷ (codes "INT", 2)
    ∷ (codes "QUIT", 3)
    ∷ (codes "USR1", 10)
    ∷ (codes "USR2", 12)
    ∷ (codes "ALRM", 14)
    ∷ (codes "TERM", 15)
    ∷ []

unfoldable pub signal_of : Bytes → List (Bytes × ℕ) → Option ℕ
unfolding bytes_eq
signal_of name [] = none
signal_of name ((n, number) ∷ rest) = if bytes_eq n name then some number else signal_of name rest

unfoldable pub name_of : ℕ → List (Bytes × ℕ) → Option Bytes
name_of number [] = none
name_of number ((name, n) ∷ rest) = if n == number then some name else name_of number rest

-- `signal_name`
abbrev pub or_number : ℕ → Option Bytes → Bytes
or_number signal none = to_string signal
or_number signal (some name) = name

unfoldable pub signal_name : ℕ → Bytes
unfolding name_of
signal_name signal = or_number signal (name_of signal signals)

-- What `parse_signal` returns; the last two are `Bad`.
pub data Signal : Type 0 where
  signal : ℕ → Signal
  unknown not_yet : Signal

-- The real signals that cannot be trapped yet.
abbrev pub later : List Bytes
later =
    codes "CHLD"
    ∷ codes "CONT"
    ∷ codes "TSTP"
    ∷ codes "TTIN"
    ∷ codes "TTOU"
    ∷ codes "PIPE"
    ∷ codes "WINCH"
    ∷ codes "URG"
    ∷ codes "ABRT"
    ∷ codes "FPE"
    ∷ codes "ILL"
    ∷ codes "SEGV"
    ∷ codes "BUS"
    ∷ codes "TRAP"
    ∷ codes "SYS"
    ∷ codes "VTALRM"
    ∷ codes "PROF"
    ∷ codes "XCPU"
    ∷ codes "XFSZ"
    ∷ []

abbrev pub is_number : Bytes → Bool
is_number text = not (is_empty text) && all (within b'0' b'9') text

abbrev pub numbered : ℕ → Option Bytes → Signal
numbered n (some name) = signal n
numbered n none = if within 1 64 n && not (n == 9 || n == 19) then not_yet else unknown

abbrev pub without_sig : Bytes → Bytes
without_sig text = if bytes_eq (take 3 text) (codes "SIG") then drop 3 text else text

abbrev pub by_name : Bytes → Option ℕ → Signal
by_name name (some n) = signal n
by_name name none = if one_of name later then not_yet else unknown

-- `parse_signal`
unfoldable pub parse_signal : Bytes → Signal
unfolding bytes_eq signal_of name_of one_of
parse_signal text =
    let n = digits_value 0 text in
    if is_number text
    then (if ltb n (2 ^ 31) then numbered n (name_of n signals) else unknown)
    else by_name (without_sig text) (signal_of (without_sig text) signals)

abbrev pub disposition : Option Action → Disposition
disposition none = default
disposition (some ignore) = ignored
disposition (some (run_command _)) = caught

-- `set`: the disposition belongs to the process, and a copy of the shell leaves it.
unfoldable pub set_trap : {W : Type 0} → Host W → ℕ → Option Action → Shell W → Shell W
unfolding Traps.set
set_trap host n action s = record s {
  world =
      if ltb 0 n && not s.in_subshell
      then host.set_disposition n (disposition action) s.world
      else s.world;
  traps = Traps.set n action s.traps;
}

abbrev pub trap_one : {W : Type 0} → Host W → Option Action → Signal → Eval W (Unit {0})
trap_one host action (signal n) = modify (set_trap host n action)
trap_one host action unknown = pure tt
trap_one host action not_yet = pure tt

abbrev pub status_after : Signal → Status → Status
status_after (signal n) status = status
status_after unknown status = 1
status_after not_yet status = 1

-- The loop of `trap` over the signals.
unfoldable pub trap_signals :
    {W : Type 0} → Host W → Option Action → List Bytes → Status → Eval W Status
unfolding parse_signal set_trap
trap_signals host action [] status = pure status
trap_signals host action (text ∷ rest) status = do
  trap_one host action (parse_signal text)
  trap_signals host action rest (status_after (parse_signal text) status)

abbrev pub action_text : Action → Bytes
action_text ignore = codes "''"
action_text (run_command text) = quote text

-- `list`
unfoldable pub trap_lines : Traps → Bytes
unfolding quote signal_name
trap_lines [] = []
trap_lines ((n, action) ∷ traps) =
    codes "trap -- " ++ action_text action ++ 0x20 ∷ signal_name n ++ 0x0A ∷ trap_lines traps

-- The action and the signals that the arguments name.
abbrev pub action_of : (Bytes → Bytes) → Bytes → List Bytes → Option Action × List Bytes
action_of lossy first rest =
    if is_number first || is_empty rest && not (bytes_eq first (codes "-"))
    then (none, first ∷ rest)
    else if bytes_eq first (codes "-")
    then (none, rest)
    else if is_empty first
    then (some ignore, rest)
    else (some (run_command (lossy first)), rest)

abbrev pub trap_action : {W : Type 0} → Host W → Option Action × List Bytes → Eval W Status
trap_action host (action, []) = pure usage
trap_action host (action, text ∷ rest) = trap_signals host action (text ∷ rest) success

abbrev pub skip_word : Bytes → List Bytes → List Bytes
skip_word word [] = []
skip_word word (arg ∷ rest) = if bytes_eq arg word then rest else arg ∷ rest

abbrev pub trap_arguments : {W : Type 0} → Host W → Io → List Bytes → Eval W Status
trap_arguments host io [] = gets (λ s. trap_lines s.traps) >>= λ text. emit host 1 text io
trap_arguments host io (first ∷ rest) = trap_action host (action_of host.lossy first rest)

-- `trap`
unfoldable pub trap : {W : Type 0} → Host W → List Bytes → Io → Eval W Status
unfolding bytes_eq trap_lines emit trap_signals
trap host args io = trap_arguments host io (skip_word (codes "-p") (skip_word (codes "--") args))
