-- ===== src/Exec/Keeps/Declared.antt =====
-- The counters through the builtins of builtins/variables.rs and builtins/trap.rs.
use oh_my_shell.Base.{
  ℕ, Bytes, Bool, true, false, not, ◌||◌, Option, none, some, List, [], ◌∷◌, refl, ltb, length,
  Bool-cases, inl, inr, is_empty, codes, if◌then◌else◌,
}
use oh_my_shell.Builtins.{is_name, sorted, readonly_sorted}
use oh_my_shell.Flow.{Status, parse_count}
use oh_my_shell.Io.{Io}
use oh_my_shell.Vars
use oh_my_shell.Vars.{make_readonly}
use oh_my_shell.Exec.{Action, Host, Written, written, broken_pipe, write_failed}
use oh_my_shell.Exec.Declare
use oh_my_shell.Exec.Declare.{
  emitted, emit, skip_list_option, split_equals, export_lines, readonly_lines, set_value,
  export_one, export_names, export_after, readonly_one, readonly_names, readonly_after,
  unset_options, remove_function, unset_variable, unset_one, unset_names, unset_after, shift_by,
  shift_counted,
}
use oh_my_shell.Exec.SetOptions
use oh_my_shell.Exec.SetOptions.{
  SetResult, changed, listing, unsupported, set_lines, set_loop, between, list_options,
  new_positional, set_result,
}
use oh_my_shell.Exec.TrapBuiltin.{
  Signal, signal, unknown, not_yet, parse_signal, set_trap, trap_one, status_after, trap_signals,
  trap_lines, action_of, trap_action, skip_word, trap_arguments, trap,
}
use oh_my_shell.Exec.Keeps.{Safe, HostKeeps}
use oh_my_shell.Exec.Keeps.Assign.{assign_item-Safe, assigned-Sound}
use oh_my_shell.Exec.Keeps.Combine.{
  bind-Safe, then-Safe, pure-Safe, gets-Safe, call-Safe, modify-Safe, if-Safe, error-Safe,
}

set_value-Safe :
    {W : Type 0} (name : Bytes) (value : Option Bytes) → Safe {W = W} (set_value name value)
set_value-Safe name none = pure-Safe tt
set_value-Safe name (some value) = assign_item-Safe name value

export_one-Safe : {W : Type 0} (arg : Bytes × Option Bytes) → Safe {W = W} (export_one arg)
export_one-Safe (name, value) =
    if-Safe (is_name name)
      (then-Safe (set_value-Safe name value)
        (modify-Safe (λ s. record s { vars = Vars.export name s.vars }) (λ s. refl)))
      (pure-Safe tt)

export_names-Safe :
    {W : Type 0} (args : List Bytes) (status : Status) → Safe {W = W} (export_names args status)
unfolding export_names
export_names-Safe [] status = pure-Safe status
export_names-Safe (arg ∷ rest) status =
    then-Safe (export_one-Safe (split_equals arg))
      (export_names-Safe rest (if is_name (split_equals arg).0 then status else 1))

readonly_one-Safe : {W : Type 0} (arg : Bytes × Option Bytes) → Safe {W = W} (readonly_one arg)
readonly_one-Safe (name, value) =
    if-Safe (is_name name)
      (then-Safe (set_value-Safe name value)
        (modify-Safe (λ s. record s { vars = make_readonly name s.vars }) (λ s. refl)))
      (error-Safe 2)

readonly_names-Safe : {W : Type 0} (args : List Bytes) → Safe {W = W} (readonly_names args)
unfolding readonly_names
readonly_names-Safe [] = pure-Safe 0
readonly_names-Safe (arg ∷ rest) =
    then-Safe (readonly_one-Safe (split_equals arg)) (readonly_names-Safe rest)

unset_one-Safe :
    {W : Type 0} (functions : Bool) (name : Bytes) → Safe {W = W} (unset_one functions name)
unset_one-Safe functions name = if-Safe (not (is_name name)) (pure-Safe tt) (
    if-Safe functions
      (modify-Safe (λ s. record s { functions = remove_function name s.functions }) (λ s. refl))
      (record { from = λ s. assigned-Sound s (Vars.unset name s.vars) }))

unset_names-Safe :
    {W : Type 0} (functions : Bool) (args : List Bytes) (status : Status)
    → Safe {W = W} (unset_names functions args status)
unfolding unset_names
unset_names-Safe functions [] status = pure-Safe status
unset_names-Safe functions (name ∷ rest) status =
    then-Safe (unset_one-Safe functions name)
      (unset_names-Safe functions rest (if is_name name then status else 1))

pub unset-Safe : {W : Type 0} (args : List Bytes) → Safe {W = W} (Declare.unset args)
unfolding Declare.unset
unset-Safe {W = W} args = after (unset_options args false)
  where
    after : (r : Bool × List Bytes) → Safe {W = W} (unset_after r)
    after (functions, rest) = unset_names-Safe functions rest 0

shift_by-Safe : {W : Type 0} (count : ℕ) → Safe {W = W} (shift_by count)
shift_by-Safe count = record {
  from = λ s. elim (Bool-cases (ltb (length s.positional) count)) [
    | inl e ↦ rw e refl
    | inr e ↦ rw e refl
  ];
}

pub shift-Safe : {W : Type 0} (args : List Bytes) → Safe {W = W} (Declare.shift args)
unfolding Declare.shift
shift-Safe [] = shift_by-Safe 1
shift-Safe {W = W} (arg ∷ args) = counted (parse_count arg)
  where
    counted : (o : Option ℕ) → Safe {W = W} (shift_counted o)
    counted none = pure-Safe 2
    counted (some n) = shift_by-Safe n

module _ {W : Type 0} (host : Host W) (keeps : HostKeeps host) where
  emit-Safe : (fd : ℕ) (bytes : Bytes) (io : Io) → Safe (emit host fd bytes io)
  unfolding emit
  emit-Safe fd bytes io = bind-Safe (gets-Safe (λ s. s.in_subshell)) (λ in_subshell.
      bind-Safe (call-Safe (host.write_all fd bytes io) (keeps.write_all fd bytes io))
        (ended in_subshell))
    where
      ended : (in_subshell : Bool) (r : Written) → Safe {W = W} (emitted in_subshell r)
      ended in_subshell written = pure-Safe 0
      ended true broken_pipe = record { from = λ s. (refl, tt) }
      ended false broken_pipe = pure-Safe 1
      ended in_subshell write_failed = pure-Safe 1

  pub export-Safe : (args : List Bytes) (io : Io) → Safe (Declare.export host args io)
  unfolding Declare.export
  export-Safe args io = after (skip_list_option args false)
    where
      after : (r : Bool × List Bytes) → Safe (export_after host io r)
      after (shows, rest) =
          if-Safe (shows || is_empty rest)
            (bind-Safe (gets-Safe (λ s. export_lines (sorted s.vars)))
              (λ text. emit-Safe 1 text io))
            (export_names-Safe rest 0)

  pub readonly-Safe : (args : List Bytes) (io : Io) → Safe (Declare.readonly host args io)
  unfolding Declare.readonly
  readonly-Safe args io = after (skip_list_option args false)
    where
      after : (r : Bool × List Bytes) → Safe (readonly_after host io r)
      after (shows, rest) =
          if-Safe (shows || is_empty rest)
            (bind-Safe (gets-Safe (λ s. readonly_lines (readonly_sorted s.vars)))
              (λ text. emit-Safe 1 text io))
            (readonly_names-Safe rest)

  pub set-Safe : (args : List Bytes) (io : Io) → Safe (SetOptions.set host args io)
  unfolding SetOptions.set
  set-Safe [] io =
      bind-Safe (gets-Safe (λ s. set_lines (sorted s.vars))) (λ text. emit-Safe 1 text io)
  set-Safe (arg ∷ args) io =
      bind-Safe (gets-Safe (λ s. set_loop between s.options (arg ∷ args))) after
    where
      after : (r : SetResult) → Safe (set_result host io r)
      after (changed o given) =
          then-Safe
            (modify-Safe
              (λ s. record s { options = o; positional = new_positional given s.positional })
              (λ s. refl))
            (pure-Safe 0)
      after (listing o table) =
          bind-Safe (gets-Safe (λ s. list_options table s.interactive o))
            (λ text. emit-Safe 1 text io)
      after unsupported = pure-Safe 2

  trap_one-Safe : (action : Option Action) (r : Signal) → Safe (trap_one host action r)
  unfolding set_trap
  trap_one-Safe action (signal n) = modify-Safe (set_trap host n action) (λ s. refl)
  trap_one-Safe action unknown = pure-Safe tt
  trap_one-Safe action not_yet = pure-Safe tt

  trap_signals-Safe :
      (action : Option Action) (args : List Bytes) (status : Status)
      → Safe (trap_signals host action args status)
  unfolding trap_signals
  trap_signals-Safe action [] status = pure-Safe status
  trap_signals-Safe action (arg ∷ rest) status =
      then-Safe (trap_one-Safe action (parse_signal arg))
        (trap_signals-Safe action rest (status_after (parse_signal arg) status))

  pub trap-Safe : (args : List Bytes) (io : Io) → Safe (trap host args io)
  unfolding trap
  trap-Safe args io = from (skip_word (codes "-p") (skip_word (codes "--") args))
    where
      act : (r : Option Action × List Bytes) → Safe (trap_action host r)
      act (action, []) = pure-Safe 2
      act (action, arg ∷ rest) = trap_signals-Safe action (arg ∷ rest) 0

      from : (rest : List Bytes) → Safe (trap_arguments host io rest)
      from [] = bind-Safe (gets-Safe (λ s. trap_lines s.traps)) (λ text. emit-Safe 1 text io)
      from (first ∷ rest) = act (action_of host.lossy first rest)
