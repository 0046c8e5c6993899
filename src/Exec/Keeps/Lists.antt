-- ===== src/Exec/Keeps/Lists.antt =====
-- The counters through items, and-or lists and pipelines.
use oh_my_shell.Base.{
  ℕ, Bool, true, false, not, ◌||◌, Option, none, some, List, [], ◌∷◌, refl, if◌then◌else◌,
}
use oh_my_shell.Flow.{Status}
use oh_my_shell.Io
use oh_my_shell.Io.{Slot, Io}
use oh_my_shell.Tree.{
  Stages, no_stages, stages, Pipeline, pipeline, AndOr, and_or, Rest, no_rest, part, Items,
  no_items, item,
}
use oh_my_shell.Exec.{Shell, Host, Eval, pure, poll, ◌>>=◌, ◌>>◌, Call, cmd, text, Rec}
use oh_my_shell.Exec.Lists.{
  or_io, follow_fd_changes, if_started, with_reader, add_table, make_tables, run_stage_list,
  pipeline_status, run_tables, run_stages, run_commands, negate, run_pipeline, goes_on, is_last,
  run_rest, run_and_or, run_items,
}
use oh_my_shell.Exec.Nesting.{errexit_check}
use oh_my_shell.Exec.Traps.{get, run_traps, run_pending_traps, on_copy}
use oh_my_shell.Exec.Keeps.{counters, Sound, Safe}
use oh_my_shell.Exec.Keeps.Combine.{
  bind-Safe, then-Safe, pure-Safe, gets-Safe, poll-Safe, if-Safe, set_status-Safe,
  check_interrupt-Safe, errexit_check-Safe,
}
use oh_my_shell.Exec.Keeps.Change.{ignoring_errexit-Safe}
use oh_my_shell.Exec.Keeps.Inside.{run_trap-Safe, on_copy-Safe}

module _ {W : Type 0} (host : Host W) (rec : Rec W)
    (safe : (c : Call) (io : Io) → Safe (rec c io)) where
  run_traps-Safe : (io : Io) (arrived : List ℕ) → Safe (run_traps rec io arrived)
  unfolding run_traps
  run_traps-Safe io [] = pure-Safe tt
  run_traps-Safe io (signal ∷ arrived) = bind-Safe (gets-Safe (λ s. get signal s.traps)) (λ action.
      then-Safe (run_trap-Safe rec io action (λ src. safe (text src) io))
        (run_traps-Safe io arrived))

  run_pending_traps-Safe : (io : Io) → Safe (run_pending_traps host rec io)
  unfolding run_pending_traps
  run_pending_traps-Safe io = record { from = λ s. from s (s.in_subshell || s.running_trap) }
    where
      from :
          (s : Shell W) (b : Bool)
          → Sound
              (counters s)
              (if b then pure tt s else (poll host.take_pending >>= run_traps rec io) s)
      from s true = refl
      from s false = (bind-Safe (poll-Safe host.take_pending) (run_traps-Safe io)).from s

  make_tables-Safe :
      (io : Io) (reader : Option Slot) (commands : Stages)
      → Safe (make_tables host io reader commands)
  unfolding make_tables
  make_tables-Safe io reader no_stages = pure-Safe (some [])
  make_tables-Safe io reader (stages c no_stages) = pure-Safe (some (with_reader reader io ∷ []))
  make_tables-Safe io reader (stages c (stages d rest)) =
      bind-Safe (poll-Safe host.pipe)
        (with_pipe (λ next. make_tables-Safe io (some next) (stages d rest)))
    where
      with_pipe :
          ((next : Slot) → Safe (make_tables host io (some next) (stages d rest)))
          → (made : Option (Slot × Slot))
          → Safe {W = W} {A = Option (List Io)} (elim made [
            | none ↦ pure none
            | some (next, writer) ↦ (do
              tables ← make_tables host io (some next) (stages d rest)
              pure (add_table (Io.set 1 writer (with_reader reader io)) tables))
          ])
      with_pipe others none = pure-Safe none
      with_pipe others (some (next, writer)) =
          bind-Safe (others next)
            (λ tables. pure-Safe (add_table (Io.set 1 writer (with_reader reader io)) tables))

  if_started-Safe : (m : Eval W Status) (b : Bool) → Safe m → Safe (if_started m b)
  if_started-Safe m true h = h
  if_started-Safe m false h = pure-Safe 1

  run_stage_list-Safe :
      (commands : Stages) (tables : List Io) → Safe (run_stage_list host rec commands tables)
  unfolding run_stage_list
  run_stage_list-Safe no_stages tables = pure-Safe []
  run_stage_list-Safe (stages c rest) [] = pure-Safe []
  run_stage_list-Safe (stages c rest) (table ∷ tables) =
      bind-Safe (poll-Safe host.spawn) (λ started.
        bind-Safe
          (if_started-Safe (on_copy host rec table (rec (cmd c) table)) started
            (on_copy-Safe host rec table (rec (cmd c) table)))
          (λ status.
            bind-Safe (run_stage_list-Safe rest tables)
              (λ statuses. pure-Safe (status ∷ statuses))))

  run_tables-Safe :
      (commands : Stages) (tables : Option (List Io)) → Safe (run_tables host rec commands tables)
  unfolding run_tables
  run_tables-Safe commands none = pure-Safe 1
  run_tables-Safe commands (some tables) =
      bind-Safe (run_stage_list-Safe commands tables) (λ statuses.
        then-Safe (check_interrupt-Safe host) (
          bind-Safe (gets-Safe (λ s. pipeline_status (s.options).pipefail statuses))
            set_status-Safe))

  run_stages-Safe : (commands : Stages) (io : Io) → Safe (run_stages host rec commands io)
  unfolding run_stages
  run_stages-Safe commands io =
      bind-Safe (make_tables-Safe io none commands) (run_tables-Safe commands)

  several-Safe :
      (commands : Stages) (io : Io)
      → Safe (run_stages host rec commands io >>= λ status. errexit_check status >> pure status)
  several-Safe commands io =
      bind-Safe (run_stages-Safe commands io)
        (λ status. then-Safe (errexit_check-Safe status) (pure-Safe status))

  run_commands-Safe : (commands : Stages) (io : Io) → Safe (run_commands host rec commands io)
  unfolding run_commands
  run_commands-Safe no_stages io = several-Safe no_stages io
  run_commands-Safe (stages c no_stages) io = safe (cmd c) io
  run_commands-Safe (stages c (stages d rest)) io = several-Safe (stages c (stages d rest)) io

  run_pipeline-Safe : (p : Pipeline) (io : Io) → Safe (run_pipeline host rec p io)
  unfolding run_pipeline
  run_pipeline-Safe (pipeline negated commands) io =
      bind-Safe (ignoring_errexit-Safe negated (run_commands-Safe commands io))
        (λ status. if-Safe negated (set_status-Safe (negate status)) (pure-Safe status))

  run_rest-Safe :
      (rest : Rest) (io : Io) (local : Option Io) (status : Status)
      → Safe (run_rest host rec rest io local status)
  unfolding run_rest
  run_rest-Safe no_rest io local status = pure-Safe status
  run_rest-Safe (part op p rest) io local status =
      bind-Safe (gets-Safe (λ s. follow_fd_changes s.fd_changes io local)) (λ table.
        bind-Safe
          (if-Safe (goes_on op status)
            (ignoring_errexit-Safe (not (is_last rest)) (run_pipeline-Safe p (or_io io table)))
            (pure-Safe status))
          (run_rest-Safe rest io table))

  run_and_or-Safe : (a : AndOr) (io : Io) → Safe (run_and_or host rec a io)
  unfolding run_and_or
  run_and_or-Safe (and_or first rest) io =
      bind-Safe (ignoring_errexit-Safe (not (is_last rest)) (run_pipeline-Safe first io))
        (run_rest-Safe rest io none)

  pub run_items-Safe :
      (items : Items) (io : Io) (local : Option Io) (status : Status)
      → Safe (run_items host rec items io local status)
  unfolding run_items
  run_items-Safe no_items io local status = pure-Safe status
  run_items-Safe (item a background rest) io local status = then-Safe (check_interrupt-Safe host) (
      then-Safe (run_pending_traps-Safe (or_io io local)) (
        bind-Safe (run_and_or-Safe a (or_io io local)) (λ next.
          bind-Safe (gets-Safe (λ s. follow_fd_changes s.fd_changes io local)) (λ table.
            then-Safe (run_pending_traps-Safe (or_io io table))
              (run_items-Safe rest io table next)))))
