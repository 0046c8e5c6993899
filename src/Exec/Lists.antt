-- ===== src/Exec/Lists.antt =====
-- `run_items`, `run_and_or`, `run_pipeline` and `run_command` of exec/mod.rs, and exec/pipeline.rs. The
-- stages of a pipeline run at the same time; here each runs on its copy of the shell, one after the other,
-- and the world goes from one to the next.
use oh_my_shell.Base.{
  ℕ, Bool, true, false, not, Option, none, some, List, [], ◌∷◌, ◌++◌, ◌==◌, if◌then◌else◌,
}
use oh_my_shell.Flow.{Status, success}
use oh_my_shell.Io
use oh_my_shell.Io.{Slot, Io, Change}
use oh_my_shell.Tree.{
  AndOrOp, and_op, or_op, Stages, no_stages, stages, Pipeline, pipeline, AndOr, and_or, Rest,
  no_rest, part, Items, no_items, item,
}
use oh_my_shell.Exec.{Host, Eval, pure, gets, poll, ◌>>=◌, ◌>>◌, cmd, Rec, check_interrupt}
use oh_my_shell.Exec.Nesting.{ignoring_errexit, errexit_check}
use oh_my_shell.Exec.Traps.{run_pending_traps, on_copy}

abbrev pub or_io : Io → Option Io → Io
or_io io none = io
or_io io (some table) = table

-- `follow_fd_changes`
unfoldable pub follow_fd_changes : List Change → Io → Option Io → Option Io
follow_fd_changes [] base local = local
follow_fd_changes (c ∷ cs) base local = some (Io.apply (c ∷ cs) (or_io base local))

-- `retain(|(old, _)| *old != fd)`
unfoldable pub forget : ℕ → List Change → List Change
forget fd [] = []
forget fd ((old, slot) ∷ cs) = if old == fd then forget fd cs else (old, slot) ∷ forget fd cs

-- `record_fd_changes`
unfoldable pub record_fd_changes : List Change → List Change → List Change
unfolding forget
record_fd_changes [] recorded = recorded
record_fd_changes ((fd, slot) ∷ cs) recorded =
    record_fd_changes cs (forget fd recorded ++ (fd, slot) ∷ [])

-- The status of a stage whose thread could not be started.
abbrev pub not_started : Status
not_started = 1

abbrev pub if_started : {W : Type 0} → Eval W Status → Bool → Eval W Status
if_started stage true = stage
if_started stage false = pure not_started

-- The loop of `run_stages` over the commands, which gives the tables; `reader` is the end of the pipe
-- from the stage before. `none`: a pipe could not be made.
abbrev pub with_reader : Option Slot → Io → Io
with_reader none io = io
with_reader (some reader) io = Io.set 0 reader io

abbrev pub add_table : Io → Option (List Io) → Option (List Io)
add_table io none = none
add_table io (some ios) = some (io ∷ ios)

unfoldable pub make_tables :
    {W : Type 0} → Host W → Io → Option Slot → Stages → Eval W (Option (List Io))
make_tables host io reader no_stages = pure (some [])
make_tables host io reader (stages c no_stages) = pure (some (with_reader reader io ∷ []))
make_tables host io reader (stages c (stages d rest)) = do
  made ← poll host.pipe
  elim made [
    | none ↦ pure none
    | some (next, writer) ↦ (do
      tables ← make_tables host io (some next) (stages d rest)
      pure (add_table (Io.set 1 writer (with_reader reader io)) tables))
  ]

-- The stages, each with its table, and their statuses.
unfoldable pub run_stage_list :
    {W : Type 0} → Host W → Rec W → Stages → List Io → Eval W (List Status)
unfolding on_copy
run_stage_list host rec no_stages tables = pure []
run_stage_list host rec (stages c rest) [] = pure []
run_stage_list host rec (stages c rest) (table ∷ tables) = do
  started ← poll host.spawn
  status ← if_started (on_copy host rec table (rec (cmd c) table)) started
  statuses ← run_stage_list host rec rest tables
  pure (status ∷ statuses)

-- `statuses.last()`, and the last that is not a success.
unfoldable pub last_status : List Status → Status
last_status [] = success
last_status (s ∷ []) = s
last_status (s ∷ t ∷ rest) = last_status (t ∷ rest)

unfoldable pub last_failure : List Status → Status
last_failure [] = success
last_failure (s ∷ rest) = let later = last_failure rest in if later == success then s else later

-- The status of a pipeline.
unfoldable pub pipeline_status : Bool → List Status → Status
unfolding last_status last_failure
pipeline_status false statuses = last_status statuses
pipeline_status true statuses = last_failure statuses

unfoldable pub set_status : {W : Type 0} → Status → Eval W Status
set_status status s = pure status (record s { status = status })

unfoldable pub run_tables :
    {W : Type 0} → Host W → Rec W → Stages → Option (List Io) → Eval W Status
unfolding run_stage_list pipeline_status set_status check_interrupt
run_tables host rec commands none = pure 1
run_tables host rec commands (some tables) = do
  statuses ← run_stage_list host rec commands tables
  check_interrupt host
  status ← gets (λ s. pipeline_status (s.options).pipefail statuses)
  set_status status

-- `run_stages`
unfoldable pub run_stages : {W : Type 0} → Host W → Rec W → Stages → Io → Eval W Status
unfolding make_tables run_tables
run_stages host rec commands io = do
  tables ← make_tables host io none commands
  run_tables host rec commands tables

-- A pipeline without its `!`.
unfoldable pub run_commands : {W : Type 0} → Host W → Rec W → Stages → Io → Eval W Status
unfolding run_stages errexit_check
run_commands host rec (stages c no_stages) io = rec (cmd c) io
run_commands host rec commands io = do
  status ← run_stages host rec commands io
  errexit_check status
  pure status

abbrev pub negate : Status → Status
negate status = if status == success then 1 else success

-- `run_pipeline`
unfoldable pub run_pipeline : {W : Type 0} → Host W → Rec W → Pipeline → Io → Eval W Status
unfolding run_commands ignoring_errexit set_status
run_pipeline host rec (pipeline negated commands) io = do
  status ← ignoring_errexit negated (run_commands host rec commands io)
  if negated then set_status (negate status) else pure status

abbrev pub goes_on : AndOrOp → Status → Bool
goes_on and_op status = status == success
goes_on or_op status = not (status == success)

abbrev pub is_last : Rest → Bool
is_last no_rest = true
is_last (part _ _ _) = false

-- The loop of `run_and_or` over the rest.
unfoldable pub run_rest :
    {W : Type 0} → Host W → Rec W → Rest → Io → Option Io → Status → Eval W Status
unfolding run_pipeline ignoring_errexit follow_fd_changes
run_rest host rec no_rest io local status = pure status
run_rest host rec (part op p rest) io local status = do
  table ← gets (λ s. follow_fd_changes s.fd_changes io local)
  next ←
      if goes_on op status
      then ignoring_errexit (not (is_last rest)) (run_pipeline host rec p (or_io io table))
      else pure status
  run_rest host rec rest io table next

-- `run_and_or`
unfoldable pub run_and_or : {W : Type 0} → Host W → Rec W → AndOr → Io → Eval W Status
unfolding run_pipeline ignoring_errexit run_rest
run_and_or host rec (and_or first rest) io = do
  status ← ignoring_errexit (not (is_last rest)) (run_pipeline host rec first io)
  run_rest host rec rest io none status

-- The loop of `run_items`.
unfoldable pub run_items :
    {W : Type 0} → Host W → Rec W → Items → Io → Option Io → Status → Eval W Status
unfolding check_interrupt run_pending_traps run_and_or follow_fd_changes
run_items host rec no_items io local status = pure status
run_items host rec (item a background rest) io local status = do
  check_interrupt host
  run_pending_traps host rec (or_io io local)
  next ← run_and_or host rec a (or_io io local)
  table ← gets (λ s. follow_fd_changes s.fd_changes io local)
  run_pending_traps host rec (or_io io table)
  run_items host rec rest io table next
