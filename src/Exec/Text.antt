-- ===== src/Exec/Text.antt =====
-- `run_text` of builtins/source.rs: text that is run as shell code, a complete command at a time.
use oh_my_shell.Base.{
  ℕ, Bytes, Bool, true, false, List, [], ◌∷◌, ◌++◌, ◌==◌, if◌then◌else◌, is_empty,
}
use oh_my_shell.Flow.{Status, usage}
use oh_my_shell.Io.{Io}
use oh_my_shell.Tree.{Items}
use oh_my_shell.Exec.{
  Parsed, parsed, incomplete, rejected, Host, Eval, pure, gets, ◌>>=◌, ◌>>◌, list, Rec,
}
use oh_my_shell.Exec.Lists.{set_status}
use oh_my_shell.Exec.Check.{check_list}

abbrev pub to_first : ℕ → List Bytes → List Bytes
to_first b [] = (b ∷ []) ∷ []
to_first b (line ∷ lines) = (b ∷ line) ∷ lines

-- The standard library's `split_inclusive('\n')`.
unfoldable pub split_lines : Bytes → List Bytes
split_lines [] = []
split_lines (b ∷ rest) =
    let lines = split_lines rest in if b == 0x0A then (b ∷ []) ∷ lines else to_first b lines

-- A list that was read: it is run, if nothing in it cannot run yet, and then `others` with its status.
abbrev pub run_checked :
    {W : Type 0} → Rec W → Io → (Status → Eval W Status) → Items → Bool → Eval W Status
run_checked rec io others items true = do next ← rec (list items) io; set_status next; others next
run_checked rec io others items false = pure usage

-- The loop of `run_text`: the lines left, the text that is not complete yet and the status so far.
abbrev pub run_parsed :
    {W : Type 0}
    → Rec W
    → Io
    → (Bytes → Status → Eval W Status)
    → Bool
    → Bytes
    → Status
    → Parsed
    → Eval W Status
run_parsed rec io others at_end pending status (parsed items) =
    run_checked rec io (others []) items (check_list items)
run_parsed rec io others true pending status incomplete = pure usage
run_parsed rec io others false pending status incomplete = others pending status
run_parsed rec io others at_end pending status rejected = pure usage

unfoldable pub run_lines :
    {W : Type 0} → Host W → Rec W → Io → List Bytes → Bytes → Status → Eval W Status
unfolding check_list set_status
run_lines host rec io [] pending status = pure status
run_lines host rec io (line ∷ lines) pending status = do
  found ← gets (λ s. host.parse s.aliases (pending ++ line))
  run_parsed rec io (run_lines host rec io lines) (is_empty lines) (pending ++ line) status found

-- `run_text`
unfoldable pub run_text : {W : Type 0} → Host W → Rec W → Bytes → Io → Eval W Status
unfolding split_lines run_lines
run_text host rec src io = do
  status ← gets (λ s. s.status)
  run_lines host rec io (split_lines src) [] status
