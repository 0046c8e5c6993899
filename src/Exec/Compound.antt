-- ===== src/Exec/Compound.antt =====
-- exec/compound.rs: the compound commands.
use oh_my_shell.Base.{
  Bytes, Bool, true, false, not, Option, none, some, List, [], ◌∷◌, ◌==◌, if◌then◌else◌,
}
use oh_my_shell.Flow.{Status, success, usage, error_with, Flow, ok, err, loop_body}
use oh_my_shell.Io.{Io}
use oh_my_shell.Pattern.Matching.{is_match}
use oh_my_shell.Tree.{
  Words, no_words, words, Items, Kind, simple, subshell, group, if_branches, while_loop, until_loop,
  for_words, for_positional, case_of, function, Command, Branches, no_else, else_body, branch, Arms,
  no_arms, arm,
}
use oh_my_shell.Vars
use oh_my_shell.Vars.{Outcome}
use oh_my_shell.Exec.{
  Shell, Host, Result, Eval, pure, fail, gets, modify, call, ◌>>=◌, ◌>>◌, list, passes, Rec,
  check_interrupt,
}
use oh_my_shell.Exec.Nesting.{in_loop, ignoring_errexit}
use oh_my_shell.Exec.Traps.{on_copy}

abbrev pub same_truth : Bool → Bool → Bool
same_truth true b = b
same_truth false b = not b

-- `expand_failed`, which ends the line.
abbrev pub or_fail : {W A : Type 0} → Option A → Eval W A
or_fail none = fail (error_with usage)
or_fail (some a) = pure a

-- `run_if`: the branches, and what follows them.
unfoldable pub run_if : {W : Type 0} → Rec W → Branches → Io → Eval W Status
unfolding ignoring_errexit
run_if rec no_else io = pure success
run_if rec (else_body body) io = rec (list body) io
run_if rec (branch condition body rest) io = do
  status ← ignoring_errexit true (rec (list condition) io)
  if status == success then rec (list body) io else run_if rec rest io

-- One pass of a loop's body: `loop_body`, of what `run_list` returned.
abbrev pub went_on : {W : Type 0} → Flow Bool × Status → Eval W (Bool × Status)
went_on (ok again, next) s = some (ok (again, next), s)
went_on (err u, next) s = some (err u, s)

abbrev pub body_result : {W : Type 0} → Status → Result W Status → Result W (Bool × Status)
body_result status none = none
body_result status (some (flow, s)) = went_on (loop_body flow status) s

unfoldable pub run_body : {W : Type 0} → Rec W → Items → Io → Status → Eval W (Bool × Status)
unfolding loop_body
run_body rec body io status s = body_result status (rec (list body) io s)

-- One round of `loop_passes`, which goes on by a call of its own.
unfoldable pub run_passes :
    {W : Type 0} → Host W → Rec W → Items → Items → Bool → Status → Io → Eval W Status
unfolding check_interrupt ignoring_errexit run_body
run_passes host rec condition body until status io = do
  check_interrupt host
  tested ← ignoring_errexit true (rec (list condition) io)
  if same_truth (tested == success) until then pure status else (do
    (again, next) ← run_body rec body io status
    if again then rec (passes condition body until next) io else pure next)

-- `self.vars.set(&command.name, item)`, and the end of the line where it is read only.
abbrev pub assigned : {W : Type 0} → Shell W → Outcome → Result W (Unit {0})
assigned s (Outcome.ok vars) = some (ok tt, record s { vars = vars })
assigned s (Outcome.read_only vars) = some (err (error_with usage), record s { vars = vars })

unfoldable pub assign_item : {W : Type 0} → Bytes → Bytes → Eval W (Unit {0})
assign_item name value s = assigned s (Vars.set name value s.vars)

-- `for_passes`
unfoldable pub for_passes :
    {W : Type 0} → Host W → Rec W → Bytes → Items → List Bytes → Status → Io → Eval W Status
unfolding check_interrupt assign_item run_body
for_passes host rec name body [] status io = pure status
for_passes host rec name body (value ∷ values) status io = do
  check_interrupt host
  assign_item name value
  (again, next) ← run_body rec body io status
  if again then for_passes host rec name body values next io else pure next

-- The patterns of one arm: whether one of them matches.
unfoldable pub any_matches : {W : Type 0} → Host W → Bytes → Words → Io → Eval W Bool
any_matches host word no_words io = pure false
any_matches host word (words p rest) io = do
  pattern ← call (host.expand_pattern p io)
  compiled ← or_fail pattern
  if is_match compiled word then pure true else any_matches host word rest io

-- `run_case`: the arms, for the word that was expanded.
unfoldable pub run_arms : {W : Type 0} → Host W → Rec W → Bytes → Arms → Io → Eval W Status
unfolding any_matches
run_arms host rec word no_arms io = pure success
run_arms host rec word (arm patterns body rest) io = do
  found ← any_matches host word patterns io
  if found then rec (list body) io else run_arms host rec word rest io

-- `HashMap::insert`
unfoldable pub define : Bytes → Command → List (Bytes × Command) → List (Bytes × Command)
define name body functions = (name, body) ∷ functions

-- `run_compound`; simple commands do not come here.
unfoldable pub run_compound : {W : Type 0} → Host W → Rec W → Kind → Io → Eval W Status
unfolding on_copy run_if in_loop for_passes run_arms define
run_compound host rec (simple asg name) io = gets (λ s. s.status)
run_compound host rec (subshell body) io = on_copy host rec io (rec (list body) io)
run_compound host rec (group body) io = rec (list body) io
run_compound host rec (if_branches branches) io = run_if rec branches io
run_compound host rec (while_loop condition body) io =
    in_loop (rec (passes condition body false success) io)
run_compound host rec (until_loop condition body) io =
    in_loop (rec (passes condition body true success) io)
run_compound host rec (for_words name ws body) io = do
  expanded ← call (host.expand_words ws io)
  items ← or_fail expanded
  in_loop (for_passes host rec name body items success io)
run_compound host rec (for_positional name body) io = do
  items ← gets (λ s. s.positional)
  in_loop (for_passes host rec name body items success io)
run_compound host rec (case_of w arms) io = do
  expanded ← call (host.expand_target w io)
  word ← or_fail expanded
  run_arms host rec word arms io
run_compound host rec (function name body) io = do
  modify (λ s. record s { functions = define name body s.functions })
  pure success
