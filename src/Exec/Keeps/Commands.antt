-- ===== src/Exec/Keeps/Commands.antt =====
-- The counters through compound commands.
use oh_my_shell.Base.{Bytes, Bool, true, false, List, [], ◌∷◌, refl, ◌==◌, if◌then◌else◌}
use oh_my_shell.Flow.{Status, success}
use oh_my_shell.Io.{Io}
use oh_my_shell.Pattern.Matching.{is_match}
use oh_my_shell.Tree.{
  Words, no_words, words, Items, Kind, simple, subshell, group, if_branches, while_loop, until_loop,
  for_words, for_positional, case_of, function, Branches, no_else, else_body, branch, Arms, no_arms,
  arm,
}
use oh_my_shell.Exec.{Host, pure, Call, list, passes, Rec}
use oh_my_shell.Exec.Compound.{
  run_if, same_truth, run_passes, for_passes, any_matches, run_arms, define, run_compound,
}
use oh_my_shell.Exec.Keeps.{Safe, HostKeeps}
use oh_my_shell.Exec.Keeps.Assign.{assign_item-Safe}
use oh_my_shell.Exec.Keeps.Combine.{
  bind-Safe, then-Safe, pure-Safe, gets-Safe, call-Safe, modify-Safe, if-Safe, or_fail-Safe,
  check_interrupt-Safe,
}
use oh_my_shell.Exec.Keeps.Change.{in_loop-Safe, ignoring_errexit-Safe, run_body-Safe}
use oh_my_shell.Exec.Keeps.Inside.{on_copy-Safe}

module _ {W : Type 0} (host : Host W) (keeps : HostKeeps host) (rec : Rec W)
    (safe : (c : Call) (io : Io) → Safe (rec c io)) where
  run_if-Safe : (branches : Branches) (io : Io) → Safe (run_if rec branches io)
  unfolding run_if
  run_if-Safe no_else io = pure-Safe success
  run_if-Safe (else_body body) io = safe (list body) io
  run_if-Safe (branch condition body rest) io =
      bind-Safe (ignoring_errexit-Safe true (safe (list condition) io))
        (λ status. if-Safe (status == success) (safe (list body) io) (run_if-Safe rest io))

  pub run_passes-Safe :
      (condition body : Items) (until : Bool) (status : Status) (io : Io)
      → Safe (run_passes host rec condition body until status io)
  unfolding run_passes
  run_passes-Safe condition body until status io = then-Safe (check_interrupt-Safe host) (
      bind-Safe (ignoring_errexit-Safe true (safe (list condition) io)) (λ tested.
        if-Safe (same_truth (tested == success) until) (pure-Safe status)
          (bind-Safe (run_body-Safe rec body io status (safe (list body) io)) next)))
    where
      next :
          (r : Bool × Status)
          → Safe (
              let (again, last) = r in
              if again then rec (passes condition body until last) io else pure last)
      next (again, last) =
          if-Safe again (safe (passes condition body until last) io) (pure-Safe last)

  for_passes-Safe :
      (name : Bytes) (body : Items) (values : List Bytes) (status : Status) (io : Io)
      → Safe (for_passes host rec name body values status io)
  unfolding for_passes
  for_passes-Safe name body [] status io = pure-Safe status
  for_passes-Safe name body (value ∷ values) status io = then-Safe (check_interrupt-Safe host) (
      then-Safe (assign_item-Safe name value) (
        bind-Safe (run_body-Safe rec body io status (safe (list body) io))
          (next (λ last. for_passes-Safe name body values last io))))
    where
      next :
          ((last : Status) → Safe (for_passes host rec name body values last io))
          → (r : Bool × Status)
          → Safe (
              let (again, last) = r in
              if again then for_passes host rec name body values last io else pure last)
      next others (again, last) = if-Safe again (others last) (pure-Safe last)

  any_matches-Safe :
      (word : Bytes) (patterns : Words) (io : Io) → Safe (any_matches host word patterns io)
  unfolding any_matches
  any_matches-Safe word no_words io = pure-Safe false
  any_matches-Safe word (words p rest) io =
      bind-Safe (call-Safe (host.expand_pattern p io) (keeps.expand_pattern p io)) (λ pattern.
        bind-Safe (or_fail-Safe pattern) (λ compiled.
          if-Safe (is_match compiled word) (pure-Safe true) (any_matches-Safe word rest io)))

  run_arms-Safe : (word : Bytes) (arms : Arms) (io : Io) → Safe (run_arms host rec word arms io)
  unfolding run_arms
  run_arms-Safe word no_arms io = pure-Safe success
  run_arms-Safe word (arm patterns body rest) io =
      bind-Safe (any_matches-Safe word patterns io)
        (λ found. if-Safe found (safe (list body) io) (run_arms-Safe word rest io))

  pub run_compound-Safe : (kind : Kind) (io : Io) → Safe (run_compound host rec kind io)
  unfolding run_compound
  run_compound-Safe (simple asg name) io = gets-Safe (λ s. s.status)
  run_compound-Safe (subshell body) io = on_copy-Safe host rec io (rec (list body) io)
  run_compound-Safe (group body) io = safe (list body) io
  run_compound-Safe (if_branches branches) io = run_if-Safe branches io
  run_compound-Safe (while_loop condition body) io =
      in_loop-Safe (safe (passes condition body false success) io)
  run_compound-Safe (until_loop condition body) io =
      in_loop-Safe (safe (passes condition body true success) io)
  run_compound-Safe (for_words name ws body) io =
      bind-Safe (call-Safe (host.expand_words ws io) (keeps.expand_words ws io)) (λ expanded.
        bind-Safe (or_fail-Safe expanded)
          (λ items. in_loop-Safe (for_passes-Safe name body items success io)))
  run_compound-Safe (for_positional name body) io =
      bind-Safe (gets-Safe (λ s. s.positional))
        (λ items. in_loop-Safe (for_passes-Safe name body items success io))
  run_compound-Safe (case_of w arms) io =
      bind-Safe (call-Safe (host.expand_target w io) (keeps.expand_target w io))
        (λ expanded. bind-Safe (or_fail-Safe expanded) (λ word. run_arms-Safe word arms io))
  run_compound-Safe (function name body) io =
      then-Safe
        (modify-Safe (λ s. record s { functions = define name body s.functions }) (λ s. refl))
        (pure-Safe success)
