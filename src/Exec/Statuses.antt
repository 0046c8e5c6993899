-- ===== src/Exec/Statuses.antt =====
-- The status of a pipeline.
use oh_my_shell.Base.{
  Bool, true, false, List, [], ◌∷◌, ◌++◌, ◌≡◌, refl, ◌==◌, if◌then◌else◌, all, arith,
}
use oh_my_shell.Flow.{Status, success}
use oh_my_shell.Exec.Lists.{last_status, last_failure, pipeline_status}

abbrev pub all_succeed : List Status → Bool
all_succeed = all (λ s. s == success)

last_status-append : (before : List Status) (s : Status) → last_status (before ++ s ∷ []) ≡ s
unfolding last_status
last_status-append [] s = refl
last_status-append (r ∷ []) s = refl
last_status-append (r ∷ q ∷ before) s = last_status-append (q ∷ before) s

last_failure-all_succeed :
    (statuses : List Status) → all_succeed statuses ≡ true → last_failure statuses ≡ success
unfolding last_failure
last_failure-all_succeed [] h = refl
last_failure-all_succeed (s ∷ statuses) h = ground (arith, last_failure-all_succeed statuses)

last_failure-append :
    (before after : List Status) (s : Status)
    → all_succeed after ≡ true
    → last_failure (before ++ s ∷ after) ≡ (if s == success then last_failure before else s)
unfolding last_failure
last_failure-append [] after s e = rw (last_failure-all_succeed after e) (ground arith)
last_failure-append (r ∷ before) after s e =
    rw (last_failure-append before after s e) (ground arith)

-- Without `pipefail` the status of a pipeline is that of its last stage. With it, and if the stages behind
-- a stage succeed, it is the status of that stage, if it failed, and otherwise what the stages in front of it give;
-- without stages it is a success.
pub pipeline_status_lem :
    (before after : List Status) (s : Status)
    → all_succeed after ≡ true
    → (pipeline_status false (before ++ s ∷ []) ≡ s)
      × (pipeline_status true (before ++ s ∷ after)
          ≡ (if s == success then pipeline_status true before else s))
      × (pipeline_status true [] ≡ success)
unfolding pipeline_status last_failure
pipeline_status_lem before after s h =
    (last_status-append before s, last_failure-append before after s h, refl)
