-- ===== src/Exec/Keeps/Change.antt =====
-- The counters through the functions that change one for what they run, and change it back.
use oh_my_shell.Base.{
  ℕ, ◌+◌, ◌-◌, Bool, true, false, none, some, ◌≡◌, refl, ap, ◌∙◌, ltb, leb, Bool-cases, inl, inr,
  arith,
}
use oh_my_shell.Flow.{
  Status, Unwind, exit_with, return_with, error_with, break_loops, continue_loops, interrupted, ok,
  err, loop_body,
}
use oh_my_shell.Io.{Io}
use oh_my_shell.Tree.{Items}
use oh_my_shell.Exec.{Shell, Result, Eval, list, Rec}
use oh_my_shell.Exec.Compound.{body_result, run_body}
use oh_my_shell.Exec.Nesting.{max_depth, after, nested, in_loop, ignoring_errexit}
use oh_my_shell.Exec.Keeps.{Counters, counters, Allowed, Sound, Safe}

-- `f` changes the counters as `g` does, and takes those of the body to those in front of it.
after-Sound :
    {W A : Type 0} (c d : Counters) (r : Result W A) (f : Shell W → Shell W)
    (g : Counters → Counters)
    → ((s : Shell W) → counters (f s) ≡ g (counters s))
    → g d ≡ c
    → ((u : Unwind) → Allowed d u → Allowed c u)
    → Sound d r
    → Sound c (after f r)
after-Sound c d none f g e e' allow h = tt
after-Sound c d (some (ok a, s)) f g e e' allow h = e s ∙ (ap g h ∙ e')
after-Sound c d (some (err u, s)) f g e e' allow (h, a) = (e s ∙ (ap g h ∙ e'), allow u a)

abbrev fewer_calls : Counters → Counters
fewer_calls c = record c { calls = c.calls - 1 }

add-sub : (n : ℕ) → n + 1 - 1 ≡ n
add-sub n = omega arith

pub nested-Safe : {W A : Type 0} {body : Eval W A} → Safe body → Safe (nested body)
unfolding nested
nested-Safe {W = W} {body = body} safe = record { from = from }
  where
    deeper : Shell W → Shell W
    deeper s = record s { depth = s.depth + 1 }

    from : (s : Shell W) → Sound (counters s) (nested body s)
    from s = elim (Bool-cases (leb max_depth s.depth)) [
      | inl e ↦ rw e (refl, tt)
      | inr e ↦ rw e (
          after-Sound (counters s) (counters (deeper s)) (body (deeper s))
            (λ t. record t { depth = t.depth - 1 }) fewer_calls (λ t. refl)
            (ap (λ n. record (counters s) { calls = n }) (add-sub s.depth)) (λ u a. a)
            (safe.from (deeper s)))
    ]

abbrev fewer_ignored : Counters → Counters
fewer_ignored c = record c { errexit_off = c.errexit_off - 1 }

pub ignoring_errexit-Safe :
    {W A : Type 0} (on : Bool) {body : Eval W A} → Safe body → Safe (ignoring_errexit on body)
unfolding ignoring_errexit
ignoring_errexit-Safe false safe = record { from = safe.from }
ignoring_errexit-Safe {W = W} true {body = body} safe = record {
  from = λ s.
      after-Sound (counters s) (counters (record s { errexit_off = s.errexit_off + 1 }))
        (body (record s { errexit_off = s.errexit_off + 1 }))
        (λ t. record t { errexit_off = t.errexit_off - 1 }) fewer_ignored (λ t. refl)
        (ap (λ n. record (counters s) { errexit_off = n }) (add-sub s.errexit_off)) (λ u a. a)
        (safe.from (record s { errexit_off = s.errexit_off + 1 }));
}

abbrev fewer_loops : Counters → Counters
fewer_loops c = record c { loops = c.loops - 1 }

pub in_loop-Safe : {W A : Type 0} {body : Eval W A} → Safe body → Safe (in_loop body)
unfolding in_loop
in_loop-Safe {W = W} {body = body} safe = record {
  from = λ s.
      after-Sound (counters s) (counters (record s { loop_depth = s.loop_depth + 1 }))
        (body (record s { loop_depth = s.loop_depth + 1 }))
        (λ t. record t { loop_depth = t.loop_depth - 1 }) fewer_loops (λ t. refl)
        (ap (λ n. record (counters s) { loops = n }) (add-sub s.loop_depth)) (allowed s)
        (safe.from (record s { loop_depth = s.loop_depth + 1 }));
}
  where
    allowed :
        (s : Shell W) (u : Unwind)
        → Allowed (counters (record s { loop_depth = s.loop_depth + 1 })) u
        → Allowed (counters s) u
    allowed s (exit_with n) a = a
    allowed s (return_with n) a = a
    allowed s (error_with n) a = a
    allowed s (break_loops n) a = a
    allowed s (continue_loops n) a = a
    allowed s interrupted a = a

-- What one pass of a loop hands on.
body_result-Sound :
    {W : Type 0} (c : Counters) (status : Status) (r : Result W Status)
    → Sound c r
    → Sound c (body_result status r)
unfolding loop_body
body_result-Sound c status none h = tt
body_result-Sound c status (some (ok last, s)) h = h
body_result-Sound c status (some (err (exit_with n), s)) h = h
body_result-Sound c status (some (err (return_with n), s)) h = h
body_result-Sound c status (some (err (error_with n), s)) h = h
body_result-Sound c status (some (err interrupted, s)) h = h
body_result-Sound c status (some (err (break_loops n), s)) (h, l) = elim (Bool-cases (ltb 1 n)) [
  | inl e ↦ rw e (h, ground arith)
  | inr e ↦ rw e h
]
body_result-Sound c status (some (err (continue_loops n), s)) (h, l) = elim (Bool-cases (ltb 1 n)) [
  | inl e ↦ rw e (h, ground arith)
  | inr e ↦ rw e h
]

pub run_body-Safe :
    {W : Type 0} (rec : Rec W) (items : Items) (io : Io) (status : Status)
    → Safe (rec (list items) io)
    → Safe (run_body rec items io status)
unfolding run_body
run_body-Safe rec items io status safe = record {
  from = λ s. body_result-Sound (counters s) status (rec (list items) io s) (safe.from s);
}
