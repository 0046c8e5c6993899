-- ===== src/Exec/Nesting.antt =====
-- The counters of exec/mod.rs: `enter`, `run_list`, `ignoring_errexit` and `errexit_check`.
use oh_my_shell.Base.{
  ℕ, ◌+◌, ◌-◌, Bool, true, false, not, ◌&&◌, none, some, leb, ◌==◌, if◌then◌else◌,
}
use oh_my_shell.Flow.{Status, success, usage, exit_with, error_with}
use oh_my_shell.Exec.{Shell, Result, Eval, fail, pure}

-- What is done to the state however the command ended.
abbrev pub after : {W A : Type 0} → (Shell W → Shell W) → Result W A → Result W A
after f none = none
after f (some (r, s)) = some (r, f s)

-- `MAX_DEPTH`
abbrev pub max_depth : ℕ
max_depth = 500

-- `enter`, the body and `self.depth -= 1`.
unfoldable pub nested : {W A : Type 0} → Eval W A → Eval W A
nested body s =
    if leb max_depth s.depth
    then fail (error_with usage) s
    else after (λ t. record t { depth = t.depth - 1 }) (body (record s { depth = s.depth + 1 }))

-- `self.loop_depth += 1; ...; self.loop_depth -= 1`
unfoldable pub in_loop : {W A : Type 0} → Eval W A → Eval W A
in_loop body s =
    after (λ t. record t { loop_depth = t.loop_depth - 1 })
      (body (record s { loop_depth = s.loop_depth + 1 }))

-- `ignoring_errexit`
unfoldable pub ignoring_errexit : {W A : Type 0} → Bool → Eval W A → Eval W A
ignoring_errexit false body s = body s
ignoring_errexit true body s =
    after (λ t. record t { errexit_off = t.errexit_off - 1 })
      (body (record s { errexit_off = s.errexit_off + 1 }))

-- `errexit_check`
unfoldable pub errexit_check : {W : Type 0} → Status → Eval W (Unit {0})
errexit_check status s =
    if not (status == success) && (s.options.errexit && s.errexit_off == 0)
    then fail (exit_with status) s
    else pure tt s
