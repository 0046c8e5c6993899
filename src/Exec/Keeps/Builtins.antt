-- ===== src/Exec/Keeps/Builtins.antt =====
-- The counters through the builtins.
use oh_my_shell.Base.{
  ℕ, ◌≤◌, arith, any, all, leb, Bytes, Option, none, some, List, [], ◌∷◌, refl, ◌==◌, if◌then◌else◌,
  Bool-cases, inl, inr, bytes_eq, codes,
}
use oh_my_shell.Arith.Variable.{is_whitespace}
use oh_my_shell.Chars.{units, invalid_base}
use oh_my_shell.Flow.Loops.{by_cases}
use oh_my_shell.Flow.{
  parse_count, Unwind, Status, success, usage, Flow, ok, err, break_loops, continue_loops,
}
use oh_my_shell.Flow
use oh_my_shell.Io.{Io}
use oh_my_shell.Test.{one_of, parse_i64}
use oh_my_shell.Exec.{Shell, Host, Call, text, Rec}
use oh_my_shell.Exec.Simple.{flow_shell, run_builtin}
use oh_my_shell.Exec.Source
use oh_my_shell.Exec.Source.{is_invalid, join, find_sourced, run_source, read_source, run_file}
use oh_my_shell.Exec.Keeps.{counters, Allowed, Sound, Safe, HostKeeps}
use oh_my_shell.Exec.Keeps.Declared.{
  export-Safe, readonly-Safe, unset-Safe, shift-Safe, set-Safe, trap-Safe,
}
use oh_my_shell.Exec.Keeps.Combine.{bind-Safe, pure-Safe, gets-Safe, if-Safe}
use oh_my_shell.Exec.Keeps.Inside.{run_file-Safe}

-- `exit`, `return`, `break` and `continue` end as they may.
exit-Sound :
    {W : Type 0} (args : List Bytes) (s : Shell W)
    → Sound (counters s) (some (Flow.exit (flow_shell s) args, s))
unfolding Flow.exit
exit-Sound [] s = (refl, tt)
exit-Sound (arg ∷ args) s =
    low (if any (leb invalid_base) (units arg) then none else parse_i64 (units arg))
  where
    low : (n : Option ℕ) → Sound (counters s) (some (Flow.low_byte n, s))
    low none = (refl, tt)
    low (some n) = (refl, tt)

return_-Sound :
    {W : Type 0} (args : List Bytes) (s : Shell W)
    → Sound (counters s) (some (Flow.return_ (flow_shell s) args, s))
unfolding Flow.return_
return_-Sound {W = W} args s = elim (Bool-cases (s.func_depth == 0)) [
  | inl e ↦ rw e refl
  | inr e ↦ rw e (inside args (ground arith))
]
  where
    counted : 1 ≤ s.func_depth → (n : Option ℕ) → Sound (counters s) (some (Flow.return_count n, s))
    counted l none = refl
    counted l (some n) = (refl, l)

    inside :
        (words_left : List Bytes)
        → 1 ≤ s.func_depth
        → Sound (counters s) (some (Flow.return_status (flow_shell s) words_left, s))
    inside [] l = (refl, l)
    inside (arg ∷ rest) l = counted l (parse_count arg)

loop_control-Sound :
    {W : Type 0} (args : List Bytes) (make : ℕ → Unwind) (s : Shell W)
    → ((n : ℕ) → 1 ≤ n → Allowed (counters s) (make n))
    → Sound (counters s) (some (Flow.loop_control (flow_shell s) args make, s))
loop_control-Sound args make s allowed =
    by_cases (flow_shell s) args make (λ flow. Sound (counters s) (some (flow, s))) (λ status. refl)
      (λ n l h. (refl, allowed n l))

module _ {W : Type 0} (host : Host W) (keeps : HostKeeps host) (rec : Rec W)
    (safe : (c : Call) (io : Io) → Safe (rec c io)) where
  dot-Safe : (args : List Bytes) (io : Io) → Safe (Source.dot host rec args io)
  unfolding Source.dot
  dot-Safe [] io = pure-Safe 2
  dot-Safe (name ∷ args) io = bind-Safe (gets-Safe (λ s. find_sourced host s name)) with_path_
    where
      with_text : (src : Option Bytes) → Safe (run_source rec args io src)
      with_text none = pure-Safe 1
      with_text (some src) =
          if-Safe (is_invalid src) (pure-Safe 2) (run_file-Safe args (safe (text src) io))

      with_path_ : (path : Option Bytes) → Safe (read_source host rec args io path)
      with_path_ none = pure-Safe 1
      with_path_ (some path) = bind-Safe (gets-Safe (host.read_file path)) with_text

  eval-Safe : (args : List Bytes) (io : Io) → Safe (Source.eval rec args io)
  unfolding Source.eval
  eval-Safe args io =
      if-Safe (is_invalid (join args)) (pure-Safe 2)
        (if-Safe (all is_whitespace (units (join args))) (pure-Safe 0) (safe (text (join args)) io))

  pub run_builtin-Safe :
      (name : Bytes) (args : List Bytes) (io : Io) → Safe (run_builtin host rec name args io)
  unfolding run_builtin
  run_builtin-Safe name args io =
      if-Safe (one_of name (codes ":" ∷ codes "true" ∷ [])) (pure-Safe 0) (
        if-Safe (bytes_eq name (codes "false")) (pure-Safe 1) (
          if-Safe (one_of name (codes "." ∷ codes "source" ∷ [])) (dot-Safe args io) (
            if-Safe (bytes_eq name (codes "eval")) (eval-Safe args io) (
              if-Safe (bytes_eq name (codes "exit")) (record { from = exit-Sound args })
                (if-Safe (bytes_eq name (codes "return")) (record { from = return_-Sound args })
                  (if-Safe (bytes_eq name (codes "break"))
                    (record { from = λ s. loop_control-Sound args break_loops s (λ n l. l) })
                    (if-Safe (bytes_eq name (codes "continue"))
                      (record { from = λ s. loop_control-Sound args continue_loops s (λ n l. l) })
                      (if-Safe (bytes_eq name (codes "export")) (export-Safe host keeps args io) (
                        if-Safe (bytes_eq name (codes "readonly"))
                          (readonly-Safe host keeps args io)
                          (if-Safe (bytes_eq name (codes "unset")) (unset-Safe args) (
                            if-Safe (bytes_eq name (codes "shift")) (shift-Safe args) (
                              if-Safe (bytes_eq name (codes "set")) (set-Safe host keeps args io) (
                                if-Safe (bytes_eq name (codes "trap"))
                                  (trap-Safe host keeps args io)
                                  (keeps.run_builtin name args io))))))))))))))
