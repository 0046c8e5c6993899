-- ===== src/Flow/Loops.antt =====
-- The ends that `break n` and `continue n` give.
use oh_my_shell.Base.{
  ℕ, ◌≤◌, Bytes, Option, none, some, List, [], ◌∷◌, leb, Bool-cases, inl, inr, ◌==◌, arith,
}
use oh_my_shell.Flow.{
  Status, success, Unwind, Flow, ok, err, Shell, parse_count, minimum, unwind_loops, counted,
  loop_control,
}

-- What holds of every end that `break` or `continue` gives.
pub by_cases :
    (shell : Shell) (args : List Bytes) (make : ℕ → Unwind) (P : Flow Status → Type 0)
    → ((s : Status) → P (ok s))
    → ((n : ℕ) → 1 ≤ n → n ≤ shell.loop_depth → P (err (make n)))
    → P (loop_control shell args make)
unfolding loop_control
by_cases shell args make P p q = from args
  where
    unwind : (count : ℕ) → 1 ≤ count → P (unwind_loops shell make count)
    unwind count l = elim (Bool-cases (shell.loop_depth == 0)) [
      | inl e ↦ rw e (p success)
      | inr e ↦ rw e (q (minimum count shell.loop_depth) (ground arith) (ground arith))
    ]

    with_count : (o : Option ℕ) → P (counted shell make o)
    with_count none = p 2
    with_count (some n) = elim (Bool-cases (leb 1 n)) [
      | inl e ↦ rw e (unwind n (ground arith))
      | inr e ↦ rw e (p 2)
    ]

    from : (args : List Bytes) → P (loop_control shell args make)
    from [] = unwind 1 (omega arith)
    from (arg ∷ args) = with_count (parse_count arg)
