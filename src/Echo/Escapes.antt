-- ===== src/Echo/Escapes.antt =====
-- `echo -e` of arguments whose backslashes are doubled.
use oh_my_shell.Base.{
  ℕ, zero, suc, ◌≤◌, Bytes, true, false, List, [], ◌∷◌, ◌++◌, ◌≡◌, refl, map, ◌==◌, if◌then◌else◌,
  length, codes, Bool-cases, inl, inr, arith,
}
use oh_my_shell.Base.Run.{done, ◌>>=◌}
use oh_my_shell.Echo.{
  step, escaped, before, is_option, set_letters, escaped_loop, push_escaped, write_args, echo,
  read_options,
}

-- A text for `echo -e`: each backslash is written twice.
unfoldable pub double_backslashes : Bytes → Bytes
double_backslashes [] = []
double_backslashes (b ∷ s) =
    let rest = double_backslashes s in if b == b'\\' then b'\\' ∷ b'\\' ∷ rest else b ∷ rest

plain_round :
    (f b : ℕ) (rest : Bytes)
    → (b == b'\\') ≡ false
    → escaped_loop (suc f) (b ∷ rest)
      ≡ (escaped_loop f rest >>= λ more. done (before (b ∷ []) more))
unfolding escaped_loop step
plain_round f b [] h = refl
plain_round f b (c ∷ rest) h = rw h refl

double_round :
    (f : ℕ) (rest : Bytes)
    → escaped_loop (suc f) (b'\\' ∷ b'\\' ∷ rest)
      ≡ (escaped_loop f rest >>= λ more. done (before (b'\\' ∷ []) more))
unfolding escaped_loop step escaped
double_round f rest = refl

loop-double :
    (s : Bytes) (f : ℕ)
    → length (double_backslashes s) ≤ f
    → escaped_loop f (double_backslashes s) ≡ done (s, true)
unfolding double_backslashes
loop-double [] f h = unfold escaped_loop in refl
loop-double (b ∷ s) f h = elim (Bool-cases (b == b'\\')) [
  | inl e ↦
      let same : b ≡ b'\\' = ground (arith) in
      rw same (twice f (rw e at h) (λ f h. loop-double s f h))
  | inr e ↦ rw e (plain f e (rw e at h) (λ f h. loop-double s f h))
]
  where
    Doubled : Type 0
    Doubled =
        (f : ℕ)
        → length (double_backslashes s) ≤ f
        → escaped_loop f (double_backslashes s) ≡ done (s, true)

    twice :
        (f : ℕ)
        → suc (suc (length (double_backslashes s))) ≤ f
        → Doubled
        → escaped_loop f (b'\\' ∷ b'\\' ∷ double_backslashes s) ≡ done (b'\\' ∷ s, true)
    twice zero h ih = absurd (omega arith)
    twice (suc f) h ih = rw (double_round f (double_backslashes s), ih f (omega arith)) refl

    plain :
        (f : ℕ)
        → (b == b'\\') ≡ false
        → suc (length (double_backslashes s)) ≤ f
        → Doubled
        → escaped_loop f (b ∷ double_backslashes s) ≡ done (b ∷ s, true)
    plain zero e h ih = absurd (omega arith)
    plain (suc f) e h ih = rw (plain_round f b (double_backslashes s) e, ih f (omega arith)) refl

push_escaped-double : (s : Bytes) → push_escaped (double_backslashes s) ≡ done (s, true)
unfolding push_escaped
push_escaped-double s = loop-double s (length (double_backslashes s)) (omega arith)

-- The arguments with a space between two of them, after `prefix`.
unfoldable pub joined : Bytes → List Bytes → Bytes
joined prefix [] = []
joined prefix (s ∷ ss) = (prefix ++ s) ++ joined (b' ' ∷ []) ss

args-double :
    (prefix : Bytes) (ss : List Bytes)
    → write_args true prefix (map double_backslashes ss) ≡ done (joined prefix ss, true)
unfolding write_args joined
args-double prefix [] = refl
args-double prefix (s ∷ ss) = rw (push_escaped-double s, args-double (b' ' ∷ []) ss) refl

-- `echo -e` writes any arguments, the first of which is not read as an option, with a space between
-- two of them and a line ending, if each backslash in them is doubled.
pub echo-double :
    (s : Bytes) (ss : List Bytes)
    → is_option (double_backslashes s) ≡ false
    → echo (codes "-e" ∷ map double_backslashes (s ∷ ss)) ≡ done (joined [] (s ∷ ss) ++ 10 ∷ [])
unfolding echo read_options set_letters
echo-double s ss h = rw (h, args-double [] (s ∷ ss)) refl
