-- ===== src/Exec/Keeps/Combine.antt =====
-- The counters through the ways in which the interpreter puts functions together.
use mathlib.Core.Path.{subst}
use oh_my_shell.Base.{
  Bool, true, false, not, ◌&&◌, Option, none, some, ◌≡◌, refl, Bool-cases, inl, inr, ◌==◌,
  if◌then◌else◌,
}
use oh_my_shell.Flow.{Status, error_with, interrupted, ok, err}
use oh_my_shell.Exec.{
  fail, gets, modify, poll, Shell, Host, Result, Eval, pure, continue, ◌>>=◌, ◌>>◌, call,
  check_interrupt,
}
use oh_my_shell.Exec.Keeps.{Counters, counters, Sound, Safe, Quiet}
use oh_my_shell.Exec.Compound.{or_fail}
use oh_my_shell.Exec.Lists.{set_status}
use oh_my_shell.Exec.Nesting.{errexit_check}

pub continue-Sound :
    {W A B : Type 0} (c : Counters) (r : Result W A) (k : A → Eval W B)
    → Sound c r
    → ((a : A) → Safe (k a))
    → Sound c (continue k r)
continue-Sound c none k h safe = tt
continue-Sound c (some (ok a, s)) k h safe = subst (λ d. Sound d (k a s)) h ((safe a).from s)
continue-Sound c (some (err u, s)) k h safe = h

pub bind-Safe :
    {W A B : Type 0} {m : Eval W A} {k : A → Eval W B}
    → Safe m
    → ((a : A) → Safe (k a))
    → Safe (m >>= k)
bind-Safe {m = m} {k = k} h safe = record {
  from = λ s. continue-Sound (counters s) (m s) k (h.from s) safe;
}

pub then-Safe : {W A B : Type 0} {m : Eval W A} {k : Eval W B} → Safe m → Safe k → Safe (m >> k)
then-Safe h safe = bind-Safe h (λ _. safe)

pub pure-Safe : {W A : Type 0} (a : A) → Safe {W = W} (pure a)
pure-Safe a = record { from = λ s. refl }

pub gets-Safe : {W A : Type 0} (f : Shell W → A) → Safe (gets f)
gets-Safe f = record { from = λ s. refl }

pub call-Safe : {W A : Type 0} (f : Shell W → A × Shell W) → Quiet f → Safe (call f)
call-Safe f h = record { from = h }

pub poll-Safe : {W A : Type 0} (f : W → A × W) → Safe (poll f)
poll-Safe f = record { from = λ s. refl }

-- Changing what is not a counter.
pub modify-Safe :
    {W : Type 0} (f : Shell W → Shell W)
    → ((s : Shell W) → counters (f s) ≡ counters s)
    → Safe (modify f)
modify-Safe f h = record { from = h }

pub if-Safe :
    {W A : Type 0} (b : Bool) {m k : Eval W A} → Safe m → Safe k → Safe (if b then m else k)
if-Safe true h safe = h
if-Safe false h safe = safe

-- Ending the line.
pub error-Safe : {W A : Type 0} (status : Status) → Safe {W = W} {A = A} (fail (error_with status))
error-Safe status = record { from = λ s. (refl, tt) }

pub or_fail-Safe : {W A : Type 0} (o : Option A) → Safe {W = W} (or_fail o)
or_fail-Safe none = error-Safe 2
or_fail-Safe (some a) = pure-Safe a

pub set_status-Safe : {W : Type 0} (status : Status) → Safe {W = W} (set_status status)
unfolding set_status
set_status-Safe status = record { from = λ s. refl }

pub check_interrupt-Safe : {W : Type 0} (host : Host W) → Safe (check_interrupt host)
unfolding check_interrupt
check_interrupt-Safe host = bind-Safe (poll-Safe host.interrupted) (λ stopped.
    if-Safe stopped {m = fail interrupted} (record { from = λ s. (refl, tt) }) (pure-Safe tt))

pub errexit_check-Safe : {W : Type 0} (status : Status) → Safe {W = W} (errexit_check status)
unfolding errexit_check
errexit_check-Safe status = record {
  from = λ s. elim (Bool-cases (not (status == 0) && (s.options.errexit && s.errexit_off == 0))) [
    | inl e ↦ rw e (refl, tt)
    | inr e ↦ rw e refl
  ];
}
