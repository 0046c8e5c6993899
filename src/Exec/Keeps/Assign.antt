-- ===== src/Exec/Keeps/Assign.antt =====
-- The counters through the assignment of a variable.
use oh_my_shell.Base.{Bytes, refl}
use oh_my_shell.Vars
use oh_my_shell.Vars.{Outcome}
use oh_my_shell.Exec.{Shell}
use oh_my_shell.Exec.Compound.{assigned, assign_item}
use oh_my_shell.Exec.Keeps.{counters, Sound, Safe}

pub assigned-Sound : {W : Type 0} (s : Shell W) (o : Outcome) → Sound (counters s) (assigned s o)
assigned-Sound s (Outcome.ok vars) = refl
assigned-Sound s (Outcome.read_only vars) = (refl, tt)

pub assign_item-Safe : {W : Type 0} (name value : Bytes) → Safe {W = W} (assign_item name value)
unfolding assign_item
assign_item-Safe name value = record { from = λ s. assigned-Sound s (Vars.set name value s.vars) }
