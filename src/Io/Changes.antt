-- ===== src/Io/Changes.antt =====
-- The changes between two tables.
use oh_my_shell.Base.{
  ℕ, suc, ◌≤◌, ◌<◌, Option, none, some, List, [], ◌∷◌, ◌++◌, ◌≡◌, refl, ◌==◌, if◌then◌else◌,
  Bool-cases, inl, inr, arith,
}
use oh_my_shell.Io.{
  Slot, Io, is_other, is_open, get, set, close, Change, changed, closed, diff, change, apply,
}

-- The keys increase, and all are at least `low`.
abbrev pub IsTableFrom : ℕ → Io → Type 0
IsTableFrom low [] = Unit
IsTableFrom low ((k, slot) ∷ io) = (low ≤ k) × IsTableFrom (suc k) io

abbrev pub IsTable : Io → Type 0
IsTable = IsTableFrom 0

get-set :
    (j fd : ℕ) (slot : Slot) (io : Io)
    → get j (set fd slot io) ≡ (if fd == j then some slot else get j io)
unfolding get set
get-set j fd slot [] = refl
get-set j fd slot ((k, old) ∷ io) = ground (arith, get-set j fd slot io)

pub get-below : (j low : ℕ) (io : Io) → IsTableFrom low io → j < low → get j io ≡ none
unfolding get
get-below j low [] t l = refl
get-below j low ((k, slot) ∷ io) (h, t) l = ground (arith, get-below j (suc k) io)

get-close :
    (j fd low : ℕ) (io : Io)
    → IsTableFrom low io
    → get j (close fd io) ≡ (if fd == j then none else get j io)
unfolding get close
get-close j fd low [] t = ground arith
get-close j fd low ((k, slot) ∷ io) (h, t) =
    ground (arith, get-close j fd (suc k) io, get-below j (suc k) io)

set-IsTable :
    (fd low : ℕ) (slot : Slot) (io : Io)
    → low ≤ fd
    → IsTableFrom low io
    → IsTableFrom low (set fd slot io)
unfolding set
set-IsTable fd low slot [] l t = omega arith
set-IsTable fd low slot ((k, old) ∷ io) l (h, t) = ground (arith, set-IsTable fd (suc k) slot io)

weaken : (low high : ℕ) (io : Io) → low ≤ high → IsTableFrom high io → IsTableFrom low io
weaken low high [] l t = tt
weaken low high ((k, slot) ∷ io) l (h, t) = (omega arith, t)

close-IsTable : (fd low : ℕ) (io : Io) → IsTableFrom low io → IsTableFrom low (close fd io)
unfolding close
close-IsTable fd low [] t = tt
close-IsTable fd low ((k, slot) ∷ io) (h, t) =
    ground (arith, weaken low (suc k) io, close-IsTable fd (suc k) io)

apply-append : (cs ds : List Change) (io : Io) → apply (cs ++ ds) io ≡ apply ds (apply cs io)
unfolding apply
apply-append [] ds io = refl
apply-append (c ∷ cs) ds io = apply-append cs ds (change c io)

-- What stands at a descriptor: in the new table, in the base and in the table that is changed.
abbrev overlay : Option Slot → Option Slot → Option Slot → Option Slot
overlay none base old = old
overlay (some slot) base old = if is_other base slot then some slot else old

get-apply-changed :
    (j low : ℕ) (io base t : Io)
    → IsTableFrom low io
    → get j (apply (changed io base) t) ≡ overlay (get j io) (get j base) (get j t)
unfolding get apply changed
get-apply-changed j low [] base t h = refl
get-apply-changed j low ((fd, slot) ∷ io) base t (l, h) =
    elim (Bool-cases (is_other (get fd base) slot)) [
      | inl e ↦ rw e (
          ground (
            arith,
            get-apply-changed j (suc fd) io base (set fd slot t),
            get-set j fd slot t,
            get-below j (suc fd) io,
          ))
      | inr e ↦
          rw e (ground (arith, get-apply-changed j (suc fd) io base t, get-below j (suc fd) io))
    ]

changed-IsTable : (io base t : Io) → IsTable t → IsTable (apply (changed io base) t)
unfolding apply changed
changed-IsTable [] base t h = h
changed-IsTable ((fd, slot) ∷ io) base t h = elim (Bool-cases (is_other (get fd base) slot)) [
  | inl e ↦ rw e (changed-IsTable io base (set fd slot t) (set-IsTable fd 0 slot t (omega arith) h))
  | inr e ↦ rw e (changed-IsTable io base t h)
]

get-apply-closed :
    (j : ℕ) (base io t : Io)
    → IsTable t
    → get j (apply (closed base io) t)
      ≡ (if is_open (get j base) then (if is_open (get j io) then get j t else none) else get j t)
unfolding get apply closed
get-apply-closed j [] io t h = refl
get-apply-closed j ((fd, slot) ∷ base) io t h = elim (Bool-cases (is_open (get fd io))) [
  | inl e ↦ rw e (ground (arith, get-apply-closed j base io t))
  | inr e ↦ rw e (
      ground
        (arith, get-apply-closed j base io (close fd t), close-IsTable fd 0 t, get-close j fd 0 t))
]

-- If the descriptors of two tables are in increasing order, applying to one what the other has changed
-- compared with it gives the file of the other at every descriptor.
pub apply-diff :
    (j : ℕ) (io base : Io)
    → IsTable io
    → IsTable base
    → get j (apply (diff io base) base) ≡ get j io
unfolding diff
apply-diff j io base h k = apply_both (get j io) (get j base) refl refl
  where
    apply_both :
        (new old : Option Slot)
        → get j io ≡ new
        → get j base ≡ old
        → get j (apply (diff io base) base) ≡ get j io
    apply_both new old e f =
        rw
          (
            apply-append (changed io base) (closed base io) base,
            get-apply-closed j base io (apply (changed io base) base)
                (changed-IsTable io base base k),
            get-apply-changed j 0 io base base h,
            e,
            f,
          )
          (ground arith)
