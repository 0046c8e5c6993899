-- ===== src/Options/Laws.antt =====
-- Setting an option and reading the options.
use oh_my_shell.Base.{
  ℕ, Bytes, Bool, ◌&&◌, any, List, [], ◌∷◌, Option, none, some, ◌≡◌, refl, ◌==◌, ==_iff,
  if◌then◌else◌, codes, bytes_eq, bytes_eq_iff, Bool-cases, inl, inr, arith,
}
use oh_my_shell.Options.{Options, set_letter, letter_of, set_known, set_named, letter, known, named}

letter-set_letter :
    (k l : ℕ) (on : Bool) (o : Options)
    → letter k (set_letter l on o).1 ≡ (if l == k && (set_letter l on o).0 then on else letter k o)
unfolding letter set_letter
letter-set_letter k l on o = ground arith

pipefail-set_letter :
    (l : ℕ) (on : Bool) (o : Options) → ((set_letter l on o).1).pipefail ≡ o.pipefail
unfolding set_letter
pipefail-set_letter l on o = ground arith

-- Two names of one letter are one name.
letter_of-injective : (i j : Bytes) (l : ℕ) → letter_of i ≡ some l → letter_of j ≡ some l → i ≡ j
unfolding letter_of
letter_of-injective i j l e f = ground (
  arith,
  bytes_eq_iff i (codes "errexit"),
  bytes_eq_iff i (codes "noglob"),
  bytes_eq_iff i (codes "noclobber"),
  bytes_eq_iff i (codes "nounset"),
  bytes_eq_iff i (codes "xtrace"),
  bytes_eq_iff j (codes "errexit"),
  bytes_eq_iff j (codes "noglob"),
  bytes_eq_iff j (codes "noclobber"),
  bytes_eq_iff j (codes "nounset"),
  bytes_eq_iff j (codes "xtrace"),
)

known-set_known :
    (i j : Bytes) (a b : Option ℕ) (on : Bool) (o : Options)
    → letter_of i ≡ a
    → letter_of j ≡ b
    → known b (set_known a on o).1
      ≡ (if bytes_eq i j && (set_known a on o).0 then on else known b o)
known-set_known i j none b on o e f = ground arith
known-set_known i j (some l) none on o e f = ground (arith, bytes_eq_iff i j)
known-set_known i j (some l) (some k) on o e f =
    ground
      (arith, bytes_eq_iff i j, letter_of-injective i j l, letter-set_letter k l on o, ==_iff l k)

named_after :
    (i j : Bytes) (on : Bool) (o : Options)
    → named j (set_named i on o).1
      ≡ (if bytes_eq i j && (set_named i on o).0 then on else named j o)
unfolding named set_named
named_after i j on o = elim (Bool-cases (bytes_eq i (codes "pipefail"))) [
  | inl p ↦ rw p (
      ground (
        arith,
        bytes_eq_iff i j,
        bytes_eq_iff i (codes "pipefail"),
        bytes_eq_iff j (codes "pipefail"),
      ))
  | inr p ↦ rw p (elim (Bool-cases (bytes_eq j (codes "pipefail"))) [
    | inl q ↦ rw q (
        ground (
          arith,
          bytes_eq_iff i j,
          bytes_eq_iff i (codes "pipefail"),
          bytes_eq_iff j (codes "pipefail"),
          pipefail_known (letter_of i),
        ))
    | inr q ↦ rw q (known-set_known i j (letter_of i) (letter_of j) on o refl refl)
  ])
]
  where
    pipefail_known : (a : Option ℕ) → ((set_known a on o).1).pipefail ≡ o.pipefail
    pipefail_known none = refl
    pipefail_known (some l) = pipefail-set_letter l on o

-- The options of this shell.
abbrev pub supported : List Bytes
supported =
    codes "errexit"
    ∷ codes "noglob"
    ∷ codes "noclobber"
    ∷ codes "nounset"
    ∷ codes "xtrace"
    ∷ codes "pipefail"
    ∷ []

is_option :
    (i : Bytes) (on : Bool) (o : Options) → (set_named i on o).0 ≡ any (bytes_eq i) supported
unfolding set_named letter_of set_letter
is_option i on o = ground arith

-- `set_named` says of exactly the six names of `supported` that they are options, and after it
-- (`set -o i` or `+o i`) the option `j` reads so: the named option has the new value, and
-- every other, and each if the name is none of the six, is as before.
pub named-set_named :
    (i j : Bytes) (on : Bool) (o : Options)
    → ((set_named i on o).0 ≡ any (bytes_eq i) supported)
      × (named j (set_named i on o).1
          ≡ (if bytes_eq i j && any (bytes_eq i) supported then on else named j o))
named-set_named i j on o = (is_option i on o, rw (← is_option i on o) (named_after i j on o))
