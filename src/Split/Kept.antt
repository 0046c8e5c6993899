-- ===== src/Split/Kept.antt =====
-- The end of splitting, and the bytes that were written in the word or quoted.
use mathlib.Core.List.{append-nil, append_assoc}
use oh_my_shell.Base.{
  ℕ, zero, suc, ◌≤◌, Bytes, Bool, true, false, not, ◌&&◌, ◌||◌, Option, none, some, List, [], ◌∷◌,
  ◌++◌, ◌≡◌, refl, sym, ap, ◌∙◌, if◌then◌else◌, length, take, drop, any, find, is_empty,
  length-drop, Bool-cases, inl, inr, arith,
}
use oh_my_shell.Base.Run.{Run, done, out_of_fuel, Ends, Ends-bind}
use oh_my_shell.Chars.{unit_at}
use oh_my_shell.Chars.Utf8.{unit_at_len}
use oh_my_shell.Split.{
  Kind, is_expanded, Marks, Field, empty_field, Delimiter, delimiters_loop, delimiters, begins_with,
  delimiter_at, State, or_empty, close_field, separate, or_new, push_to, push_mark, round,
  split_loop, extend, keep_forced, start, split_at, split,
}

-- What is not the result of an unquoted expansion, in order.
unfoldable pub kept : Marks → Marks
kept [] = []
kept (m ∷ marks) = if is_expanded m.1 then kept marks else m ∷ kept marks

kept-append : (s t : Marks) → kept (s ++ t) ≡ kept s ++ kept t
unfolding kept
kept-append [] t = refl
kept-append ((b, k) ∷ s) t = elim (Bool-cases (is_expanded k)) [
  | inl e ↦ rw e (kept-append s t)
  | inr e ↦ rw e (ap (λ x. (b, k) ∷ x) (kept-append s t))
]

-- The bytes of all fields, one field after another.
unfoldable pub all_marks : List Field → Marks
all_marks [] = []
all_marks (f ∷ fs) = f.marks ++ all_marks fs

all_marks-snoc : (fs : List Field) (f : Field) → all_marks (fs ++ f ∷ []) ≡ all_marks fs ++ f.marks
unfolding all_marks
all_marks-snoc [] f = append-nil f.marks
all_marks-snoc (g ∷ fs) f =
    rw (all_marks-snoc fs f) (sym (append_assoc g.marks (all_marks fs) f.marks))

abbrev so_far : State → Marks
so_far s = all_marks (extend s.out s.current)

begins_with-drop :
    (d : Bytes) (marks : Marks)
    → begins_with d marks ≡ true
    → kept (drop (length d) marks) ≡ kept marks
unfolding begins_with kept
begins_with-drop [] marks h = refl
begins_with-drop (c ∷ d) [] h = cc
begins_with-drop (c ∷ d) ((b, k) ∷ marks) h = ground (arith, begins_with-drop d marks)

abbrev NonEmpty : List Delimiter → Type 0
NonEmpty [] = Unit
NonEmpty (d ∷ ds) = (1 ≤ length d.bytes) × NonEmpty ds

delimiters-NonEmpty : (f : ℕ) (ifs : Bytes) → NonEmpty (delimiters_loop f ifs)
unfolding delimiters_loop
delimiters-NonEmpty f [] = tt
delimiters-NonEmpty zero (b ∷ rest) = tt
delimiters-NonEmpty (suc f) (b ∷ rest) =
    (first (unit_at b rest).1 (unit_at_len b rest).0, delimiters-NonEmpty f _)
  where
    first : (n : ℕ) → 1 ≤ n → 1 ≤ length (take n (b ∷ rest))
    first zero h = h
    first (suc n) h = omega arith

-- What `find` finds passes the test, and is one of the delimiters.
find_lem :
    (p : Delimiter → Bool) (delims : List Delimiter) (d : Delimiter)
    → NonEmpty delims
    → find p delims ≡ some d
    → (p d ≡ true) × (1 ≤ length d.bytes)
find_lem p [] d n e = cc
find_lem p (c ∷ delims) d (l, n) e = elim (Bool-cases (p c)) [
  | inl h ↦ ground (arith)
  | inr h ↦ find_lem p delims d n (rw h at e)
]

delimiter_at_lem :
    (delims : List Delimiter) (marks : Marks) (d : Delimiter)
    → NonEmpty delims
    → delimiter_at delims marks ≡ some d
    → (begins_with d.bytes marks ≡ true) × (1 ≤ length d.bytes)
unfolding delimiter_at
delimiter_at_lem delims [] d n e = cc
delimiter_at_lem delims ((b, k) ∷ marks) d n e = elim (Bool-cases (is_expanded k)) [
  | inl h ↦ find_lem (λ d. begins_with d.bytes ((b, k) ∷ marks)) delims d n (rw h at e)
  | inr h ↦ absurd (nothing (rw h at e))
]
  where
    nothing : none ≡ some d → ⊥
    nothing e = cc

so_far-close : (o : Option Field) (s : State) → s.current ≡ o → so_far (close_field o s) ≡ so_far s
so_far-close none s e = refl
so_far-close (some f) s e = rw e refl

so_far-separate : (d : Delimiter) (s : State) → so_far (separate d s) ≡ so_far s
unfolding separate
so_far-separate d s = elim (Bool-cases d.whitespace) [
  | inl w ↦ rw w (so_far-close s.current s refl)
  | inr w ↦ rw w (elim (Bool-cases s.closed_by_space) [
    | inl c ↦ rw c refl
    | inr c ↦ rw c (ended s.out s.current)
  ])
]
  where
    ended :
        (out : List Field) (o : Option Field)
        → all_marks (out ++ or_empty o ∷ []) ≡ all_marks (extend out o)
    ended out none = all_marks-snoc out empty_field ∙ append-nil (all_marks out)
    ended out (some f) = refl

so_far-push : (m : ℕ × Kind) (s : State) → so_far (push_mark m s) ≡ so_far s ++ m ∷ []
unfolding push_mark
so_far-push m s = pushed s.out s.current
  where
    pushed :
        (out : List Field) (o : Option Field)
        → all_marks (out ++ push_to m (or_new o) ∷ []) ≡ all_marks (extend out o) ++ m ∷ []
    pushed out none = all_marks-snoc out (push_to m (or_new none))
    pushed out (some f) =
        all_marks-snoc out (push_to m f)
        ∙ (sym (append_assoc (all_marks out) f.marks (m ∷ []))
            ∙ ap (λ x. x ++ m ∷ []) (sym (all_marks-snoc out f)))

abbrev Keeps : State → Marks → State → Type 0
Keeps s marks s' = kept (so_far s') ≡ kept (so_far s) ++ kept marks

split_loop-Keeps :
    (f : ℕ) (delims : List Delimiter) (marks : Marks) (s : State)
    → NonEmpty delims
    → length marks ≤ f
    → Ends (Keeps s marks) (split_loop f delims marks s)
unfolding split_loop
split_loop-Keeps f delims [] s n l = unfold kept in sym (append-nil (kept (so_far s)))
split_loop-Keeps zero delims (m ∷ rest) s n l = absurd (omega arith)
split_loop-Keeps (suc f) delims (m ∷ rest) s n l =
    go (delimiter_at delims (m ∷ rest)) refl (λ marks s l. split_loop-Keeps f delims marks s n l)
  where
    weaken :
        (s' : State) (marks : Marks) (r : Run State)
        → kept (so_far s') ++ kept marks ≡ kept (so_far s) ++ kept (m ∷ rest)
        → Ends (Keeps s' marks) r
        → Ends (Keeps s (m ∷ rest)) r
    weaken s' marks (done t) e h = h ∙ e
    weaken s' marks out_of_fuel e h = h

    go :
        (o : Option Delimiter)
        → delimiter_at delims (m ∷ rest) ≡ o
        → ((marks : Marks) (s : State)
            → length marks ≤ f
            → Ends (Keeps s marks) (split_loop f delims marks s))
        → Ends (Keeps s (m ∷ rest)) (round (split_loop f delims) m rest o s)
    go none e ih =
        weaken (push_mark m s) rest _
          (ap (λ x. kept x ++ kept rest) (so_far-push m s)
            ∙ (ap (λ x. x ++ kept rest) (kept-append (so_far s) (m ∷ []))
                ∙ (append_assoc (kept (so_far s)) (kept (m ∷ [])) (kept rest)
                    ∙ ap (λ x. kept (so_far s) ++ x) (sym (kept-append (m ∷ []) rest)))))
          (ih rest (push_mark m s) (omega arith))
    go (some d) e ih =
        let (b, long) = delimiter_at_lem delims (m ∷ rest) d n e in
        weaken (separate d s) (drop (length d.bytes) (m ∷ rest)) _
          (rw (so_far-separate d s, begins_with-drop d.bytes (m ∷ rest) b) refl)
          (ih (drop (length d.bytes) (m ∷ rest)) (separate d s)
            (omega (arith, length-drop (length d.bytes) (m ∷ rest))))

all_marks-keep_forced :
    (forced : Bool) (fs : List Field) → all_marks (keep_forced forced fs) ≡ all_marks fs
unfolding all_marks
all_marks-keep_forced true [] = refl
all_marks-keep_forced false [] = refl
all_marks-keep_forced forced (f ∷ fs) = refl

split_at-Keeps :
    (field : Field) (delims : List Delimiter)
    → NonEmpty delims
    → Ends (λ fs. kept (all_marks fs) ≡ kept field.marks) (split_at field delims)
unfolding split_at kept all_marks
split_at-Keeps field delims n =
    Ends-bind (Keeps start field.marks) (λ fs. kept (all_marks fs) ≡ kept field.marks)
      (split_loop (length field.marks) delims field.marks start) _
      (split_loop-Keeps (length field.marks) delims field.marks start n (omega arith))
      (λ s h.
        ap kept (all_marks-keep_forced field.forced (extend s.out s.current)) ∙ nothing_before s h)
  where
    nothing_before : (s : State) → Keeps start field.marks s → kept (so_far s) ≡ kept field.marks
    nothing_before s h = h

-- Splitting ends, for every field and every `$IFS`, and the bytes that are quoted or were written in
-- the word are in the fields that come out, each once, of the same kind and in the same order.
pub split-kept :
    (field : Field) (ifs : Bytes)
    → (fs : List Field) × (split field ifs ≡ done fs) × (kept (all_marks fs) ≡ kept field.marks)
unfolding split delimiters kept all_marks
split-kept field ifs =
    elim (Bool-cases (is_empty ifs || not (any (λ m. is_expanded m.1) field.marks))) [
      | inl e ↦ rw e (whole field.marks refl)
      | inr e ↦ rw e (
          result (split_at field (delimiters_loop (length ifs) ifs)) (
            split_at-Keeps field (delimiters_loop (length ifs) ifs)
              (delimiters-NonEmpty (length ifs) ifs)))
    ]
  where
    result :
        (r : Run (List Field))
        → Ends (λ fs. kept (all_marks fs) ≡ kept field.marks) r
        → (fs : List Field) × (r ≡ done fs) × (kept (all_marks fs) ≡ kept field.marks)
    result (done fs) h = (fs, refl, h)
    result out_of_fuel h = absurd h

    whole :
        (marks : Marks)
        → field.marks ≡ marks
        → (fs : List Field) × (done
              (if is_empty field.marks && not field.forced then [] else field ∷ [])
            ≡ done fs)
          × (kept (all_marks fs) ≡ kept field.marks)
    whole marks e = elim (Bool-cases (is_empty field.marks && not field.forced)) [
      | inl b ↦ rw b ([], refl, empty field.marks field.forced b)
      | inr b ↦ rw b (field ∷ [], refl, ap kept (append-nil field.marks))
    ]
      where
        empty :
            (marks : Marks) (forced : Bool)
            → (is_empty marks && not forced) ≡ true
            → kept [] ≡ kept marks
        empty [] forced b = refl
        empty (m ∷ marks) forced b = cc
