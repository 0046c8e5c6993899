-- ===== src/AnsiC/NoNul.antt =====
-- The end of decoding, and NUL bytes in what it makes.
use oh_my_shell.Base.{
  ℕ, zero, suc, ◌%◌, ◌≤◌, Bytes, true, false, Option, none, some, [], ◌∷◌, ◌++◌, ◌≡◌, refl, within,
  ◌==◌, length, take, drop, length-drop, Bool-cases, inl, inr, arith,
}
use oh_my_shell.Base.Run.{Run, done, out_of_fuel, Ends, Ends-bind}
use oh_my_shell.Chars.Utf8.{encode}
use oh_my_shell.AnsiC.{
  number, Step, emit, stop, single, emit_byte, is_scalar, octal_escape, hex_escape, unicode_escape,
  control_escape, escape_of, escaped, step, after_step, decode_loop, decode,
}

-- No byte of the text is 0.
abbrev pub NoNul : Bytes → Type 0
NoNul [] = Unit
NoNul (b ∷ s) = ((b == 0) ≡ false) × NoNul s

NoNul-append : (s t : Bytes) → NoNul s → NoNul t → NoNul (s ++ t)
NoNul-append [] t h k = k
NoNul-append (b ∷ s) t (n, h) k = (n, NoNul-append s t h k)

NoNul-drop : (n : ℕ) (s : Bytes) → NoNul s → NoNul (drop n s)
NoNul-drop zero s h = h
NoNul-drop (suc n) [] h = tt
NoNul-drop (suc n) (b ∷ s) (_, h) = NoNul-drop n s h

NoNul-take : (n : ℕ) (s : Bytes) → NoNul s → NoNul (take n s)
NoNul-take zero s h = tt
NoNul-take (suc n) [] h = tt
NoNul-take (suc n) (b ∷ s) (m, h) = (m, NoNul-take n s h)

encode-NoNul : (c : ℕ) → (c == 0) ≡ false → is_scalar c ≡ true → NoNul (encode c)
unfolding encode
encode-NoNul c h s = ground arith

-- What a round does to a text of which `k` bytes are left after the first one.
abbrev Good : ℕ → Step → Type 0
Good k stop = Unit
Good k (emit out rest) = (length rest ≤ k) × NoNul out × NoNul rest

emit_byte-Good :
    (k byte : ℕ) (rest : Bytes) → length rest ≤ k → NoNul rest → Good k (emit_byte byte rest)
emit_byte-Good k byte rest l h = elim (Bool-cases (byte == 0)) [
  | inl e ↦ rw e tt
  | inr e ↦ rw e (l, (e, tt), h)
]

octal-Good :
    (e : ℕ) (rest : Bytes) (found : ℕ × ℕ)
    → (e == 0) ≡ false
    → NoNul rest
    → Good (suc (length rest)) (octal_escape (e ∷ rest) found)
octal-Good e rest (value, used) n h =
    emit_byte-Good _ (value % 256) (drop used (e ∷ rest))
      (omega (arith, length-drop used (e ∷ rest))) (NoNul-drop used (e ∷ rest) (n, h))

hex-Good :
    (rest : Bytes) (found : ℕ × ℕ) → NoNul rest → Good (suc (length rest)) (hex_escape rest found)
hex-Good rest (value, used) h = elim (Bool-cases (used == 0)) [
  | inl e ↦ rw e (omega arith, (refl, (refl, tt)), h)
  | inr e ↦ rw e (
      emit_byte-Good _ (value % 256) (drop used rest) (omega (arith, length-drop used rest))
        (NoNul-drop used rest h))
]

unicode-Good :
    (e : ℕ) (rest : Bytes) (found : ℕ × ℕ)
    → (e == 0) ≡ false
    → NoNul rest
    → Good (suc (length rest)) (unicode_escape e rest found)
unicode-Good e rest (value, used) n h = elim (Bool-cases (used == 0)) [
  | inl u ↦ rw u (omega arith, (refl, (n, tt)), h)
  | inr u ↦ rw u (elim (Bool-cases (value == 0)) [
    | inl z ↦ rw z tt
    | inr z ↦ rw z (elim (Bool-cases (is_scalar value)) [
      | inl s ↦
          rw s
            (omega (arith, length-drop used rest), encode-NoNul value z s, NoNul-drop used rest h)
      | inr s ↦ rw s (
        omega (arith, length-drop used rest),
        (refl, (n, NoNul-take used rest h)),
        NoNul-drop used rest h,
      )
    ])
  ])
]

control-Good : (rest : Bytes) → NoNul rest → Good (suc (length rest)) (control_escape rest)
control-Good [] h = (omega arith, (refl, (refl, tt)), tt)
control-Good (target ∷ rest) (n, h) = emit_byte-Good _ _ rest (omega arith) h

single_lem : (e byte : ℕ) → single e ≡ some byte → (e == 0) ≡ false → (byte == 0) ≡ false
unfolding single
single_lem e byte h n = ground arith

escape_of-Good :
    (e : ℕ) (rest : Bytes) (o : Option ℕ)
    → single e ≡ o
    → (e == 0) ≡ false
    → NoNul rest
    → Good (suc (length rest)) (escape_of e rest o)
unfolding escape_of
escape_of-Good e rest (some byte) s n h = (omega arith, (single_lem e byte s n, tt), h)
escape_of-Good e rest none s n h = elim (Bool-cases (within b'0' b'7' e)) [
  | inl o ↦ rw o (octal-Good e rest (number (e ∷ rest) 8 3) n h)
  | inr o ↦ rw o (elim (Bool-cases (e == b'x')) [
    | inl x ↦ rw x (hex-Good rest (number rest 16 2) h)
    | inr x ↦ rw x (elim (Bool-cases (e == b'u')) [
      | inl u ↦ rw u (unicode-Good e rest (number rest 16 4) n h)
      | inr u ↦ rw u (elim (Bool-cases (e == b'U')) [
        | inl v ↦ rw v (unicode-Good e rest (number rest 16 8) n h)
        | inr v ↦ rw v (elim (Bool-cases (e == b'c')) [
          | inl c ↦ rw c (control-Good rest h)
          | inr c ↦ rw c (omega arith, (refl, (n, tt)), h)
        ])
      ])
    ])
  ])
]

step-Good : (b : ℕ) (rest : Bytes) → NoNul (b ∷ rest) → Good (length rest) (step b rest)
unfolding step
step-Good b [] (n, h) = (omega arith, (n, tt), tt)
step-Good b (e ∷ rest) (n, (m, h)) = elim (Bool-cases (b == b'\\')) [
  | inl s ↦ rw s (unfold escaped in escape_of-Good e rest (single e) refl m h)
  | inr s ↦ rw s (omega arith, (n, tt), (m, h))
]

decode_loop-NoNul :
    (f : ℕ) (text : Bytes) → length text ≤ f → NoNul text → Ends NoNul (decode_loop f text)
unfolding decode_loop
decode_loop-NoNul f [] l h = tt
decode_loop-NoNul zero (b ∷ rest) l h = absurd (omega arith)
decode_loop-NoNul (suc f) (b ∷ rest) l h =
    round (step b rest) (step-Good b rest h)
      (λ text l' h'. decode_loop-NoNul f text (omega arith) h')
  where
    round :
        (s : Step)
        → Good (length rest) s
        → ((text : Bytes)
            → length text ≤ length rest
            → NoNul text
            → Ends NoNul (decode_loop f text))
        → Ends NoNul (after_step (decode_loop f) s)
    round stop g ih = tt
    round (emit out rest') (shorter, g, g') ih =
        Ends-bind NoNul NoNul (decode_loop f rest') _ (ih rest' shorter g')
          (λ more k. NoNul-append out more g k)

-- For a text without a byte 0, decoding ends, and there is no byte 0 in the result either.
pub decode-NoNul :
    (text : Bytes) → NoNul text → (out : Bytes) × (decode text ≡ done out) × NoNul out
unfolding decode
decode-NoNul text h =
    result (decode_loop (length text) text) (decode_loop-NoNul (length text) text (omega arith) h)
  where
    result : (r : Run Bytes) → Ends NoNul r → (out : Bytes) × (r ≡ done out) × NoNul out
    result (done out) k = (out, refl, k)
    result out_of_fuel k = absurd k
