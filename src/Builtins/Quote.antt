-- ===== src/Builtins/Quote.antt =====
-- A reader of the quotes of a shell word, and `quote`.
use oh_my_shell.Base.{
  ℕ, Bytes, true, Option, none, some, [], ◌∷◌, ◌≡◌, refl, sym, ap, ◌==◌, if◌then◌else◌, Bool-cases,
  inl, inr, arith,
}
use oh_my_shell.Builtins.{quote_loop, quote}

-- Where the reading of a word stands: outside of quotes, in single quotes, or in double quotes.
pub data Quotes : Type 0 where
  outside single double : Quotes

abbrev prepend : ℕ → Option Bytes → Option Bytes
prepend b none = none
prepend b (some text) = some (b ∷ text)

-- The text of a word that is written in quotes without a backslash or a `$`, by the rules of the shell language: quotes of a
-- kind begin and end a part, in which the quotes of the other kind are plain. Outside of quotes only quotes stand.
unfoldable pub unquote : Quotes → Bytes → Option Bytes
unquote outside [] = some []
unquote single [] = none
unquote double [] = none
unquote outside (b ∷ rest) =
    let a = unquote single rest in
    let c = unquote double rest in if b == b'\'' then a else if b == b'"' then c else none
unquote single (b ∷ rest) =
    let a = unquote outside rest in
    let c = unquote single rest in if b == b'\'' then a else prepend b c
unquote double (b ∷ rest) =
    let a = unquote outside rest in
    let c = unquote double rest in if b == b'"' then a else prepend b c

unquote-quote_loop : (text : Bytes) → unquote single (quote_loop text) ≡ some text
unfolding unquote quote_loop
unquote-quote_loop [] = refl
unquote-quote_loop (b ∷ rest) = elim (Bool-cases (b == b'\'')) [
  | inl e ↦ rw (e, unquote-quote_loop rest) (ap (λ c. some (c ∷ rest)) (sym (quote_is b e)))
  | inr e ↦ rw (e, e, unquote-quote_loop rest) refl
]
  where
    quote_is : (b : ℕ) → (b == b'\'') ≡ true → b ≡ b'\''
    quote_is b e = ground arith

-- Reading what `quote` writes for a text, by the rules for quotes of the shell language, gives the text.
pub unquote-quote : (text : Bytes) → unquote outside (quote text) ≡ some text
unfolding unquote quote
unquote-quote text = unquote-quote_loop text
