-- ===== src/Chars/Utf8.antt =====
-- `unit_at` against UTF-8 encoding: how many bytes a character takes, and which.
use oh_my_shell.Base.{
  ℕ, suc, ◌+◌, ◌-◌, ◌*◌, ◌/◌, ◌%◌, ◌≤◌, ◌<◌, Bytes, Option, none, some, [], ◌∷◌, ◌≡◌, refl, ltb,
  if◌then◌else◌, length, take, arith,
}
use oh_my_shell.Chars.{invalid_base, from_utf8_2, from_utf8_3, from_utf8_4, or_invalid, unit_at}

-- `char::encode_utf8`, and the byte itself for a number past the code points.
unfoldable pub encode : ℕ → Bytes
encode u =
    if ltb u 0x80
    then u ∷ []
    else if ltb u 0x800
    then (0xC0 + u / 64) ∷ (0x80 + u % 64) ∷ []
    else if ltb u 0x1_0000
    then (0xE0 + u / 4096) ∷ (0x80 + u / 64 % 64) ∷ (0x80 + u % 64) ∷ []
    else if ltb u invalid_base
    then (0xF0 + u / 262144) ∷ (0x80 + u / 4096 % 64) ∷ (0x80 + u / 64 % 64) ∷ (0x80 + u % 64) ∷ []
    else (u - invalid_base) ∷ []

-- A character takes at least one byte and no more than there are.
pub unit_at_len : (a : ℕ) (s : Bytes) → (1 ≤ (unit_at a s).1) × ((unit_at a s).1 ≤ suc (length s))
unfolding unit_at from_utf8_2 from_utf8_3 from_utf8_4
unit_at_len a [] = ground arith
unit_at_len a (b ∷ []) = ground arith
unit_at_len a (b ∷ c ∷ []) = ground arith
unit_at_len a (b ∷ c ∷ d ∷ s) = ground arith

encode-from_utf8_2 :
    (a : ℕ) (s : Bytes) (u : ℕ)
    → 0xC2 ≤ a
    → a ≤ 0xDF
    → from_utf8_2 a s ≡ some u
    → encode u ≡ take 2 (a ∷ s)
unfolding from_utf8_2 encode
encode-from_utf8_2 a [] u l h e = cc
encode-from_utf8_2 a (b ∷ s) u l h e = ground arith

encode-from_utf8_3 :
    (a : ℕ) (s : Bytes) (u : ℕ)
    → 0xE0 ≤ a
    → a ≤ 0xEF
    → from_utf8_3 a s ≡ some u
    → encode u ≡ take 3 (a ∷ s)
unfolding from_utf8_3 encode
encode-from_utf8_3 a [] u l h e = cc
encode-from_utf8_3 a (b ∷ []) u l h e = cc
encode-from_utf8_3 a (b ∷ c ∷ s) u l h e = ground arith

four_bytes :
    (a b c d u : ℕ)
    → 0xF0 ≤ a
    → a ≤ 0xF4
    → 0x80 ≤ b
    → b ≤ 0xBF
    → 0x80 ≤ c
    → c ≤ 0xBF
    → 0x80 ≤ d
    → d ≤ 0xBF
    → 0x1_0000 ≤ u
    → u < invalid_base
    → u ≡ (a % 8) * 262144 + (b % 64) * 4096 + (c % 64) * 64 + d % 64
    → encode u ≡ a ∷ b ∷ c ∷ d ∷ []
unfolding encode
four_bytes a b c d u l1 l2 l3 l4 l5 l6 l7 l8 l9 l10 e = ground arith

encode-from_utf8_4 :
    (a : ℕ) (s : Bytes) (u : ℕ)
    → 0xF0 ≤ a
    → a ≤ 0xF4
    → from_utf8_4 a s ≡ some u
    → encode u ≡ take 4 (a ∷ s)
unfolding from_utf8_4
encode-from_utf8_4 a [] u l h e = cc
encode-from_utf8_4 a (b ∷ []) u l h e = cc
encode-from_utf8_4 a (b ∷ c ∷ []) u l h e = cc
encode-from_utf8_4 a (b ∷ c ∷ d ∷ s) u l h e = ground (arith, four_bytes a b c d u)

encode_ascii : (a : ℕ) → a < 0x80 → encode a ≡ a ∷ []
unfolding encode
encode_ascii a h = ground arith

encode_invalid : (a : ℕ) → encode (invalid_base + a) ≡ a ∷ []
unfolding encode
encode_invalid a = ground arith

decoded_or_invalid :
    (a n : ℕ) (s : Bytes) (o : Option ℕ)
    → ((u : ℕ) → o ≡ some u → encode u ≡ take n (a ∷ s))
    → encode (or_invalid a n o).0 ≡ take (or_invalid a n o).1 (a ∷ s)
decoded_or_invalid a n s none h = encode_invalid a
decoded_or_invalid a n s (some u) h = h u refl

decoded_2 :
    (a : ℕ) (s : Bytes)
    → 0xC2 ≤ a
    → a ≤ 0xDF
    → encode (or_invalid a 2 (from_utf8_2 a s)).0
      ≡ take (or_invalid a 2 (from_utf8_2 a s)).1 (a ∷ s)
decoded_2 a s l h = decoded_or_invalid a 2 s _ (λ u. encode-from_utf8_2 a s u l h)

decoded_3 :
    (a : ℕ) (s : Bytes)
    → 0xE0 ≤ a
    → a ≤ 0xEF
    → encode (or_invalid a 3 (from_utf8_3 a s)).0
      ≡ take (or_invalid a 3 (from_utf8_3 a s)).1 (a ∷ s)
decoded_3 a s l h = decoded_or_invalid a 3 s _ (λ u. encode-from_utf8_3 a s u l h)

decoded_4 :
    (a : ℕ) (s : Bytes)
    → 0xF0 ≤ a
    → a ≤ 0xF4
    → encode (or_invalid a 4 (from_utf8_4 a s)).0
      ≡ take (or_invalid a 4 (from_utf8_4 a s)).1 (a ∷ s)
decoded_4 a s l h = decoded_or_invalid a 4 s _ (λ u. encode-from_utf8_4 a s u l h)

-- Encoding the number that `unit_at` reads gives back the bytes that it took.
pub encode-unit_at : (a : ℕ) (s : Bytes) → encode (unit_at a s).0 ≡ take (unit_at a s).1 (a ∷ s)
unfolding unit_at
encode-unit_at a s =
    ground (arith, encode_ascii a, encode_invalid a, decoded_2 a s, decoded_3 a s, decoded_4 a s)
