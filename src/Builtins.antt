-- ===== src/Builtins.antt =====
-- The helpers of crates/omsh-exec/src/builtins/mod.rs, and the sorted listings of vars.rs.
pub mod Quote
use oh_my_shell.Base.{
  ℕ, Bytes, Bool, true, false, not, ◌&&◌, ◌||◌, Option, none, some, List, [], ◌∷◌, ◌++◌, within,
  ◌==◌, if◌then◌else◌, all, codes,
}
use oh_my_shell.Test.{bytes_less}
use oh_my_shell.Vars.{Variable, Variables}

abbrev pub is_letter : ℕ → Bool
is_letter b = within b'a' b'z' b || (within b'A' b'Z' b || b == b'_')

-- `is_name`
unfoldable pub is_name : Bytes → Bool
is_name [] = false
is_name (first ∷ rest) = is_letter first && all (λ b. is_letter b || within b'0' b'9' b) rest

-- The loop of `quote`, and `quote`.
unfoldable pub quote_loop : Bytes → Bytes
quote_loop [] = b'\'' ∷ []
quote_loop (b ∷ rest) =
    if b == b'\'' then codes "'\"'\"'" ++ quote_loop rest else b ∷ quote_loop rest

unfoldable pub quote : Bytes → Bytes
unfolding quote_loop
quote text = b'\'' ∷ quote_loop text

-- `sort_by_key` by the name, which keeps the order of equal names.
unfoldable pub insert_by_name : Variable → Variables → Variables
insert_by_name var [] = var ∷ []
insert_by_name var (v ∷ vars) =
    let rest = insert_by_name var vars in
    if bytes_less v.name var.name then v ∷ rest else var ∷ v ∷ vars

-- `sorted`
unfoldable pub sorted : Variables → Variables
unfolding insert_by_name
sorted [] = []
sorted (v ∷ vars) = insert_by_name v (sorted vars)

-- `readonly_sorted`
unfoldable pub only_readonly : Variables → Variables
only_readonly [] = []
only_readonly (v ∷ vars) = let rest = only_readonly vars in if v.readonly then v ∷ rest else rest

unfoldable pub readonly_sorted : Variables → Variables
unfolding only_readonly sorted
readonly_sorted vars = sorted (only_readonly vars)
