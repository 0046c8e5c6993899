-- ===== src/Search.antt =====
-- crates/omsh-exec/src/path.rs: finding a command in the directories of `PATH`, with a cache.
pub mod Cached
use oh_my_shell.Base.{
  ℕ, Bytes, Bool, true, false, not, ◌&&◌, Option, none, some, List, [], ◌∷◌, ◌==◌, if◌then◌else◌,
  any, bytes_eq,
}
use oh_my_shell.Exec.Source.{split_path, joined}

-- `Lookup`
pub data Lookup : Type 0 where
  found denied : Bytes → Lookup
  not_found : Lookup

-- `PathCache`
pub record PathCache : Type 0 where
  pub path_value : Bytes
  pub entries : List (Bytes × Bytes)

-- `clear`
unfoldable pub clear : PathCache → PathCache
clear c = record c { entries = [] }

-- What `fs::metadata` and `access` say of a path.
pub record Files : Type 0 where
  pub is_file : Bytes → Bool
  pub may_execute : Bytes → Bool

-- `under`: a relative path is joined to the base, if there is one.
abbrev pub is_absolute : Bytes → Bool
is_absolute [] = false
is_absolute (b ∷ rest) = b == b'/'

abbrev pub under : Option Bytes → Bytes → Bytes
under none path = path
under (some base) path = if is_absolute path then path else joined base path

-- `is_executable_file`
abbrev pub is_executable : Files → Bytes → Bool
is_executable files path = files.is_file path && files.may_execute path

-- The end of the search without an executable file.
abbrev pub or_denied : Option Bytes → Lookup
or_denied none = not_found
or_denied (some path) = denied path

abbrev pub first_denied : Option Bytes → Bool → Bytes → Option Bytes
first_denied (some path) is_file candidate = some path
first_denied none is_file candidate = if is_file then some candidate else none

-- The loop of `lookup` over the directories.
unfoldable pub search : Files → Option Bytes → Bytes → Option Bytes → List Bytes → Lookup
search files base name so_far [] = or_denied so_far
search files base name so_far (dir ∷ dirs) =
    let candidate = joined dir name in
    let rest =
      search files base name (first_denied so_far (files.is_file (under base candidate)) candidate)
        dirs in
    if is_executable files (under base candidate) then found candidate else rest

unfoldable pub cached : Bytes → List (Bytes × Bytes) → Option Bytes
unfolding bytes_eq
cached name [] = none
cached name ((n, path) ∷ entries) = if bytes_eq n name then some path else cached name entries

unfoldable pub forget : Bytes → List (Bytes × Bytes) → List (Bytes × Bytes)
unfolding bytes_eq
forget name [] = []
forget name ((n, path) ∷ entries) =
    let rest = forget name entries in if bytes_eq n name then rest else (n, path) ∷ rest

-- A cache for another `PATH` is emptied.
abbrev pub for_path : Bytes → PathCache → PathCache
for_path path c =
    if bytes_eq c.path_value path then c else record { path_value = path; entries = [] }

-- The result of the search, which is remembered if it was found.
abbrev pub remember : Bytes → PathCache → Lookup → Lookup × PathCache
remember name c (found path) = (found path, record c { entries = (name, path) ∷ c.entries })
remember name c (denied path) = (denied path, c)
remember name c not_found = (not_found, c)

-- A hit is used if it is still executable, and forgotten otherwise.
abbrev pub with_hit : Files → Option Bytes → Bytes → PathCache → Option Bytes → Lookup × PathCache
with_hit files base name c none =
    remember name c (search files base name none (split_path c.path_value))
with_hit files base name c (some hit) =
    if is_executable files (under base hit)
    then (found hit, c)
    else remember name (record c { entries = forget name c.entries })
        (search files base name none (split_path c.path_value))

-- `lookup`
unfoldable pub lookup : Files → Option Bytes → Bytes → Bytes → PathCache → Lookup × PathCache
unfolding bytes_eq split_path search cached forget
lookup files base name path c =
    if any (λ b. b == b'/') name
    then (found name, c)
    else with_hit files base name (for_path path c) (cached name (for_path path c).entries)
