-- ===== src/Search/Cached.antt =====
-- The lookup with a cache and the search without one, and whether a file that is found is executable.
use mathlib.Core.Path.{subst}
use oh_my_shell.Base.{
  Bytes, Bool, true, false, Option, none, some, List, [], ◌∷◌, ◌≡◌, refl, sym, ◌∙◌, ap, ◌==◌,
  if◌then◌else◌, any, bytes_eq, bytes_eq→eq, Bool-cases, inl, inr,
}
use oh_my_shell.Exec.Source.{split_path, joined}
use oh_my_shell.Search.{
  Lookup, found, denied, not_found, PathCache, Files, under, is_executable, or_denied, first_denied,
  search, cached, forget, for_path, remember, with_hit, lookup,
}

-- What the search finds without a cache.
unfoldable pub plain : Files → Option Bytes → Bytes → Bytes → Lookup
unfolding search split_path
plain files base name path =
    if any (λ b. b == b'/') name then found name else search files base name none (split_path path)

-- Every entry is what the search for its name finds now.
abbrev pub FreshIn : Files → Option Bytes → Bytes → List (Bytes × Bytes) → Type 0
FreshIn files base path [] = Unit
FreshIn files base path ((name, hit) ∷ entries) =
    (search files base name none (split_path path) ≡ found hit) × FreshIn files base path entries

abbrev pub Fresh : Files → Option Bytes → PathCache → Type 0
Fresh files base c = FreshIn files base c.path_value c.entries

cached-Fresh :
    (files : Files) (base : Option Bytes) (path name hit : Bytes) (entries : List (Bytes × Bytes))
    → FreshIn files base path entries
    → cached name entries ≡ some hit
    → search files base name none (split_path path) ≡ found hit
unfolding cached
cached-Fresh files base path name hit [] h e = cc
cached-Fresh files base path name hit ((n, p) ∷ entries) (h, k) e =
    at_head (cached-Fresh files base path name hit entries k) (bytes_eq n name) refl e
  where
    at_head :
        (cached name entries ≡ some hit → search files base name none (split_path path) ≡ found hit)
        → (b : Bool) → bytes_eq n name ≡ b
        → (if b then some p else cached name entries) ≡ some hit
        → search files base name none (split_path path) ≡ found hit
    at_head others true q e =
        subst (λ m. search files base m none (split_path path) ≡ found hit) (bytes_eq→eq n name q)
          (h ∙ cc)
    at_head others false q e = others e

forget-Fresh :
    (files : Files) (base : Option Bytes) (path name : Bytes) (entries : List (Bytes × Bytes))
    → FreshIn files base path entries
    → FreshIn files base path (forget name entries)
unfolding forget
forget-Fresh files base path name [] h = tt
forget-Fresh files base path name ((n, p) ∷ entries) (h, k) = elim (Bool-cases (bytes_eq n name)) [
  | inl q ↦ rw q (forget-Fresh files base path name entries k)
  | inr q ↦ rw q (h, forget-Fresh files base path name entries k)
]

for_path-Fresh :
    (files : Files) (base : Option Bytes) (path : Bytes) (c : PathCache)
    → Fresh files base c
    → Fresh files base (for_path path c) × ((for_path path c).path_value ≡ path)
for_path-Fresh files base path c h = elim (Bool-cases (bytes_eq c.path_value path)) [
  | inl q ↦ rw q (h, bytes_eq→eq c.path_value path q)
  | inr q ↦ rw q (tt, refl)
]

-- A result and the cache behind it.
abbrev Right : Files → Option Bytes → Lookup → Lookup × PathCache → Type 0
Right files base expected (result, c) = (result ≡ expected) × Fresh files base c

remember-Right :
    (files : Files) (base : Option Bytes) (name : Bytes) (c : PathCache) (r : Lookup)
    → Fresh files base c
    → search files base name none (split_path c.path_value) ≡ r
    → Right files base r (remember name c r)
remember-Right files base name c (found path) h e = (refl, (e, h))
remember-Right files base name c (denied path) h e = (refl, h)
remember-Right files base name c not_found h e = (refl, h)

with_hit-Right :
    (files : Files) (base : Option Bytes) (name : Bytes) (c : PathCache) (o : Option Bytes)
    → Fresh files base c
    → cached name c.entries ≡ o
    → Right files base
        (search files base name none (split_path c.path_value))
        (with_hit files base name c o)
with_hit-Right files base name c none h e =
    remember-Right files base name c (search files base name none (split_path c.path_value)) h refl
with_hit-Right files base name c (some hit) h e =
    elim (Bool-cases (is_executable files (under base hit))) [
      | inl q ↦ rw q (sym (cached-Fresh files base c.path_value name hit c.entries h e), h)
      | inr q ↦ rw q (
          remember-Right files base name (record c { entries = forget name c.entries })
            (search files base name none (split_path c.path_value))
            (forget-Fresh files base c.path_value name c.entries h) refl)
    ]

-- If every entry of the cache is what the search for its name finds now, then the lookup finds what the search without a cache
-- finds, and every entry of the cache behind it is again what the search for its name finds.
pub lookup-plain :
    (files : Files) (base : Option Bytes) (name path : Bytes) (c : PathCache)
    → Fresh files base c
    → ((lookup files base name path c).0 ≡ plain files base name path)
      × Fresh files base (lookup files base name path c).1
unfolding lookup plain
lookup-plain files base name path c h = elim (Bool-cases (any (λ b. b == b'/') name)) [
  | inl q ↦ rw q (refl, h)
  | inr q ↦ rw q (
      let fresh = for_path-Fresh files base path c h in
      let right =
        with_hit-Right files base name (for_path path c) (cached name (for_path path c).entries)
          fresh.0 refl in
      (right.0 ∙ ap (λ p. search files base name none (split_path p)) fresh.1, right.1))
]

-- A file that was found is executable.
abbrev pub Executable : Files → Option Bytes → Lookup → Type 0
Executable files base (found path) = is_executable files (under base path) ≡ true
Executable files base (denied path) = Unit
Executable files base not_found = Unit

or_denied-Executable :
    (files : Files) (base so_far : Option Bytes) → Executable files base (or_denied so_far)
or_denied-Executable files base none = tt
or_denied-Executable files base (some path) = tt

search-Executable :
    (files : Files) (base : Option Bytes) (name : Bytes) (so_far : Option Bytes) (dirs : List Bytes)
    → Executable files base (search files base name so_far dirs)
unfolding search
search-Executable files base name so_far [] = or_denied-Executable files base so_far
search-Executable files base name so_far (dir ∷ dirs) =
    elim (Bool-cases (is_executable files (under base (joined dir name)))) [
      | inl q ↦ rw q q
      | inr q ↦ rw q (
          search-Executable files base name
            (first_denied so_far (files.is_file (under base (joined dir name))) (joined dir name))
            dirs)
    ]

remember-Executable :
    (files : Files) (base : Option Bytes) (name : Bytes) (c : PathCache) (r : Lookup)
    → Executable files base r
    → Executable files base (remember name c r).0
remember-Executable files base name c (found path) h = h
remember-Executable files base name c (denied path) h = h
remember-Executable files base name c not_found h = h

with_hit-Executable :
    (files : Files) (base : Option Bytes) (name : Bytes) (c : PathCache) (o : Option Bytes)
    → Executable files base (with_hit files base name c o).0
with_hit-Executable files base name c none =
    remember-Executable files base name c (search files base name none (split_path c.path_value))
      (search-Executable files base name none (split_path c.path_value))
with_hit-Executable files base name c (some hit) =
    elim (Bool-cases (is_executable files (under base hit))) [
      | inl q ↦ rw q q
      | inr q ↦ rw q (
          remember-Executable files base name (record c { entries = forget name c.entries })
            (search files base name none (split_path c.path_value))
            (search-Executable files base name none (split_path c.path_value)))
    ]

-- A file that the lookup finds for a name without a `/` is an executable file now, whatever the cache holds.
pub lookup-Executable :
    (files : Files) (base : Option Bytes) (name path : Bytes) (c : PathCache)
    → any (λ b. b == b'/') name ≡ false
    → Executable files base (lookup files base name path c).0
unfolding lookup
lookup-Executable files base name path c q =
    rw q (
      with_hit-Executable files base name (for_path path c) (cached name (for_path path c).entries))
