-- ===== src/Exec/Trace.antt =====
-- `trace` of exec/mod.rs: the line that `set -x` writes.
use oh_my_shell.Base.{Bytes, Option, none, some, List, [], ◌∷◌, ◌++◌, codes, if◌then◌else◌}
use oh_my_shell.Vars.{Variables, get}
use oh_my_shell.Io.{Io}
use oh_my_shell.Exec.{Host, Eval, pure, gets, call, ◌>>=◌, ◌>>◌}

-- The pieces, each but the first after a space.
abbrev pub assignment_text : Bytes × Bytes → Bytes
assignment_text (name, value) = name ++ b'=' ∷ value

unfoldable pub pieces : List (Bytes × Bytes) → List Bytes → List Bytes
pieces [] ws = ws
pieces (a ∷ asg) ws = assignment_text a ∷ pieces asg ws

unfoldable pub spaced : List Bytes → Bytes
spaced [] = []
spaced (piece ∷ []) = piece
spaced (piece ∷ next ∷ rest) = piece ++ 0x20 ∷ spaced (next ∷ rest)

abbrev pub prompt : Option Bytes → Bytes
prompt none = codes "+ "
prompt (some value) = value

-- The line.
unfoldable pub trace_line : Variables → List (Bytes × Bytes) → List Bytes → Bytes
unfolding get pieces spaced
trace_line vars asg ws = prompt (get (codes "PS4") vars) ++ spaced (pieces asg ws) ++ 0x0A ∷ []

-- `trace`; an error of the write is dropped.
unfoldable pub trace :
    {W : Type 0} → Host W → List (Bytes × Bytes) → List Bytes → Io → Eval W (Unit {0})
unfolding trace_line
trace host asg ws io = do
  on ← gets (λ s. s.options.xtrace)
  line ← gets (λ s. trace_line s.vars asg ws)
  if on then call (host.write_all 2 line io) >> pure tt else pure tt
