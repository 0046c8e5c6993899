-- ===== src/Samples/Execution.antt =====
-- Tests of the interpreter and of the tables of open files, and their theorems at concrete inputs.
use oh_my_shell.Base.{
  Option, Bytes, true, false, none, some, List, [], ◌∷◌, ◌++◌, ◌≡◌, refl, codes, bytes_eq,
}
use oh_my_shell.Flow.{ok}
use oh_my_shell.Io.{Io, apply}
use oh_my_shell.Options.{Options}
use oh_my_shell.Tree
use oh_my_shell.Tree.{
  literal, Word, no_parts, parts, Words, no_words, words, no_assignments, assigning, no_redirects,
  redirects, target, input, Items, no_items, item, Kind, simple, while_loop, for_words, Command,
  command, no_stages, stages, pipeline, and_or, no_rest, Assignments,
}
use oh_my_shell.Exec.{
  ignore, run_command, open_failed, opened, Shell, Host, written, rejected, Rec, list,
}
use oh_my_shell.Exec.Keeps.{HostKeeps, Sound, counters}
use oh_my_shell.Exec.Keeps.Run.{run-Sound}
use oh_my_shell.Exec.Copies.{
  kept, Distinct, subshell-Untrapped, Positional, call_function-Positional, assigns_to, Keeps,
  run_target-Keeps,
}
use oh_my_shell.Exec.Lists.{pipeline_status}
use oh_my_shell.Exec.Names.{external}
use oh_my_shell.Exec.Simple.{call_function, run_target}
use oh_my_shell.Exec.Statuses.{pipeline_status_lem}
use oh_my_shell.Exec.Traps
use oh_my_shell.Exec.Traps.{subshell, run_pending_traps, run_exit_trap}
use oh_my_shell.Exec.Run.{Outcome, run, run_line, continue_with}

-- A host without files, where a word is its literal parts and a program writes its words, one by one, to the world.
abbrev World : Type 0
World = List Bytes

abbrev text_of : Word → Bytes
text_of no_parts = []
text_of (parts (literal text) rest) = text ++ text_of rest
text_of (parts p rest) = text_of rest

abbrev texts_of : Words → List Bytes
texts_of no_words = []
texts_of (words w rest) = text_of w ∷ texts_of rest

abbrev toy : Host World
toy = record {
  interrupted = λ w. (false, w);
  take_pending = λ w. ([], w);
  current_dir = λ w. some (codes "/");
  pipe = λ w. (some (10, 11), w);
  spawn = λ w. (true, w);
  parse = λ aliases text. rejected;
  expand_words = λ ws io s. (some (texts_of ws), s);
  expand_target = λ w io s. (some (text_of w), s);
  expand_pattern = λ w io s. (none, s);
  apply_assignments = λ asg io s. (some [], s);
  expand_heredoc = λ w io s. (some (text_of w), s);
  memory_file = λ text w. (some 9, w);
  open_at = λ flags dir name w. (opened 8, w);
  fchmod = λ slot mode w. (true, w);
  is_file = λ path s. false;
  read_file = λ path s. none;
  run_builtin = λ name args io s. (ok 0, s);
  write_all = λ fd bytes io s. (written, record s { world = s.world ++ bytes ∷ [] });
  lossy = λ bytes. bytes;
  set_disposition = λ signal how w. w;
  run_external = λ args io s. (0, record s { world = s.world ++ args });
}

toy-HostKeeps : HostKeeps toy
toy-HostKeeps = record {
  expand_words = λ ws io s. refl;
  expand_target = λ w io s. refl;
  expand_pattern = λ w io s. refl;
  apply_assignments = λ asg io s. refl;
  expand_heredoc = λ w io s. refl;
  run_builtin = λ name args io. record { from = λ s. refl };
  write_all = λ fd bytes io s. refl;
  run_external = λ args io s. refl;
}

abbrev no_options : Options
no_options = record {
  errexit = false;
  nounset = false;
  xtrace = false;
  noglob = false;
  noclobber = false;
  pipefail = false;
}

abbrev fresh : Shell World
fresh = record {
  world = [];
  vars = [];
  status = 0;
  positional = [];
  name = codes "sh";
  interactive = false;
  cmdsub_status = none;
  functions = [];
  aliases = [];
  traps = [];
  running_trap = false;
  fd_changes = [];
  umask_override = none;
  path_override = none;
  options = no_options;
  errexit_off = 0;
  cwd_override = none;
  in_subshell = false;
  depth = 0;
  loop_depth = 0;
  func_depth = 0;
}

-- Trees: a word, a simple command, a list of commands.
abbrev word : Bytes → Word
word text = parts (literal text) no_parts

abbrev word_list : List Bytes → Words
word_list [] = no_words
word_list (w ∷ ws) = words (word w) (word_list ws)

abbrev runs : List Bytes → Command
runs ws = command (simple no_assignments (word_list ws)) no_redirects

abbrev only : Kind → Command
only kind = command kind no_redirects

abbrev then_ : Command → Items → Items
then_ c rest = item (and_or (pipeline false (stages c no_stages)) no_rest) false rest

-- `while break; do :; done; x`
abbrev while_break : Items
while_break =
    then_
      (only (
        while_loop (then_ (runs (codes "break" ∷ [])) no_items)
          (then_ (runs (codes ":" ∷ [])) no_items)))
      (then_ (runs (codes "x" ∷ [])) no_items)

-- The `break` in the condition goes on past the loop, and `x` does not run.
break_in_condition :
    run_line toy (λ w. w) 20 while_break [] fresh ≡ some (continue_with 0, fresh, [])
unfolding run_line apply
break_in_condition = refl

-- `for i in a b; do x; break; done; y`
abbrev for_break : Items
for_break =
    then_
      (only (
        for_words (codes "i") (word_list (codes "a" ∷ codes "b" ∷ []))
          (then_ (runs (codes "x" ∷ [])) (then_ (runs (codes "break" ∷ [])) no_items))))
      (then_ (runs (codes "y" ∷ [])) no_items)

-- What the programs wrote, and the outcome.
abbrev written_by : Option (Outcome × Shell World × Io) → World
written_by none = []
written_by (some (result, s, io)) = s.world

for_break_writes :
    written_by (run_line toy (λ w. w) 30 for_break [] fresh) ≡ codes "x" ∷ codes "y" ∷ []
unfolding run_line oh_my_shell.Vars.set
for_break_writes = refl

-- `set -e; (x) < missing; y`: the subshell does not run, and the status 2 does not end the line.
abbrev without_files : Host World
without_files = record toy { open_at = λ flags dir name w. (open_failed, w) }

abbrev missing_input : Items
missing_input =
    then_
      (command (Tree.subshell (then_ (runs (codes "x" ∷ [])) no_items))
        (redirects (target none input (word (codes "missing"))) no_redirects))
      (then_ (runs (codes "y" ∷ [])) no_items)

abbrev with_option : Options → Shell World
with_option o = record fresh { options = o }

missing_input_goes_on :
    written_by (
      run_line without_files
        (λ w. w)
        30
        missing_input
        []
        (with_option (record no_options { errexit = true })))
    ≡ codes "y" ∷ []
unfolding run_line apply
missing_input_goes_on = refl

-- `set -x; y`
traced_command :
    written_by (
      run_line toy
        (λ w. w)
        20
        (then_ (runs (codes "y" ∷ [])) no_items)
        []
        (with_option (record no_options { xtrace = true })))
    ≡ (codes "+ y" ++ 10 ∷ []) ∷ codes "y" ∷ []
unfolding run_line
traced_command = refl

run-Sound_example : Sound (counters fresh) (run toy 20 (list for_break) [] fresh)
run-Sound_example = run-Sound toy toy-HostKeeps 20 (list for_break) [] fresh

-- A function whose body runs another program, and a body that sets a variable.
abbrev calls : Rec World
calls c io s = some (ok 0, record s { positional = codes "changed" ∷ []; vars = [] })

call_function-Positional_example : Positional (codes "a" ∷ []) (
    call_function calls
      (runs [])
      (codes "b" ∷ [])
      []
      (record fresh { positional = codes "a" ∷ [] }))
call_function-Positional_example =
    call_function-Positional calls (runs []) (codes "b" ∷ []) []
      (record fresh { positional = codes "a" ∷ [] })

-- `trap '' INT; trap x EXIT`
abbrev trapping : Shell World
trapping = record fresh { traps = (0, run_command (codes "x")) ∷ (2, ignore) ∷ [] }

trapping-Distinct : Distinct trapping.traps
unfolding Traps.get
trapping-Distinct = (refl, (refl, tt))

subshell-Untrapped_example :
    ((subshell toy trapping).fd_changes ≡ [])
    × (Traps.get 0 (subshell toy trapping).traps ≡ kept (Traps.get 0 trapping.traps))
    × (run_pending_traps toy calls [] (subshell toy trapping) ≡ some (ok tt, subshell toy trapping))
    × (run_exit_trap calls 3 [] (subshell toy trapping) ≡ some (ok 3, subshell toy trapping))
subshell-Untrapped_example = subshell-Untrapped toy calls [] 3 0 trapping trapping-Distinct

-- `x=new f`, where `x` does not exist.
abbrev x_new : Assignments
x_new = assigning (codes "x") (word (codes "new")) no_assignments

x_new_assigns : assigns_to (codes "x") x_new ≡ true
unfolding bytes_eq
x_new_assigns = refl

run_target-Keeps_example :
    Keeps (codes "x") [] (run_target toy calls false external none x_new (codes "f") [] [] [] fresh)
run_target-Keeps_example =
    run_target-Keeps toy calls external none x_new (codes "f") [] [] [] fresh (codes "x")
      x_new_assigns

pipeline_status_lem_example :
    (pipeline_status false (1 ∷ 3 ∷ []) ≡ 3)
    × (pipeline_status true (1 ∷ 3 ∷ 0 ∷ []) ≡ 3)
    × (pipeline_status true [] ≡ 0)
pipeline_status_lem_example = pipeline_status_lem (1 ∷ []) (0 ∷ []) 3 refl
