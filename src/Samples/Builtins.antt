-- ===== src/Samples/Builtins.antt =====
-- builtins/test.rs, umask.rs, flow.rs and echo.rs, and options.rs: tests and instances.
use oh_my_shell.Base.{
  any, ℕ, ◌≤◌, ◌++◌, map, true, false, ◌&&◌, none, some, [], ◌∷◌, ◌≡◌, refl, codes, bytes_eq,
  if◌then◌else◌, arith,
}
use oh_my_shell.Chars.{unit_at}
use oh_my_shell.Test.{Os}
use oh_my_shell.Test
use oh_my_shell.Test.Grammar.{test, evaluate_test}
use oh_my_shell.Test.Total.{test_total}
use oh_my_shell.Test.Counts.{by_count, evaluate_test-by_count}
use oh_my_shell.Options.{Options, set_named, named, dollar_dash}
use oh_my_shell.Options.Laws.{supported, named-set_named}
use oh_my_shell.Umask.{octal, describe, parse_mode}
use oh_my_shell.Umask.RoundTrip.{parse_mode-octal}
use oh_my_shell.Umask.Command
use oh_my_shell.Umask.Command.{umask, umask-subshell}
use oh_my_shell.Echo.{echo, is_option}
use oh_my_shell.Echo.Escapes.{double_backslashes, joined, echo-double}
use oh_my_shell.Base.Run.{done}
use oh_my_shell.Flow.{Shell, break_loops, loop_control, err, exit, exit_with}

-- A system without files, where descriptor 0 is a terminal.
abbrev bare : Os
bare = record {
  metadata = λ name. none;
  symlink_metadata = λ name. none;
  access = λ name a. false;
  euid = 0;
  egid = 0;
  is_terminal = λ fd. true;
}

strings_differ : test bare (codes "a" ∷ codes "=" ∷ codes "b" ∷ []) false ≡ some 1
unfolding test
strings_differ = refl

one_argument : test bare (codes "!" ∷ []) false ≡ some 0
unfolding test
one_argument = refl

numbers_with_blanks :
    test bare (codes " 7 " ∷ codes "-gt" ∷ codes "-3" ∷ codes "]" ∷ []) true ≡ some 0
unfolding test unit_at
numbers_with_blanks = refl

not_takes_all : test bare (codes "!" ∷ codes "x" ∷ codes "-o" ∷ codes "y" ∷ []) false ≡ some 1
unfolding test
not_takes_all = refl

no_bracket : test bare (codes "a" ∷ []) true ≡ some 2
unfolding test
no_bracket = refl

no_number : test bare (codes "a" ∷ codes "-eq" ∷ codes "1" ∷ []) false ≡ some 2
unfolding test unit_at
no_number = refl

-- Three arguments, `( ! )`: by the count, the test of a plain string; this is an error.
bracketed_not : test bare (codes "(" ∷ codes "!" ∷ codes ")" ∷ []) false ≡ some 2
unfolding test
bracketed_not = refl

test_total_example :
    (n : ℕ) × (test bare (codes "(" ∷ codes "a" ∷ codes "-a" ∷ []) false ≡ some n) × (n ≤ 2)
test_total_example = test_total bare (codes "(" ∷ codes "a" ∷ codes "-a" ∷ []) false

not_and_string : by_count bare (codes "!" ∷ codes "x" ∷ []) ≡ some (Test.Result.ok false)
unfolding by_count bytes_eq
not_and_string = refl

evaluate_test-by_count_example :
    evaluate_test bare (codes "!" ∷ codes "x" ∷ []) ≡ some (Test.Result.ok false)
evaluate_test-by_count_example =
    evaluate_test-by_count bare (codes "!" ∷ codes "x" ∷ []) (Test.Result.ok false) not_and_string

abbrev defaults : Options
defaults = record {
  errexit = false;
  nounset = false;
  xtrace = false;
  noglob = false;
  noclobber = false;
  pipefail = false;
}

letters_shown : dollar_dash (set_named (codes "errexit") true defaults).1 true ≡ codes "sie"
unfolding dollar_dash set_named
letters_shown = refl

named-set_named_example :
    ((set_named (codes "xtrace") true defaults).0 ≡ any (bytes_eq (codes "xtrace")) supported)
    × (named (codes "pipefail") (set_named (codes "xtrace") true defaults).1 ≡ (
        if bytes_eq (codes "xtrace") (codes "pipefail") && any (bytes_eq (codes "xtrace")) supported
        then true
        else named (codes "pipefail") defaults))
named-set_named_example = named-set_named (codes "xtrace") (codes "pipefail") true defaults

mask_described : describe 0o022 ≡ codes "u=rwx,g=rx,o=rx"
unfolding describe
mask_described = refl

mask_relative : parse_mode (codes "g+w") 0o022 ≡ some 0o002
unfolding parse_mode
mask_relative = refl

mask_refused : parse_mode (codes "0o8") 0o022 ≡ none
unfolding parse_mode
mask_refused = refl

parse_mode-octal_example : parse_mode (octal 0o027) 0o022 ≡ some 0o027
parse_mode-octal_example = parse_mode-octal 0o027 0o022 (omega arith)

abbrev two_loops : Shell
two_loops = record { last = 0; func_depth = 0; loop_depth = 2 }

status_modulo_256 : exit two_loops (codes "-1" ∷ []) ≡ err (exit_with 255)
unfolding exit unit_at
status_modulo_256 = refl

break_at_most_all : loop_control two_loops (codes "9" ∷ []) break_loops ≡ err (break_loops 2)
unfolding loop_control
break_at_most_all = refl

-- `echo -e 'a\tb' c`
tab_written :
    echo (codes "-e" ∷ (b'a' ∷ b'\\' ∷ b't' ∷ b'b' ∷ []) ∷ codes "c" ∷ [])
    ≡ done (b'a' ∷ 9 ∷ b'b' ∷ b' ' ∷ b'c' ∷ 10 ∷ [])
unfolding echo
tab_written = refl

stopped_by_c :
    echo (codes "-e" ∷ (b'a' ∷ b'\\' ∷ b'c' ∷ b'b' ∷ []) ∷ codes "d" ∷ []) ≡ done (b'a' ∷ [])
unfolding echo
stopped_by_c = refl

no_escapes : echo (codes "-n" ∷ (b'\\' ∷ b'n' ∷ []) ∷ []) ≡ done (b'\\' ∷ b'n' ∷ [])
unfolding echo
no_escapes = refl

not_an_option : is_option (double_backslashes (b'\\' ∷ b'n' ∷ [])) ≡ false
unfolding is_option double_backslashes
not_an_option = refl

echo-double_example :
    echo (codes "-e" ∷ map double_backslashes ((b'\\' ∷ b'n' ∷ []) ∷ codes "x" ∷ []))
    ≡ done (joined [] ((b'\\' ∷ b'n' ∷ []) ∷ codes "x" ∷ []) ++ 10 ∷ [])
echo-double_example = echo-double (b'\\' ∷ b'n' ∷ []) (codes "x" ∷ []) not_an_option

abbrev copied : Command.Shell
copied = record { in_subshell = true; umask_override = none; process_mask = 0o022 }

mask_of_copy :
    umask (codes "077" ∷ []) copied ≡ (0, [], record copied { umask_override = some 0o077 })
unfolding umask
mask_of_copy = refl

umask-subshell_example : ((umask (codes "077" ∷ []) copied).2).process_mask ≡ 0o022
umask-subshell_example = umask-subshell (codes "077" ∷ []) copied refl
