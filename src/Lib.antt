-- ===== src/Lib.antt =====
-- oh-my-shell: a shell written in Rust, of which this library models and verifies the core of the
-- crate omsh-exec (crates/omsh-exec/src), which runs what the crate omsh-syntax has parsed.
--
-- The parts, and where they are:
-- - Chars, Pattern: expand/pattern.rs. Text is read as characters by `unit_at`; a byte that is not
--   UTF-8 is a character of its own, as a number past the code points. `Pattern::new` is
--   Pattern.Compile.compile, `Pattern::matches` is Pattern.Matching.matches, and the `#` and `%` forms of
--   expand/param.rs are Pattern.Affix.trim. Case, parameter expansion and pathname expansion use them.
-- - Arith: expand/arith.rs. Numbers are 64-bit patterns (Arith.Word); the parser evaluates while it reads,
--   and reads and writes the variables of Vars.
-- - Vars: vars.rs. The table is a list in order of creation; `set` and `unset` return an Outcome with the
--   table that is left. Vars.Environment is what a program receives.
-- - Split: expand/split.rs, with `Kind` and `Field` of expand/mod.rs. The bytes of a field and their kinds
--   are one list.
-- - AnsiC: expand/ansi_c.rs, the text of `$'...'`.
-- - Test: builtins/test.rs. The answers of the operating system are the parameter Os.
-- - Umask: builtins/umask.rs, with the mask of the process as a field. Options: options.rs.
-- - Echo: builtins/echo.rs, the bytes that echo writes.
-- - Flow: status.rs, `Unwind` and `boundary` of exec/mod.rs, builtins/flow.rs, and what a loop of
--   exec/compound.rs does with the end of its body.
-- - Tree: crates/omsh-syntax/src/ast/mod.rs, without the places in the text. A list of words, of
--   assignments and so on is a type of its own, since each holds the others.
-- - Io: io.rs, the table of open files of a command; Io.Plan is `Io::plan` and `apply_plan` of spawn.rs.
-- - Exec: running a tree. Exec has the state (`Shell` of shell.rs) and Host, the parts of the
--   shell that the interpreter calls and that are not tied to it here: the expansion of words, the
--   calls of the kernel, programs, parsing, and the builtins that Exec.Simple.run_builtin does not
--   name. Exec.Nesting has the counters of exec/mod.rs, Exec.Lists lists and pipelines
--   (exec/mod.rs, exec/pipeline.rs), Exec.Names what a name stands for, Exec.Simple simple
--   commands and functions, Exec.Compound exec/compound.rs, Exec.Declare and Exec.SetOptions
--   builtins/variables.rs, Exec.TrapBuiltin builtins/trap.rs, Exec.Redirection redirect.rs,
--   Exec.Traps traps.rs, Exec.Check check.rs, Exec.Text and Exec.Source builtins/source.rs,
--   Exec.Trace the line of `set -x`, and Exec.Run ties them together, up to `Shell::run_source` of
--   shell.rs. Exec.Keeps, Exec.Copies and Exec.Statuses are proofs.
-- - Builtins: the helpers of builtins/mod.rs. Search: path.rs, the search path and its cache.
-- - Base: shared helpers. Samples: tests and instances.
--
-- Strings are lists of numbers below 256, and where the source has an offset into a slice the model
-- has the list from there on. A loop that does not follow a list runs on fuel, and the theorems on it
-- show that the fuel is enough: the length of the text for loops over a text, sixteen calls for each
-- token for the arithmetic parser, and eight calls for each argument for `test`. The fuel of the
-- interpreter counts nested calls and passes of loops; a script may run for ever, so no amount is enough
-- for all, and the theorems on it are on the runs that return. The messages of errors are values of a
-- data type or left out, not text.
--
-- The stages of a pipeline, which run at the same time, run here one after another, each on its copy of
-- the shell. The world (files, processes, signals that arrived) is a type of which nothing is assumed.
--
-- Not modelled: the expansion of words but for the parts named above, starting programs and waiting
-- for them, aliases, the other builtins, the scanner and parser of omsh-syntax, the command line
-- (omsh-cli), and all input and output.
pub mod Base
pub mod Chars
pub mod Pattern
pub mod Vars
pub mod Arith
pub mod Test
pub mod Options
pub mod AnsiC
pub mod Split
pub mod Flow
pub mod Tree
pub mod Io
pub mod Builtins
pub mod Search
pub mod Exec
pub mod Umask
pub mod Echo
mod Samples
