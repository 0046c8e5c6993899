-- ===== src/Samples.antt =====
-- Tests of the definitions on inputs taken from the repository's own tests, and each theorem at one
-- concrete input.
mod Patterns
mod Variables
mod Arithmetic
mod Builtins
mod Expansion
mod Execution
mod Files
