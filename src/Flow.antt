-- ===== src/Flow.antt =====
-- Statuses and the ways a command ends: crates/omsh-exec/src/status.rs, `Unwind` and `boundary` of
-- exec/mod.rs, builtins/flow.rs, and what a loop does with the end of its body (exec/compound.rs).
pub mod Loops
use oh_my_shell.Base.{
  ℕ, zero, suc, ◌+◌, ◌-◌, ◌*◌, ◌%◌, ◌^◌, Bytes, Bool, true, false, ◌&&◌, ◌||◌, Option, none, some,
  List, [], ◌∷◌, ltb, leb, within, ◌==◌, if◌then◌else◌, any, all, is_empty,
}
use oh_my_shell.Chars.{units, invalid_base}
use oh_my_shell.Test.{parse_i64}

-- `ExitStatus`: a byte.
abbrev pub Status : Type 0
Status = ℕ

abbrev pub success : Status
success = 0

abbrev pub usage : Status
usage = 2

-- `from_signal`
unfoldable pub from_signal : ℕ → Status
from_signal signal = if ltb (128 + signal) 256 then 128 + signal else 255

-- `WaitStatus`, of the crate nix: the states `from_wait` tells apart. The code is a 32-bit word.
pub data WaitStatus : Type 0 where
  wait_exited : ℕ → WaitStatus
  wait_signaled : ℕ → Bool → WaitStatus
  still_alive : WaitStatus

pub data Termination : Type 0 where
  exited : ℕ → Termination
  signaled : ℕ → Bool → Termination

unfoldable pub from_wait : WaitStatus → Option Termination
from_wait (wait_exited code) = some (exited (code % 256))
from_wait (wait_signaled signal core_dumped) = some (signaled signal core_dumped)
from_wait still_alive = none

unfoldable pub status : Termination → Status
unfolding from_signal
status (exited code) = code
status (signaled signal core_dumped) = from_signal signal

pub data Unwind : Type 0 where
  exit_with return_with error_with : Status → Unwind
  break_loops continue_loops : ℕ → Unwind
  interrupted : Unwind

-- `Flow`, and `Result<T, Unwind>`
pub data Flow {ℓ} (A : Type ℓ) : Type ℓ where
  ok : A → Flow A
  err : Unwind → Flow A

unfoldable pub boundary : Flow Status → Status
unfolding from_signal
boundary (ok s) = s
boundary (err (exit_with s)) = s
boundary (err (return_with s)) = s
boundary (err (error_with s)) = s
boundary (err (break_loops n)) = success
boundary (err (continue_loops n)) = success
boundary (err interrupted) = from_signal 2

-- The fields of `Shell` that the builtins of flow.rs read.
pub record Shell : Type 0 where
  pub last : Status
  pub func_depth : ℕ
  pub loop_depth : ℕ

-- The number of a text of decimal digits.
abbrev pub digits_value : ℕ → Bytes → ℕ
digits_value value [] = value
digits_value value (b ∷ rest) = digits_value (value * 10 + (b - b'0')) rest

-- `parse_count`, of builtins/mod.rs: a `u32`, written in digits.
unfoldable pub parse_count : Bytes → Option ℕ
parse_count text =
    let n = digits_value 0 text in
    if is_empty text
    then none
    else if all (within b'0' b'9') text
    then (if ltb n (2 ^ 32) then some n else none)
    else none

-- `n & 0xff`, where there is a number.
abbrev pub low_byte : Option ℕ → Flow Status
low_byte (some n) = err (exit_with (n % 256))
low_byte none = err (exit_with usage)

-- `exit`
unfoldable pub exit : Shell → List Bytes → Flow Status
unfolding units parse_i64
exit shell [] = err (exit_with shell.last)
exit shell (arg ∷ args) =
    low_byte (if any (leb invalid_base) (units arg) then none else parse_i64 (units arg))

abbrev pub return_count : Option ℕ → Flow Status
return_count (some n) = err (return_with (n % 256))
return_count none = ok usage

abbrev pub return_status : Shell → List Bytes → Flow Status
return_status shell [] = err (return_with shell.last)
return_status shell (arg ∷ args) = return_count (parse_count arg)

-- `return_`
unfoldable pub return_ : Shell → List Bytes → Flow Status
unfolding parse_count
return_ shell args = if shell.func_depth == 0 then ok usage else return_status shell args

-- `break` and `continue`, which differ in `make`.
abbrev pub minimum : ℕ → ℕ → ℕ
minimum a b = if ltb a b then a else b

abbrev pub unwind_loops : Shell → (ℕ → Unwind) → ℕ → Flow Status
unwind_loops shell make count =
    if shell.loop_depth == 0 then ok success else err (make (minimum count shell.loop_depth))

abbrev pub counted : Shell → (ℕ → Unwind) → Option ℕ → Flow Status
counted shell make none = ok usage
counted shell make (some n) = if leb 1 n then unwind_loops shell make n else ok usage

unfoldable pub loop_control : Shell → List Bytes → (ℕ → Unwind) → Flow Status
unfolding parse_count
loop_control shell [] make = unwind_loops shell make 1
loop_control shell (arg ∷ args) make = counted shell make (parse_count arg)

-- `loop_body`, of what `run_list(body)` returned: whether the loop goes on, and its status.
unfoldable pub loop_body : Flow Status → Status → Flow Bool × Status
loop_body (ok last) s = (ok true, last)
loop_body (err (break_loops n)) s = (if ltb 1 n then err (break_loops (n - 1)) else ok false, s)
loop_body (err (continue_loops n)) s =
    (if ltb 1 n then err (continue_loops (n - 1)) else ok true, s)
loop_body (err other) s = (err other, s)

-- What `call_function` and `dot` return, of what the body returned.
unfoldable pub catch_return : Flow Status → Flow Status
catch_return (err (return_with s)) = ok s
catch_return other = other
