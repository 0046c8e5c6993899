-- ===== src/Umask/RoundTrip.antt =====
-- The octal text of a mask, printed and read back.
use oh_my_shell.Base.{ℕ, ◌≤◌, some, ◌≡◌, arith}
use oh_my_shell.Umask.{octal, octal_digits, parse_mode}

-- What `umask` prints for a mask up to 0o777, `umask` reads back as the same mask, whatever the mask
-- is by then.
pub parse_mode-octal :
    (mask current : ℕ) → mask ≤ 0o777 → parse_mode (octal mask) current ≡ some mask
unfolding parse_mode octal octal_digits
parse_mode-octal mask current h = ground arith
