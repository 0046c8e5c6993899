-- ===== src/Exec/Redirection.antt =====
-- crates/omsh-exec/src/redirect.rs: the table of open files of a command with redirections.
use Prim.Native.Nat.{bit_and}
use oh_my_shell.Base.{
  ℕ, ◌-◌, Bytes, Bool, true, false, ◌&&◌, Option, none, some, [], ◌∷◌, ◌++◌, if◌then◌else◌, codes,
  bytes_eq,
}
use oh_my_shell.Flow.{parse_count}
use oh_my_shell.Io
use oh_my_shell.Io.{Slot, Io}
use oh_my_shell.Tree.{
  RedirectOp, input, output, append, read_write, dup_input, dup_output, clobber, output_and_error,
  append_and_error, here_string, Redirect, target, here_doc, Redirects, no_redirects, redirects,
}
use oh_my_shell.Exec.{
  Host, Redirected, table, failed, expand_error, to_read, to_write, to_both, Flags, Opened, opened,
  exists, open_failed, Eval, pure, gets, call, poll, ◌>>=◌,
}

-- The flags that the source puts together.
abbrev pub reading : Flags
reading = record {
  access = to_read;
  create = false;
  exclusive = false;
  truncate = false;
  append = false;
}

abbrev pub writing : Flags
writing = record {
  access = to_write;
  create = true;
  exclusive = false;
  truncate = false;
  append = false;
}

-- `open` of `resolve(name)`.
abbrev pub open_path : {W : Type 0} → Host W → Flags → Bytes → Eval W Opened
open_path host flags name = do dir ← gets (λ s. s.cwd_override); poll (host.open_at flags dir name)

-- The permissions of a new file: `0o666 & !mask`.
abbrev pub masked : {W : Type 0} → Host W → Option ℕ → Opened → Eval W Opened
masked host (some mask) (opened slot) = do
  done ← poll (host.fchmod slot (438 - bit_and 438 mask))
  pure (if done then opened slot else open_failed)
masked host none (opened slot) = pure (opened slot)
masked host mask exists = pure exists
masked host mask open_failed = pure open_failed

-- `create_exclusive`
unfoldable pub create_exclusive : {W : Type 0} → Host W → Bytes → Flags → Eval W Opened
create_exclusive host name flags = do
  made ← open_path host (record flags { create = true; exclusive = true }) name
  mask ← gets (λ s. s.umask_override)
  masked host mask made

abbrev pub slot_of : Opened → Option Slot
slot_of (opened slot) = some slot
slot_of exists = none
slot_of open_failed = none

-- A file that was there already is opened as it is.
abbrev pub or_existing : {W : Type 0} → Host W → Bytes → Flags → Opened → Eval W (Option Slot)
or_existing host name flags (opened slot) = pure (some slot)
or_existing host name flags open_failed = pure none
or_existing host name flags exists = do
  made ← open_path host (record flags { create = false }) name
  pure (slot_of made)

abbrev pub has_mask : Option ℕ → Bool
has_mask none = false
has_mask (some mask) = true

-- `open_file`
unfoldable pub open_file : {W : Type 0} → Host W → Bytes → Flags → Eval W (Option Slot)
unfolding create_exclusive
open_file host name flags = do
  mask ← gets (λ s. s.umask_override)
  if has_mask mask && flags.create
      then create_exclusive host name flags >>= or_existing host name flags
      else (do made ← open_path host flags name; pure (slot_of made))

-- With `set -C`: an existing file that is not a regular one is opened all the same.
abbrev pub or_special : {W : Type 0} → Host W → Bytes → Opened → Eval W (Option Slot)
or_special host name (opened slot) = pure (some slot)
or_special host name open_failed = pure none
or_special host name exists = do
  regular ← gets (host.is_file name)
  if regular then pure none else open_file host name writing

-- `open_for_output`
unfoldable pub open_for_output : {W : Type 0} → Host W → Bytes → Bool → Eval W (Option Slot)
unfolding create_exclusive open_file
open_for_output host name false = open_file host name (record writing { truncate = true })
open_for_output host name true = create_exclusive host name writing >>= or_special host name

abbrev pub or_fd : Option ℕ → ℕ → ℕ
or_fd none standard = standard
or_fd (some fd) standard = fd

abbrev pub placed : (Slot → Io) → Option Slot → Redirected
placed put none = failed
placed put (some slot) = table (put slot)

-- `>&word` and `<&word`.
abbrev pub copied : ℕ → Io → Option Slot → Redirected
copied fd tab none = failed
copied fd tab (some slot) = table (Io.set fd slot tab)

abbrev pub copied_from : ℕ → Io → Option ℕ → Redirected
copied_from fd tab none = failed
copied_from fd tab (some source) = copied fd tab (Io.get source tab)

unfoldable pub duplicate : ℕ → Bytes → Io → Redirected
unfolding parse_count bytes_eq Io.set Io.get Io.close
duplicate fd word tab =
    if bytes_eq word (codes "-")
    then table (Io.close fd tab)
    else copied_from fd tab (parse_count word)

abbrev pub both : Io → Slot → Io
both tab slot = Io.set 2 slot (Io.set 1 slot tab)

-- `apply_target`
unfoldable pub apply_target :
    {W : Type 0} → Host W → RedirectOp → Option ℕ → Bytes → Io → Eval W Redirected
unfolding open_file open_for_output duplicate Io.set
apply_target host input fd word tab = do
  file ← open_file host word reading
  pure (placed (λ slot. Io.set (or_fd fd 0) slot tab) file)
apply_target host output fd word tab = do
  protect ← gets (λ s. s.options.noclobber)
  file ← open_for_output host word protect
  pure (placed (λ slot. Io.set (or_fd fd 1) slot tab) file)
apply_target host clobber fd word tab = do
  file ← open_for_output host word false
  pure (placed (λ slot. Io.set (or_fd fd 1) slot tab) file)
apply_target host append fd word tab = do
  file ← open_file host word (record writing { append = true })
  pure (placed (λ slot. Io.set (or_fd fd 1) slot tab) file)
apply_target host read_write fd word tab = do
  file ← open_file host word (record writing { access = to_both })
  pure (placed (λ slot. Io.set (or_fd fd 0) slot tab) file)
apply_target host output_and_error fd word tab = do
  protect ← gets (λ s. s.options.noclobber)
  file ← open_for_output host word protect
  pure (placed (both tab) file)
apply_target host append_and_error fd word tab = do
  file ← open_file host word (record writing { append = true })
  pure (placed (both tab) file)
apply_target host dup_input fd word tab = pure (duplicate (or_fd fd 0) word tab)
apply_target host dup_output fd word tab = pure (duplicate (or_fd fd 1) word tab)
apply_target host here_string fd word tab = do
  file ← poll (host.memory_file (word ++ 0x0A ∷ []))
  pure (placed (λ slot. Io.set (or_fd fd 0) slot tab) file)

abbrev pub with_target :
    {W : Type 0} → Host W → RedirectOp → Option ℕ → Io → Option Bytes → Eval W Redirected
with_target host op fd tab none = pure expand_error
with_target host op fd tab (some word) = apply_target host op fd word tab

abbrev pub with_body : {W : Type 0} → Host W → Option ℕ → Io → Option Bytes → Eval W Redirected
with_body host fd tab none = pure expand_error
with_body host fd tab (some body) = do
  file ← poll (host.memory_file body)
  pure (placed (λ slot. Io.set (or_fd fd 0) slot tab) file)

-- `apply_one`
unfoldable pub apply_one : {W : Type 0} → Host W → Redirect → Io → Io → Eval W Redirected
unfolding apply_target Io.set
apply_one host (here_doc fd quoted body) io tab =
    call (host.expand_heredoc body io) >>= with_body host fd tab
apply_one host (target fd op word) io tab =
    call (host.expand_target word io) >>= with_target host op fd tab

-- The loop of `apply_redirects`.
abbrev pub with_next : {W : Type 0} → (Io → Eval W Redirected) → Redirected → Eval W Redirected
with_next others (table tab) = others tab
with_next others failed = pure failed
with_next others expand_error = pure expand_error

unfoldable pub apply_loop : {W : Type 0} → Host W → Redirects → Io → Io → Eval W Redirected
unfolding apply_one
apply_loop host no_redirects io tab = pure (table tab)
apply_loop host (redirects r rest) io tab =
    apply_one host r io tab >>= with_next (apply_loop host rest io)

-- `apply_redirects`
unfoldable pub apply_redirects : {W : Type 0} → Host W → Redirects → Io → Eval W Redirected
unfolding apply_loop
apply_redirects host rs io = apply_loop host rs io io
