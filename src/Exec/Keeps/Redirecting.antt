-- ===== src/Exec/Keeps/Redirecting.antt =====
-- The counters through redirections.
use Prim.Native.Nat.{bit_and}
use oh_my_shell.Base.{
  ℕ, ◌-◌, Bytes, Bool, true, false, ◌&&◌, Option, none, some, [], ◌∷◌, ◌++◌, if◌then◌else◌,
}
use oh_my_shell.Io
use oh_my_shell.Io.{Slot, Io}
use oh_my_shell.Tree.{
  RedirectOp, input, output, append, read_write, clobber, dup_input, dup_output, output_and_error,
  append_and_error, here_string, Redirect, target, here_doc, Redirects, no_redirects, redirects,
}
use oh_my_shell.Exec.{
  Host, Redirected, table, failed, expand_error, to_both, Flags, Opened, opened, exists,
  open_failed, Eval, pure, ◌>>=◌,
}
use oh_my_shell.Exec.Redirection.{
  reading, writing, open_path, masked, create_exclusive, slot_of, or_existing, has_mask, open_file,
  or_special, open_for_output, or_fd, placed, duplicate, both, apply_target, with_target, with_body,
  apply_one, with_next, apply_loop, apply_redirects,
}
use oh_my_shell.Exec.Keeps.{Safe, HostKeeps}
use oh_my_shell.Exec.Keeps.Combine.{bind-Safe, pure-Safe, gets-Safe, call-Safe, poll-Safe, if-Safe}

module _ {W : Type 0} (host : Host W) where
  open_path-Safe : (flags : Flags) (name : Bytes) → Safe (open_path host flags name)
  open_path-Safe flags name =
      bind-Safe (gets-Safe (λ s. s.cwd_override)) (λ dir. poll-Safe (host.open_at flags dir name))

  masked-Safe : (mask : Option ℕ) (r : Opened) → Safe (masked host mask r)
  masked-Safe (some mask) (opened slot) =
      bind-Safe (poll-Safe (host.fchmod slot (438 - bit_and 438 mask)))
        (λ done. pure-Safe (if done then opened slot else open_failed))
  masked-Safe none (opened slot) = pure-Safe (opened slot)
  masked-Safe mask exists = pure-Safe exists
  masked-Safe mask open_failed = pure-Safe open_failed

  create_exclusive-Safe : (name : Bytes) (flags : Flags) → Safe (create_exclusive host name flags)
  unfolding create_exclusive
  create_exclusive-Safe name flags =
      bind-Safe (open_path-Safe (record flags { create = true; exclusive = true }) name)
        (λ made. bind-Safe (gets-Safe (λ s. s.umask_override)) (λ mask. masked-Safe mask made))

  or_existing-Safe :
      (name : Bytes) (flags : Flags) (r : Opened) → Safe (or_existing host name flags r)
  or_existing-Safe name flags (opened slot) = pure-Safe (some slot)
  or_existing-Safe name flags open_failed = pure-Safe none
  or_existing-Safe name flags exists =
      bind-Safe (open_path-Safe (record flags { create = false }) name)
        (λ made. pure-Safe (slot_of made))

  open_file-Safe : (name : Bytes) (flags : Flags) → Safe (open_file host name flags)
  unfolding open_file
  open_file-Safe name flags = bind-Safe (gets-Safe (λ s. s.umask_override)) (λ mask.
      if-Safe (has_mask mask && flags.create)
        (bind-Safe (create_exclusive-Safe name flags) (or_existing-Safe name flags))
        (bind-Safe (open_path-Safe flags name) (λ made. pure-Safe (slot_of made))))

  or_special-Safe : (name : Bytes) (r : Opened) → Safe (or_special host name r)
  or_special-Safe name (opened slot) = pure-Safe (some slot)
  or_special-Safe name open_failed = pure-Safe none
  or_special-Safe name exists =
      bind-Safe (gets-Safe (host.is_file name))
        (λ regular. if-Safe regular (pure-Safe none) (open_file-Safe name writing))

  open_for_output-Safe : (name : Bytes) (protect : Bool) → Safe (open_for_output host name protect)
  unfolding open_for_output
  open_for_output-Safe name false = open_file-Safe name (record writing { truncate = true })
  open_for_output-Safe name true =
      bind-Safe (create_exclusive-Safe name writing) (or_special-Safe name)

  placed-Safe :
      (put : Slot → Io) {m : Eval W (Option Slot)}
      → Safe m
      → Safe (m >>= λ file. pure (placed put file))
  placed-Safe put h = bind-Safe h (λ file. pure-Safe (placed put file))

  apply_target-Safe :
      (op : RedirectOp) (fd : Option ℕ) (word : Bytes) (tab : Io)
      → Safe (apply_target host op fd word tab)
  unfolding apply_target
  apply_target-Safe input fd word tab =
      placed-Safe (λ slot. Io.set (or_fd fd 0) slot tab) (open_file-Safe word reading)
  apply_target-Safe output fd word tab =
      bind-Safe (gets-Safe (λ s. s.options.noclobber)) (λ protect.
        placed-Safe (λ slot. Io.set (or_fd fd 1) slot tab) (open_for_output-Safe word protect))
  apply_target-Safe clobber fd word tab =
      placed-Safe (λ slot. Io.set (or_fd fd 1) slot tab) (open_for_output-Safe word false)
  apply_target-Safe append fd word tab =
      placed-Safe (λ slot. Io.set (or_fd fd 1) slot tab)
        (open_file-Safe word (record writing { append = true }))
  apply_target-Safe read_write fd word tab =
      placed-Safe (λ slot. Io.set (or_fd fd 0) slot tab)
        (open_file-Safe word (record writing { access = to_both }))
  apply_target-Safe output_and_error fd word tab =
      bind-Safe (gets-Safe (λ s. s.options.noclobber))
        (λ protect. placed-Safe (both tab) (open_for_output-Safe word protect))
  apply_target-Safe append_and_error fd word tab =
      placed-Safe (both tab) (open_file-Safe word (record writing { append = true }))
  apply_target-Safe dup_input fd word tab = pure-Safe (duplicate (or_fd fd 0) word tab)
  apply_target-Safe dup_output fd word tab = pure-Safe (duplicate (or_fd fd 1) word tab)
  apply_target-Safe here_string fd word tab =
      placed-Safe (λ slot. Io.set (or_fd fd 0) slot tab)
        (poll-Safe (host.memory_file (word ++ 0x0A ∷ [])))

  module _ (keeps : HostKeeps host) where
    apply_one-Safe : (r : Redirect) (io tab : Io) → Safe (apply_one host r io tab)
    unfolding apply_one
    apply_one-Safe (here_doc fd quoted body) io tab =
        bind-Safe (call-Safe (host.expand_heredoc body io) (keeps.expand_heredoc body io)) bodied
      where
        bodied : (o : Option Bytes) → Safe (with_body host fd tab o)
        bodied none = pure-Safe expand_error
        bodied (some text) =
            placed-Safe (λ slot. Io.set (or_fd fd 0) slot tab) (poll-Safe (host.memory_file text))
    apply_one-Safe (target fd op word) io tab =
        bind-Safe (call-Safe (host.expand_target word io) (keeps.expand_target word io)) targeted
      where
        targeted : (o : Option Bytes) → Safe (with_target host op fd tab o)
        targeted none = pure-Safe expand_error
        targeted (some text) = apply_target-Safe op fd text tab

    next-Safe :
        {others : Io → Eval W Redirected} (r : Redirected)
        → ((tab : Io) → Safe (others tab))
        → Safe (with_next others r)
    next-Safe (table tab) h = h tab
    next-Safe failed h = pure-Safe failed
    next-Safe expand_error h = pure-Safe expand_error

    apply_loop-Safe : (rs : Redirects) (io tab : Io) → Safe (apply_loop host rs io tab)
    unfolding apply_loop
    apply_loop-Safe no_redirects io tab = pure-Safe (table tab)
    apply_loop-Safe (redirects r rest) io tab =
        bind-Safe (apply_one-Safe r io tab) (λ made. next-Safe made (apply_loop-Safe rest io))

    pub apply_redirects-Safe : (rs : Redirects) (io : Io) → Safe (apply_redirects host rs io)
    unfolding apply_redirects
    apply_redirects-Safe rs io = apply_loop-Safe rs io io
