-- ===== src/Netlink/Socket.antt =====
-- `create_nl_socket`
pub mod Leak
use universe_native_linux_in.Common.{
  ℕ, zero, suc, Bool, true, false, ℤ, pos, negsuc, is_negative, if◌then◌else◌,
}
use universe_native_linux_in.Machine.{
  Os, State, M, Run, returns, exits, faults, diverges, pure, gets, print, rcvbuf_failed,
  call_socket, call_setsockopt, call_bind, call_close, ◌>>=◌, ◌>>◌,
}

-- `if (rcvbufsz)`
abbrev pub is_nonzero : ℤ → Bool
is_nonzero (pos zero) = false
is_nonzero _ = true

module _ {S : Type 0} (os : Os S) where
  -- The call of setsockopt, where a receive buffer size is set: whether it went well.
  unfoldable pub set_rcvbuf : ℤ → M S Bool
  set_rcvbuf fd = do
    n ← gets (λ s. s.rcvbufsz)
    if is_nonzero n
        then (do
          r ← call_setsockopt os fd n
          if is_negative r then print (rcvbuf_failed n) >> pure false else pure true)
        else pure true

  -- -1 is `negsuc 0`.
  unfoldable pub create_nl_socket : ℕ → M S ℤ
  unfolding set_rcvbuf
  create_nl_socket protocol = do
    fd ← call_socket os protocol
    if is_negative fd then pure (negsuc 0) else (do
      set ← set_rcvbuf fd
      if set
          then (do
            r ← call_bind os fd
            if is_negative r then call_close os fd >> pure (negsuc 0) else pure fd)
          else pure (negsuc 0))
