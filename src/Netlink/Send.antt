-- ===== src/Netlink/Send.antt =====
-- `send_cmd`
pub mod Deliver
pub mod Total
pub mod Ends
use universe_native_linux_in.Common.{
  ℕ, zero, suc, ◌+◌, ◌<◌, Bool, true, false, not, List, ℤ, pos, negsuc, pos_part, is_positive,
  ltb_ℤ, length, drop, ◌==◌, if◌then◌else◌,
}
use universe_native_linux_in.Abi.{Abi}
use universe_native_linux_in.Machine.{
  Os, State, M, Run, returns, exits, faults, diverges, pure, diverge, checked, local_object,
  call_sendto, get_errno, ◌>>=◌,
}
use universe_native_linux_in.Machine.Memory.{read, read_bytes}
use universe_native_linux_in.Netlink.{msgtemplate_size}
use universe_native_linux_in.Netlink.Request.{fill_msg}

module _ {S : Type 0} (os : Os S) (a : Abi) where
  -- The test of the loop and its body, with what follows a body that does not return.
  unfoldable pub after_sendto : ℤ → List ℕ → (List ℕ → M S ℤ) → M S ℤ
  after_sendto r left again = do
    errno ← get_errno os
    if not (ltb_ℤ r (pos (length left)))
        then pure (pos 0)
        else if is_positive r
        then again (drop (pos_part r) left)
        else if not (errno == a.eagain)
        then pure (negsuc 0)
        else again left

  -- The loop of sendto. `left` is the buflen bytes from buf on; each round uses up one unit of fuel.
  unfoldable pub send_loop : ℕ → ℤ → List ℕ → M S ℤ
  unfolding after_sendto
  send_loop zero sd left = diverge
  send_loop (suc fuel) sd left = do
    r ← call_sendto os sd left
    after_sendto r left (send_loop fuel sd)

  unfoldable pub send_cmd : ℕ → ℤ → ℕ → ℕ → ℕ → ℕ → List ℕ → M S ℤ
  unfolding send_loop
  send_cmd fuel sd nlmsg_type nlmsg_pid genl_cmd nla_type bytes = do
    junk ← local_object os (msgtemplate_size a)
    msg ← checked (fill_msg a junk nlmsg_type nlmsg_pid genl_cmd nla_type bytes)
    buflen ← checked (read a msg a.nlmsg_len_at 4)
    buf ← checked (read_bytes msg 0 buflen)
    send_loop fuel sd buf
