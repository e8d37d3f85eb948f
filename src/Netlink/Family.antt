-- ===== src/Netlink/Family.antt =====
-- `get_family_id`
pub mod Answer
use universe_native_linux_in.Common.{
  ℕ, zero, suc, ◌+◌, ◌<◌, Bool, true, false, not, ◌||◌, List, [], ◌∷◌, ◌++◌, ℤ, pos, is_negative,
  length, take, patch, ◌==◌, if◌then◌else◌,
}
use universe_native_linux_in.Abi.{Abi}
use universe_native_linux_in.Machine.{
  Os, State, M, Run, returns, exits, faults, diverges, pure, modify, gets, checked, local_object,
  call_recv, call_getpid, ◌>>=◌, ◌>>◌,
}
use universe_native_linux_in.Machine.Memory.{read}
use universe_native_linux_in.Taskstats.{taskstats_genl_name}
use universe_native_linux_in.Netlink.{genlmsg_data, nla_data}
use universe_native_linux_in.Netlink.Send.{send_cmd}

module _ {S : Type 0} (os : Os S) (a : Abi) where
  -- sizeof (ans)
  abbrev pub ans_size : ℕ
  ans_size = a.sizeof_nlmsghdr + a.sizeof_genlmsghdr + 256

  -- What follows recv: the answer as it lies in memory, and rep_len.
  unfoldable pub family_of_answer : List ℕ → ℤ → M S ℕ
  family_of_answer ans rep_len = do
    nlmsg_type ← checked (read a ans a.nlmsg_type_at 2)
    nlmsg_len ← checked (read a ans a.nlmsg_len_at 4)
    if nlmsg_type == a.nlmsg_error || is_negative rep_len || not (a.nlmsg_ok nlmsg_len rep_len)
        then pure 0
        else do
          nla_len ← checked (read a ans (genlmsg_data a + a.nla_len_at) 2)
          let na = genlmsg_data a + a.nla_align nla_len
          nla_type ← checked (read a ans (na + a.nla_type_at) 2)
          if nla_type == a.ctrl_attr_family_id
              then checked (read a ans (nla_data a na) 2)
              else pure 0

  unfoldable pub get_family_id : ℕ → ℤ → M S ℕ
  unfolding family_of_answer
  get_family_id fuel sd = do
    junk ← local_object os (ans_size)
    modify (λ s. record s { name = patch 0 (taskstats_genl_name ++ (0 ∷ [])) s.name })
    name ← gets (λ s. s.name)
    pid ← call_getpid os
    _ ←
        send_cmd os a fuel sd a.genl_id_ctrl pid a.ctrl_cmd_getfamily a.ctrl_attr_family_name
          (take (length taskstats_genl_name + 1) name)
    (rep_len, bytes) ← call_recv os sd (ans_size)
    family_of_answer (patch 0 bytes junk) rep_len
