-- ===== src/Original/Delays.antt =====
-- so-src/original/delays.c, the command-line tool: its sizes, and its copies of the netlink
-- functions. Its messages are shorter than those of so-src/get_taskstats.c.
pub mod Print
pub mod Options
pub mod Reply
pub mod Main
pub mod Ending
use universe_native_linux_in.Common.{
  ℕ, ◌+◌, ◌*◌, ◌%◌, ◌^◌, ◌-◌, Bool, true, false, List, [], ◌∷◌, ◌++◌, ℤ, pos, negsuc, length, take,
  patch, if◌then◌else◌,
}
use universe_native_linux_in.Abi.{Abi}
use universe_native_linux_in.Machine.{
  Os, State, M, Run, returns, exits, faults, diverges, Message, gets, modify, checked, local_object,
  call_recv, call_getpid, print_if, ◌>>=◌, ◌>>◌,
}
use universe_native_linux_in.Machine.Memory.{read, read_bytes}
use universe_native_linux_in.Taskstats.{taskstats_genl_name}
use universe_native_linux_in.Netlink.Socket
use universe_native_linux_in.Netlink.Request.{fill_msg}
use universe_native_linux_in.Netlink.Send.{send_loop}
use universe_native_linux_in.Netlink.Family.{ans_size, family_of_answer}

-- MAX_MSG_SIZE, MAX_CPUS
abbrev pub max_msg_size : ℕ
max_msg_size = 1024

abbrev pub max_cpus : ℕ
max_cpus = 32

-- sizeof (cpumask)
abbrev pub cpumask_size : ℕ
cpumask_size = 100 + 6 * max_cpus

-- The size of the local containerpath of `main`
abbrev pub containerpath_size : ℕ
containerpath_size = 1024

-- sizeof (struct msgtemplate)
abbrev pub msgtemplate_size : Abi → ℕ
msgtemplate_size a = a.sizeof_nlmsghdr + a.sizeof_genlmsghdr + max_msg_size

-- PRINTF
abbrev pub printf_dbg : {S : Type 0} → Message → M S (Unit {0})
printf_dbg m = do dbg ← gets (λ s. s.dbg); print_if dbg m

module _ {S : Type 0} (os : Os S) (a : Abi) where
  -- Its text is that of so-src/get_taskstats.c.
  unfoldable pub create_nl_socket : ℕ → M S ℤ
  unfolding Socket.create_nl_socket
  create_nl_socket protocol = Socket.create_nl_socket os protocol

  unfoldable pub send_cmd : ℕ → ℤ → ℕ → ℕ → ℕ → ℕ → List ℕ → M S ℤ
  send_cmd fuel sd nlmsg_type nlmsg_pid genl_cmd nla_type bytes = do
    junk ← local_object os (msgtemplate_size a)
    msg ← checked (fill_msg a junk nlmsg_type nlmsg_pid genl_cmd nla_type bytes)
    buflen ← checked (read a msg a.nlmsg_len_at 4)
    buf ← checked (read_bytes msg 0 buflen)
    send_loop os a fuel sd buf

  unfoldable pub get_family_id : ℕ → ℤ → M S ℕ
  get_family_id fuel sd = do
    junk ← local_object os (ans_size os a)
    modify (λ s. record s { name = patch 0 (taskstats_genl_name ++ (0 ∷ [])) s.name })
    name ← gets (λ s. s.name)
    pid ← call_getpid os
    _ ←
        send_cmd fuel sd a.genl_id_ctrl pid a.ctrl_cmd_getfamily a.ctrl_attr_family_name
          (take (length taskstats_genl_name + 1) name)
    (rep_len, bytes) ← call_recv os sd (ans_size os a)
    family_of_answer os a (patch 0 bytes junk) rep_len
