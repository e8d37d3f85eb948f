-- ===== src/GetTaskstats.antt =====
-- `get_taskstats`, `get_taskstats_version`, `get_tid` and `get_pid` of so-src/get_taskstats.c.
--
-- Labels has the parts at the labels `done` and `err`, and those on maskset and containerset. The
-- arguments argPid and argTid are the bit patterns of their 32-bit values, which are only tested against 0 and stored; debug is its test against 0. The argument
-- targetTaskStatLength is taken and not used, as in the code.
pub mod Labels
pub mod Selected
pub mod Version
pub mod Traces
pub mod Outcome
pub mod Replies
pub mod Kernel
pub mod Asking
pub mod Dialog
pub mod Serve
pub mod Unanswered
pub mod Refused
pub mod Ends
pub mod Spins
use universe_native_linux_in.Common.{
  ℕ, Bool, true, false, not, ◌||◌, ◌&&◌, none, some, List, ℤ, is_negative, signed32, patch, ◌==◌,
  ◌+◌, if◌then◌else◌,
}
use universe_native_linux_in.Abi.{Abi}
use universe_native_linux_in.Machine
use universe_native_linux_in.Machine.{
  Os, State, M, Run, returns, exits, faults, diverges, Message, pure, gets, modify, checked, skip,
  print, print_if, local_object, call_close, call_recv, call_getpid, call_gettid, get_errno, ◌>>=◌,
  ◌>>◌,
}
use universe_native_linux_in.Machine.Memory.{read}
use universe_native_linux_in.Taskstats.{
  taskstats_cmd_get, taskstats_cmd_attr_pid, taskstats_cmd_attr_tgid,
}
use universe_native_linux_in.Netlink.{msgtemplate_size, genlmsg_data, genlmsg_payload}
use universe_native_linux_in.Netlink.Socket.{create_nl_socket}
use universe_native_linux_in.Netlink.Send.{send_cmd}
use universe_native_linux_in.Netlink.Family.{get_family_id}
use universe_native_linux_in.GetTaskstats.Labels.{
  Reported, Sender, printf_dbg, maskset, containerset, no_cfd, leave, finish, register_cpumask,
  container_cmd,
}
use universe_native_linux_in.Reply.{Walk, goto_done, ended, walk}

-- cmd_type and tid, or none of them, where the code goes to `done` with returnError 1.
pub data Selection : Type 0 where
  selected : ℕ → ℕ → Selection
  nothing_selected : Selection

unfoldable pub select_task : ℕ → ℕ → Selection
select_task pid tgid =
    if not (pid == 0)
    then selected taskstats_cmd_attr_pid pid
    else if not (tgid == 0)
    then selected taskstats_cmd_attr_tgid tgid
    else nothing_selected

module _ {S : Type 0} (os : Os S) (a : Abi) (debug : Bool) where
  -- A reply in msg: rep_len is what recv returned.
  unfoldable pub handle_reply : ℕ → List ℕ → ℤ → List ℕ → M S Reported
  handle_reply fuel msg rep_len target = do
    nlmsg_type ← checked (read a msg a.nlmsg_type_at 2)
    nlmsg_len ← checked (read a msg a.nlmsg_len_at 4)
    if nlmsg_type == a.nlmsg_error || not (a.nlmsg_ok nlmsg_len rep_len)
        then (do
          _ ←
              (if debug
                then (do
                  error ← checked (read a msg (a.nlmsg_hdrlen + a.error_at) 4)
                  print (Message.fatal_reply (signed32 error)))
                else skip)
          pure (8, target))
        else (do
          printf_dbg debug (Message.header_sizes a.sizeof_nlmsghdr nlmsg_len rep_len)
          walk a debug msg fuel (genlmsg_data a) 0 (genlmsg_payload a nlmsg_len) target
              >>= elim [ goto_done copied ↦ pure (0, copied) | ended target' ↦ pure (0, target') ])

  -- The body of `do { … } while (loop)`. Since loop is 0 it runs once, and `continue`, which goes to
  -- the condition, leaves the loop.
  unfoldable pub receive : ℕ → ℤ → List ℕ → List ℕ → M S Reported
  unfolding handle_reply
  receive fuel nl_sd junk target = do
    (rep_len, bytes) ← call_recv os nl_sd (msgtemplate_size a)
    printf_dbg debug (Message.received_bytes rep_len)
    if is_negative rep_len
        then (do
          errno ← get_errno os
          print_if debug (Message.nonfatal_reply errno)
          pure (0, target))
        else handle_reply fuel (patch 0 bytes junk) rep_len target

  -- `if (tid) { … }`, and what follows it.
  unfoldable pub task_cmd : ℕ → ℤ → ℕ → ℕ → ℕ → ℕ → List ℕ → M S Reported → M S Reported
  unfolding finish
  task_cmd fuel nl_sd id mypid cmd_type tid target next =
      if not (tid == 0)
      then (do
        rc ← send_cmd os a fuel nl_sd id mypid taskstats_cmd_get cmd_type (a.order.put 4 tid)
        printf_dbg debug (Message.sent_pid_tgid rc)
        if is_negative rc
            then print_if debug Message.send_failed
              >> finish os a debug fuel (some (id, mypid)) nl_sd no_cfd (4, target)
            else next)
      else next

  -- The requests and the reply.
  unfoldable pub query : ℕ → ℤ → ℕ → ℕ → ℕ → ℕ → List ℕ → List ℕ → M S Reported
  unfolding finish receive register_cpumask task_cmd container_cmd leave
  query fuel nl_sd id mypid cmd_type tid junk target =
      let sender : Sender = some (id, mypid) in
      register_cpumask os a debug fuel nl_sd sender target (
        if not (tid == 0) && containerset
        then print_if debug Message.not_both >> leave os a debug nl_sd no_cfd (0, target)
        else task_cmd fuel nl_sd id mypid cmd_type tid target (
            container_cmd os a debug fuel nl_sd id mypid target λ cfd.
              if not maskset && tid == 0 && not containerset
              then leave os a debug nl_sd cfd (7, target)
              else receive fuel nl_sd junk target >>= finish os a debug fuel sender nl_sd cfd))

  -- From the socket on.
  unfoldable pub talk : ℕ → ℕ → ℕ → List ℕ → List ℕ → M S Reported
  unfolding query finish leave
  talk fuel cmd_type tid junk target = do
    nl_sd ← create_nl_socket os a.netlink_generic
    if is_negative nl_sd
        then print_if debug Message.socket_failed
          >> finish os a debug fuel none nl_sd no_cfd (2, target)
        else (do
          mypid ← call_getpid os
          id ← get_family_id os a fuel nl_sd
          if id == 0
              then (do
                errno ← get_errno os
                print_if debug (Message.family_failed errno)
                leave os a debug nl_sd no_cfd (3, target))
              else (do
                printf_dbg debug (Message.family_id id)
                query fuel nl_sd id mypid cmd_type tid junk target))

  -- `fuel` bounds the rounds of each loop below. The integer before `debug` is not used.
  unfoldable pub get_taskstats : ℕ → ℕ → ℕ → List ℕ → ℤ → M S Reported
  unfolding talk select_task finish
  get_taskstats fuel pid tgid target target_length = do
    modify (λ s. if debug then record s { dbg = true } else s)
    junk ← local_object os (msgtemplate_size a)
    elim (select_task pid tgid) [
      | nothing_selected ↦ finish os a debug fuel none (ℤ.negsuc 0) no_cfd (1, target)
      | selected cmd_type tid ↦ talk fuel cmd_type tid junk target
    ]

-- `get_tid` and `get_pid`
module _ {S : Type 0} (os : Os S) where
  unfoldable pub get_tid : M S ℕ
  get_tid = call_gettid os

  unfoldable pub get_pid : M S ℕ
  get_pid = call_getpid os
