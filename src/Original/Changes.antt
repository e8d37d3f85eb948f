-- ===== src/Original/Changes.antt =====
-- so-src/original/changes.c: the library before so-src/get_taskstats.c. It declares maskset,
-- containerset, fd and cfd and has no branch on them. Where a function has the text of the one in get_taskstats.c, it stands
-- here as that one.
use universe_native_linux_in.Common.{
  ℕ, ◌+◌, Bool, true, not, ◌||◌, ◌&&◌, List, ℤ, pos, is_negative, signed32, patch, ◌==◌,
  if◌then◌else◌,
}
use universe_native_linux_in.Abi.{Abi}
use universe_native_linux_in.Machine.{
  Os, M, Message, pure, gets, modify, checked, skip, print, print_if, local_object, call_close,
  call_recv, call_getpid, get_errno, ◌>>=◌, ◌>>◌,
}
use universe_native_linux_in.Machine.Memory.{read}
use universe_native_linux_in.Taskstats
use universe_native_linux_in.Taskstats.{
  taskstats_cmd_get, taskstats_type_pid, taskstats_type_tgid, taskstats_type_stats,
  taskstats_type_aggr_pid, taskstats_type_aggr_tgid,
}
use universe_native_linux_in.Netlink
use universe_native_linux_in.Netlink.Socket
use universe_native_linux_in.Netlink.Send
use universe_native_linux_in.Netlink.Family
use universe_native_linux_in.Reply
use universe_native_linux_in.Reply.{Walk, goto_done, ended}
use universe_native_linux_in.GetTaskstats
use universe_native_linux_in.GetTaskstats.Labels
use universe_native_linux_in.GetTaskstats.Labels.{Reported}
use universe_native_linux_in.GetTaskstats.{Selection, nothing_selected, selected}
use universe_native_linux_in.GetTaskstats.Version
use universe_native_linux_in.Original.Loops.{nested_loop, attr_loop}

-- The macros at the top, struct msgtemplate and PRINTF
abbrev pub genlmsg_data : Abi → ℕ
genlmsg_data = Netlink.genlmsg_data

abbrev pub genlmsg_payload : Abi → ℕ → ℤ
genlmsg_payload = Netlink.genlmsg_payload

abbrev pub nla_data : Abi → ℕ → ℕ
nla_data = Netlink.nla_data

abbrev pub nla_payload : Abi → ℕ → ℤ
nla_payload = Netlink.nla_payload

abbrev pub msgtemplate_size : Abi → ℕ
msgtemplate_size = Netlink.msgtemplate_size

abbrev pub printf_dbg : {S : Type 0} → Bool → Message → M S (Unit {0})
printf_dbg debug m = Labels.printf_dbg debug m

unfoldable pub select_task : ℕ → ℕ → Selection
unfolding GetTaskstats.select_task
select_task pid tgid = GetTaskstats.select_task pid tgid

module _ {S : Type 0} (os : Os S) (a : Abi) where
  unfoldable pub create_nl_socket : ℕ → M S ℤ
  unfolding Socket.create_nl_socket
  create_nl_socket protocol = Socket.create_nl_socket os protocol

  unfoldable pub send_cmd : ℕ → ℤ → ℕ → ℕ → ℕ → ℕ → List ℕ → M S ℤ
  unfolding Send.send_cmd
  send_cmd fuel sd nlmsg_type nlmsg_pid genl_cmd nla_type bytes =
      Send.send_cmd os a fuel sd nlmsg_type nlmsg_pid genl_cmd nla_type bytes

  unfoldable pub get_family_id : ℕ → ℤ → M S ℕ
  unfolding Family.get_family_id
  get_family_id fuel sd = Family.get_family_id os a fuel sd

  unfoldable pub get_tid : M S ℕ
  unfolding GetTaskstats.get_tid
  get_tid = GetTaskstats.get_tid os

  unfoldable pub get_pid : M S ℕ
  unfolding GetTaskstats.get_pid
  get_pid = GetTaskstats.get_pid os

unfoldable pub get_ts_size_bv : ℕ → ℕ
unfolding Taskstats.get_ts_size_bv
get_ts_size_bv version = Taskstats.get_ts_size_bv version

module _ {S : Type 0} (a : Abi) (debug : Bool) (msg : List ℕ) where
  unfoldable pub smart_copy_taskstats : ℕ → List ℕ → M S (List ℕ)
  unfolding Reply.smart_copy_taskstats
  smart_copy_taskstats t to = Reply.smart_copy_taskstats a debug msg t to

  -- The switch on a nested attribute. The ids are printed if the global print_delays is set too.
  unfoldable pub nested_attr : ℕ → List ℕ → M S (Walk (List ℕ))
  unfolding smart_copy_taskstats
  nested_attr na target = do
    nla_type ← checked (read a msg (na + a.nla_type_at) 2)
    if nla_type == taskstats_type_pid
        then (do
          rtid ← checked (read a msg (nla_data a na) 4)
          print_delays ← gets (λ s. s.print_delays)
          print_if (print_delays && debug) (Message.pid_line (signed32 rtid))
          pure (ended target))
        else if nla_type == taskstats_type_tgid
        then (do
          rtid ← checked (read a msg (nla_data a na) 4)
          print_delays ← gets (λ s. s.print_delays)
          print_if (print_delays && debug) (Message.tgid_line (signed32 rtid))
          pure (ended target))
        else if nla_type == taskstats_type_stats
        then (do
          modify (λ s. record s { done = 1 })
          copied ← smart_copy_taskstats (nla_data a na) target
          if not Reply.loop then pure (goto_done copied) else pure (ended copied))
        else print_if debug (Message.unknown_nested nla_type) >> pure (ended target)

  -- The switch on an attribute of the message.
  unfoldable pub top_attr : ℕ → ℕ → ℕ → List ℕ → M S (Walk (List ℕ))
  unfolding nested_loop nested_attr
  top_attr fuel na nla_len target = do
    nla_type ← checked (read a msg (na + a.nla_type_at) 2)
    if nla_type == taskstats_type_aggr_tgid || nla_type == taskstats_type_aggr_pid
        then modify (λ s. record s { done = 0 })
          >> nested_loop a msg nested_attr fuel (nla_data a na) 0 (nla_payload a nla_len) target
        else if nla_type == a.cgroupstats_type_cgroup_stats
        then pure (ended target)
        else print (Message.unknown_type nla_type) >> pure (ended target)

  unfoldable pub walk : ℕ → ℕ → ℕ → ℤ → List ℕ → M S (Walk (List ℕ))
  unfolding attr_loop top_attr
  walk fuel na len rep_len target = attr_loop a msg top_attr fuel na len rep_len target

module _ {S : Type 0} (os : Os S) (a : Abi) (debug : Bool) where
  -- The labels `done` and `err`.
  unfoldable pub finish : ℤ → Reported → M S Reported
  finish nl_sd out = call_close os nl_sd >> pure out

  unfoldable pub handle_reply : ℕ → List ℕ → ℤ → List ℕ → M S Reported
  unfolding walk
  handle_reply fuel msg rep_len target = do
    nlmsg_type ← checked (read a msg a.nlmsg_type_at 2)
    nlmsg_len ← checked (read a msg a.nlmsg_len_at 4)
    if nlmsg_type == a.nlmsg_error || not (a.nlmsg_ok nlmsg_len rep_len)
        then (do
          _ ←
              (if debug
                then (do
                  error ← checked (read a msg (a.nlmsg_hdrlen + a.error_at) 4)
                  print (Message.fatal_reply (signed32 error)))
                else skip)
          pure (8, target))
        else (do
          printf_dbg debug (Message.header_sizes a.sizeof_nlmsghdr nlmsg_len rep_len)
          walk a debug msg fuel (genlmsg_data a) 0 (genlmsg_payload a nlmsg_len) target
              >>= elim [ goto_done copied ↦ pure (0, copied) | ended target' ↦ pure (0, target') ])

  -- The body of `do { … } while (loop)`, which runs once.
  unfoldable pub receive : ℕ → ℤ → List ℕ → List ℕ → M S Reported
  unfolding handle_reply
  receive fuel nl_sd junk target = do
    (rep_len, bytes) ← call_recv os nl_sd (msgtemplate_size a)
    printf_dbg debug (Message.received_bytes rep_len)
    if is_negative rep_len
        then (do
          errno ← get_errno os
          print_if debug (Message.nonfatal_reply errno)
          pure (0, target))
        else handle_reply fuel (patch 0 bytes junk) rep_len target

  -- `if (tid)` and the loop behind it, which is there without a task too.
  unfoldable pub query : ℕ → ℤ → ℕ → ℕ → ℕ → ℕ → List ℕ → List ℕ → M S Reported
  unfolding finish receive send_cmd
  query fuel nl_sd id mypid cmd_type tid junk target =
      if tid == 0 then receive fuel nl_sd junk target >>= finish nl_sd else (do
        rc ← send_cmd os a fuel nl_sd id mypid taskstats_cmd_get cmd_type (a.order.put 4 tid)
        printf_dbg debug (Message.sent_pid_tgid rc)
        if is_negative rc
            then print_if debug Message.send_failed >> finish nl_sd (4, target)
            else receive fuel nl_sd junk target >>= finish nl_sd)

  unfoldable pub talk : ℕ → ℕ → ℕ → List ℕ → List ℕ → M S Reported
  unfolding query create_nl_socket get_family_id
  talk fuel cmd_type tid junk target = do
    nl_sd ← create_nl_socket os a a.netlink_generic
    if is_negative nl_sd
        then print_if debug Message.socket_failed >> finish nl_sd (2, target)
        else (do
          mypid ← call_getpid os
          id ← get_family_id os a fuel nl_sd
          if id == 0
              then (do
                errno ← get_errno os
                print_if debug (Message.family_failed errno)
                finish nl_sd (3, target))
              else (do
                printf_dbg debug (Message.family_id id)
                query fuel nl_sd id mypid cmd_type tid junk target))

  unfoldable pub get_taskstats : ℕ → ℕ → ℕ → List ℕ → ℤ → M S Reported
  unfolding talk select_task
  get_taskstats fuel pid tgid target target_length = do
    modify (λ s. if debug then record s { dbg = true } else s)
    junk ← local_object os (msgtemplate_size a)
    elim (select_task pid tgid) [
      | nothing_selected ↦ finish (ℤ.negsuc 0) (1, target)
      | selected cmd_type tid ↦ talk fuel cmd_type tid junk target
    ]

  unfoldable pub get_taskstats_version : ℕ → M S ℕ
  unfolding get_taskstats Version.pack_version
  get_taskstats_version fuel = do
    t ← Version.call_malloc os a 1024
    pid ← call_getpid os
    (is_ok, t') ← get_taskstats fuel pid 0 t (pos 1024)
    ret ← (if is_ok == 0 then checked (read a t' 0 2) else pure 0)
    Version.call_free os a
    pure (Version.pack_version is_ok ret)
