-- ===== src/Original/Delays/Reply.antt =====
-- The loop `do { … } while (loop)` in `main` of so-src/original/delays.c: a message is received, and
-- its attributes are printed and logged.
pub mod Rounds
pub mod Ends
pub mod Spins
use universe_native_linux_in.Common.{
  ℕ, zero, suc, ◌+◌, Bool, true, false, not, ◌||◌, List, ℤ, pos, is_negative, signed32, patch, ◌==◌,
  if◌then◌else◌,
}
use universe_native_linux_in.Abi.{Abi}
use universe_native_linux_in.Machine.{
  Os, State, M, Run, returns, exits, faults, diverges, Message, pure, diverge, gets, modify,
  checked, skip, print, print_if, call_recv, call_write, get_errno, ◌>>=◌, ◌>>◌,
}
use universe_native_linux_in.Machine.Memory.{read, read_bytes}
use universe_native_linux_in.Taskstats.{
  taskstats_type_pid, taskstats_type_tgid, taskstats_type_stats, taskstats_type_aggr_pid,
  taskstats_type_aggr_tgid,
}
use universe_native_linux_in.Taskstats.Layout.{Placed}
use universe_native_linux_in.Netlink.{genlmsg_data, genlmsg_payload, nla_data, nla_payload}
use universe_native_linux_in.Netlink.Socket.{is_nonzero}
use universe_native_linux_in.Reply.{Walk, goto_done, ended}
use universe_native_linux_in.Original.Loops.{nested_loop, attr_loop}
use universe_native_linux_in.Original.Delays.{msgtemplate_size, printf_dbg}
use universe_native_linux_in.Original.Delays.Print.{
  print_delayacct, task_context_switch_counts, print_cgroupstats, print_ioacct,
}
use universe_native_linux_in.Original.Delays.Options.{err}

-- The loops pass no value on.
abbrev pub Leaves : Type 0
Leaves = Walk (Unit {0})

-- fd is the log file, 0 for none.
module _ {S : Type 0} (os : Os S) (a : Abi) (taskstats : List Placed) (loop : Bool) (fd : ℤ) where
  module _ (msg : List ℕ) where
    -- `if (fd) { if (write(…) < 0) err(…); }`
    unfoldable pub log_attr : ℕ → M S (Unit {0})
    log_attr na =
        if is_nonzero fd
        then (do
          nla_len ← checked (read a msg (na + a.nla_len_at) 2)
          bytes ← checked (read_bytes msg (nla_data a na) nla_len)
          written ← call_write os fd bytes
          if is_negative written then err (pos 1) Message.write_failed else skip)
        else skip

    -- The case TASKSTATS_TYPE_STATS
    unfoldable pub stats_attr : ℕ → M S Leaves
    unfolding log_attr
    stats_attr na = do
      delays ← gets (λ s. s.print_delays)
      (if delays then print_delayacct a taskstats msg (nla_data a na) else skip)
      io ← gets (λ s. s.print_io_accounting)
      (if io then print_ioacct a taskstats msg (nla_data a na) else skip)
      counts ← gets (λ s. s.print_task_context_switch_counts)
      (if counts then task_context_switch_counts a taskstats msg (nla_data a na) else skip)
      log_attr na
      if not loop then pure (goto_done tt) else pure (ended tt)

    -- The switch on a nested attribute.
    unfoldable pub nested_attr : ℕ → Unit {0} → M S Leaves
    unfolding stats_attr
    nested_attr na u = do
      nla_type ← checked (read a msg (na + a.nla_type_at) 2)
      if nla_type == taskstats_type_pid
          then (do
            rtid ← checked (read a msg (nla_data a na) 4)
            print_delays ← gets (λ s. s.print_delays)
            print_if print_delays (Message.pid_line (signed32 rtid))
            pure (ended tt))
          else if nla_type == taskstats_type_tgid
          then (do
            rtid ← checked (read a msg (nla_data a na) 4)
            print_delays ← gets (λ s. s.print_delays)
            print_if print_delays (Message.tgid_line (signed32 rtid))
            pure (ended tt))
          else if nla_type == taskstats_type_stats
          then stats_attr na
          else print (Message.unknown_nested_type nla_type) >> pure (ended tt)

    -- The switch on an attribute of the message.
    unfoldable pub top_attr : ℕ → ℕ → ℕ → Unit {0} → M S Leaves
    unfolding nested_loop nested_attr
    top_attr fuel na nla_len u = do
      nla_type ← checked (read a msg (na + a.nla_type_at) 2)
      if nla_type == taskstats_type_aggr_tgid || nla_type == taskstats_type_aggr_pid
          then modify (λ s. record s { done = 0 })
            >> nested_loop a msg nested_attr fuel (nla_data a na) 0 (nla_payload a nla_len) tt
          else if nla_type == a.cgroupstats_type_cgroup_stats
          then print_cgroupstats a taskstats msg (nla_data a na) >> pure (ended tt)
          else print (Message.unknown_type nla_type) >> pure (ended tt)

    unfoldable pub walk : ℕ → ℕ → ℕ → ℤ → M S Leaves
    unfolding attr_loop top_attr
    walk fuel na len rep_len = attr_loop a msg top_attr fuel na len rep_len tt

    -- What is done with a message: rep_len is what recv returned.
    unfoldable pub handle_reply : ℕ → ℤ → M S Leaves
    handle_reply fuel rep_len = do
      nlmsg_type ← checked (read a msg a.nlmsg_type_at 2)
      nlmsg_len ← checked (read a msg a.nlmsg_len_at 4)
      if nlmsg_type == a.nlmsg_error || not (a.nlmsg_ok nlmsg_len rep_len)
          then (do
            error ← checked (read a msg (a.nlmsg_hdrlen + a.error_at) 4)
            print (Message.reply_failed (signed32 error))
            pure (goto_done tt))
          else (do
            printf_dbg (Message.header_sizes a.sizeof_nlmsghdr nlmsg_len rep_len)
            walk fuel (genlmsg_data a) 0 (genlmsg_payload a nlmsg_len))

  -- One round; `again` is what follows the test of the loop when it holds. `msg` keeps its bytes
  -- from round to round.
  unfoldable pub receive_round : ℕ → ℤ → List ℕ → (List ℕ → M S (Unit {0})) → M S (Unit {0})
  receive_round fuel nl_sd msg again = do
    (rep_len, bytes) ← call_recv os nl_sd (msgtemplate_size a)
    printf_dbg (Message.received_bytes rep_len)
    if is_negative rep_len
        then (do
          errno ← get_errno os
          print (Message.recv_failed errno)
          if loop then again msg else skip)
        else handle_reply (patch 0 bytes msg) fuel rep_len >>= elim [
          | goto_done u ↦ skip
          | ended u ↦ if loop then again (patch 0 bytes msg) else skip
        ]

  -- Each round uses up one unit of fuel; what is left bounds the loops in it.
  unfoldable pub receive : ℕ → ℤ → List ℕ → M S (Unit {0})
  unfolding receive_round
  receive zero nl_sd msg = diverge
  receive (suc fuel) nl_sd msg = receive_round fuel nl_sd msg (receive fuel nl_sd)
