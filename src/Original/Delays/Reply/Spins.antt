-- ===== src/Original/Delays/Reply/Spins.antt =====
-- A message over which the receiving loop of so-src/original/delays.c does not end.
use native.Mathlib.Nat.{add-zero}
use universe_native_linux_in.Common.{
  ℕ, zero, suc, ◌+◌, ◌<◌, ◌≡◌, ◌≢◌, refl, Bool, true, false, some, List, ℤ, pos, is_negative, ltb_ℤ,
  patch, arith,
}
use universe_native_linux_in.Abi.{Abi, IsLinux}
use universe_native_linux_in.Machine.{
  Os, State, Message, returns, diverges, note, printed, received, ◌>>=◌,
}
use universe_native_linux_in.Machine.Memory.{read}
use universe_native_linux_in.Taskstats.{taskstats_type_aggr_tgid}
use universe_native_linux_in.Taskstats.Layout.{Placed}
use universe_native_linux_in.Netlink.{genlmsg_data, genlmsg_payload}
use universe_native_linux_in.Reply.{ended}
use universe_native_linux_in.Reply.Steps.{say_if}
use universe_native_linux_in.GetTaskstats.Spins.{IsStuck}
use universe_native_linux_in.Original.Loops.{attr_loop, attr_round}
use universe_native_linux_in.Original.Delays.{msgtemplate_size}
use universe_native_linux_in.Original.Delays.Reply.{
  top_attr, walk, handle_reply, receive_round, receive,
}

module _ {S : Type 0} (os : Os S) (a : Abi) (law : IsLinux a) (taskstats : List Placed)
    (loop : Bool) (fd : ℤ) where
  skipped :
      (msg : List ℕ) (fuel na nla_len nla_type : ℕ) (s : State S)
      → read a msg (na + a.nla_type_at) 2 ≡ some nla_type
      → taskstats_type_aggr_tgid < nla_type
      → nla_type ≢ a.cgroupstats_type_cgroup_stats
      → top_attr os a taskstats loop fd msg fuel na nla_len tt s
        ≡ returns (ended tt) (note (printed (Message.unknown_type nla_type)) s)
  unfolding top_attr ◌>>=◌
  skipped msg fuel na nla_len nla_type s ty other named = rw ty (ground arith)

  walk_spins :
      (msg : List ℕ) (fuel nla_type : ℕ) (rep_len : ℤ) (s : State S)
      → ltb_ℤ (pos 0) rep_len ≡ true
      → read a msg (genlmsg_data a + a.nla_len_at) 2 ≡ some 0
      → read a msg (genlmsg_data a + a.nla_type_at) 2 ≡ some nla_type
      → taskstats_type_aggr_tgid < nla_type
      → nla_type ≢ a.cgroupstats_type_cgroup_stats
      → walk os a taskstats loop fd msg fuel (genlmsg_data a) 0 rep_len s ≡ diverges
  unfolding walk attr_loop attr_round ◌>>=◌
  walk_spins msg zero nla_type rep_len s inside l ty other named = refl
  walk_spins msg (suc fuel) nla_type rep_len s inside l ty other named =
      let zero_step : 0 + a.nla_align 0 ≡ 0 = omega (arith, law.nla_align 0) in
      rw
        (
          inside,
          l,
          skipped msg fuel (genlmsg_data a) 0 nla_type s ty other named,
          zero_step,
          add-zero,
        )
        (walk_spins msg fuel nla_type rep_len (note (printed (Message.unknown_type nla_type)) s)
          inside l ty other named)

  handle_reply_spins :
      (msg : List ℕ) (fuel : ℕ) (rep_len : ℤ) (s : State S) (nlmsg_type nlmsg_len nla_type : ℕ)
      → IsStuck a msg rep_len nlmsg_type nlmsg_len nla_type
      → nla_type ≢ a.cgroupstats_type_cgroup_stats
      → handle_reply os a taskstats loop fd msg fuel rep_len s ≡ diverges
  unfolding handle_reply ◌>>=◌
  handle_reply_spins msg fuel rep_len s nlmsg_type nlmsg_len nla_type h named =
      let s' : State S =
        say_if s.dbg (Message.header_sizes a.sizeof_nlmsghdr nlmsg_len rep_len) s in
      let spins =
        walk_spins msg fuel nla_type (genlmsg_payload a nlmsg_len) s' h.has_attributes h.empty
          h.attr_type h.unknown named in
      let good : nlmsg_type ≢ a.nlmsg_error = h.no_error in
      rw (h.type_is, h.len_is, h.ok) (ground (arith, spins))

  pub receive_spins :
      (fuel : ℕ) (nl_sd : ℤ) (msg : List ℕ) (s : State S) (nlmsg_type nlmsg_len nla_type : ℕ)
      → is_negative (os.recv nl_sd (msgtemplate_size a) s.os).0 ≡ false
      → IsStuck a
          (patch 0 (os.recv nl_sd (msgtemplate_size a) s.os).1 msg)
          (os.recv nl_sd (msgtemplate_size a) s.os).0
          nlmsg_type
          nlmsg_len
          nla_type
      → nla_type ≢ a.cgroupstats_type_cgroup_stats
      → receive os a taskstats loop fd fuel nl_sd msg s ≡ diverges
  unfolding receive receive_round ◌>>=◌
  receive_spins zero nl_sd msg s nlmsg_type nlmsg_len nla_type came h named = refl
  receive_spins (suc fuel) nl_sd msg s nlmsg_type nlmsg_len nla_type came h named =
      let s' : State S =
        say_if s.dbg (Message.received_bytes (os.recv nl_sd (msgtemplate_size a) s.os).0) (
          note
            (received nl_sd (os.recv nl_sd (msgtemplate_size a) s.os).0
              (os.recv nl_sd (msgtemplate_size a) s.os).1)
            (record s { os = (os.recv nl_sd (msgtemplate_size a) s.os).2 })) in
      let spins = handle_reply_spins _ fuel _ s' nlmsg_type nlmsg_len nla_type h named in
      rw came (ground (arith, spins))
