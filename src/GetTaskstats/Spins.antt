-- ===== src/GetTaskstats/Spins.antt =====
-- A reply over which `get_taskstats` does not end.
use universe_native_linux_in.Common.{
  ℕ, ◌+◌, ◌<◌, ◌≡◌, ◌≢◌, Bool, true, false, ◌||◌, some, List, ℤ, pos, is_negative, ltb_ℤ, patch,
  arith,
}
use universe_native_linux_in.Abi.{Abi, IsLinux}
use universe_native_linux_in.Machine.{
  Os, State, diverges, note, received, received_bytes, header_sizes, ◌>>=◌,
}
use universe_native_linux_in.Machine.Memory.{read}
use universe_native_linux_in.Taskstats.{taskstats_type_aggr_tgid}
use universe_native_linux_in.Netlink.{msgtemplate_size, genlmsg_data, genlmsg_payload}
use universe_native_linux_in.Reply.Steps.{say_if}
use universe_native_linux_in.Reply.Malformed.{walk_spins}
use universe_native_linux_in.GetTaskstats.{receive, handle_reply}

-- A message that passes the tests of `get_taskstats`, and whose first attribute is of an unknown
-- type and has nla_len 0.
pub record IsStuck (a : Abi) (msg : List ℕ) (rep_len : ℤ) (nlmsg_type nlmsg_len nla_type : ℕ)
    : Type 0 where
  pub type_is : read a msg a.nlmsg_type_at 2 ≡ some nlmsg_type
  pub len_is : read a msg a.nlmsg_len_at 4 ≡ some nlmsg_len
  pub no_error : nlmsg_type ≢ a.nlmsg_error
  pub ok : a.nlmsg_ok nlmsg_len rep_len ≡ true
  pub has_attributes : ltb_ℤ (pos 0) (genlmsg_payload a nlmsg_len) ≡ true
  pub empty : read a msg (genlmsg_data a + a.nla_len_at) 2 ≡ some 0
  pub attr_type : read a msg (genlmsg_data a + a.nla_type_at) 2 ≡ some nla_type
  pub unknown : taskstats_type_aggr_tgid < nla_type

module _ {S : Type 0} (os : Os S) (a : Abi) (law : IsLinux a) (debug : Bool) where
  handle_reply_spins :
      (fuel : ℕ) (msg : List ℕ) (rep_len : ℤ) (target : List ℕ) (s : State S)
      (nlmsg_type nlmsg_len nla_type : ℕ)
      → IsStuck a msg rep_len nlmsg_type nlmsg_len nla_type
      → handle_reply os a debug fuel msg rep_len target s ≡ diverges
  unfolding handle_reply ◌>>=◌
  handle_reply_spins fuel msg rep_len target s nlmsg_type nlmsg_len nla_type h =
      let s' : State S =
        say_if (s.dbg || debug) (header_sizes a.sizeof_nlmsghdr nlmsg_len rep_len) s in
      let spins =
        walk_spins a law debug msg fuel nla_type (genlmsg_payload a nlmsg_len) target s'
          h.has_attributes h.empty h.attr_type h.unknown in
      let good : nlmsg_type ≢ a.nlmsg_error = h.no_error in
      rw (h.type_is, h.len_is, h.ok) (ground (arith, spins))

  pub receive_spins :
      (fuel : ℕ) (nl_sd : ℤ) (junk target : List ℕ) (s : State S)
      (nlmsg_type nlmsg_len nla_type : ℕ)
      → is_negative (os.recv nl_sd (msgtemplate_size a) s.os).0 ≡ false
      → IsStuck a
          (patch 0 (os.recv nl_sd (msgtemplate_size a) s.os).1 junk)
          (os.recv nl_sd (msgtemplate_size a) s.os).0
          nlmsg_type
          nlmsg_len
          nla_type
      → receive os a debug fuel nl_sd junk target s ≡ diverges
  unfolding receive ◌>>=◌
  receive_spins fuel nl_sd junk target s nlmsg_type nlmsg_len nla_type came h =
      let s' : State S =
        say_if (s.dbg || debug) (received_bytes (os.recv nl_sd (msgtemplate_size a) s.os).0) (
          note
            (received nl_sd (os.recv nl_sd (msgtemplate_size a) s.os).0
              (os.recv nl_sd (msgtemplate_size a) s.os).1)
            (record s { os = (os.recv nl_sd (msgtemplate_size a) s.os).2 })) in
      let spins = handle_reply_spins fuel _ _ target s' nlmsg_type nlmsg_len nla_type h in
      ground (arith, came, spins)
