-- ===== src/GetTaskstats/Replies.antt =====
-- What `get_taskstats` makes of each answer to its request: a failed recv, and the statistics.
use universe_native_linux_in.Common.{
  ℕ, suc, ◌≤◌, ◌≡◌, refl, ◌≢◌, Bool, true, ◌||◌, some, List, ◌∷◌, ℤ, pos, negsuc, is_negative,
  ltb_ℤ, length, if◌then◌else◌, arith,
}
use universe_native_linux_in.Abi.{Abi, IsLinux}
use universe_native_linux_in.Machine.{
  Os, State, returns, closed, received, note, ◌>>=◌, received_bytes, nonfatal_reply, header_sizes,
}
use universe_native_linux_in.Machine.Memory.{read}
use universe_native_linux_in.Taskstats.{get_ts_size_bv}
use universe_native_linux_in.Netlink.{msgtemplate_size, genlmsg_payload, nla_data}
use universe_native_linux_in.Reply.Steps.{IsStatsReply, copied_from, second_at, say_if}
use universe_native_linux_in.Reply.Stats.{walk_stats}
use universe_native_linux_in.GetTaskstats.Labels.{leave, finish}
use universe_native_linux_in.GetTaskstats.{receive, handle_reply, get_taskstats, select_task}

module _ {S : Type 0} (os : Os S) (a : Abi) (debug : Bool) where
  -- The state behind recv, and behind the line that is printed about it.
  abbrev after_recv : ℤ → State S → State S
  after_recv nl_sd s =
      let (r, bytes, o) = os.recv nl_sd (msgtemplate_size a) s.os in
      say_if (s.dbg || debug) (received_bytes r)
        (note (received nl_sd r bytes) (record s { os = o }))

  -- When recv fails, `get_taskstats` does not wait for another reply: it goes on with returnError 0,
  -- as after a success, and with the caller's object as it was.
  pub receive_failed :
      (fuel : ℕ) (nl_sd : ℤ) (junk target : List ℕ) (s : State S)
      → is_negative (os.recv nl_sd (msgtemplate_size a) s.os).0 ≡ true
      → (t : State S) × (receive os a debug fuel nl_sd junk target s ≡ returns (0, target) t)
  unfolding receive ◌>>=◌
  receive_failed fuel nl_sd junk target s h = (
    say_if debug (nonfatal_reply (os.errno (after_recv nl_sd s).os)) (after_recv nl_sd s),
    ground arith,
  )

  -- A reply that is no error, passes NLMSG_OK, has attributes, and holds an id and then statistics
  -- that fit the message and the caller's object: returnError is 0, and the statistics are copied
  -- over the start of the caller's object. Three rounds are enough.
  pub handle_reply_stats :
      (law : IsLinux a) (fuel : ℕ) (msg : List ℕ) (rep_len : ℤ) (target : List ℕ) (s : State S)
      (nlmsg_type nlmsg_len aggr_type aggr_len id_type id_len version : ℕ)
      → read a msg a.nlmsg_type_at 2 ≡ some nlmsg_type
      → read a msg a.nlmsg_len_at 4 ≡ some nlmsg_len
      → nlmsg_type ≢ a.nlmsg_error
      → a.nlmsg_ok nlmsg_len rep_len ≡ true
      → ltb_ℤ (pos 0) (genlmsg_payload a nlmsg_len) ≡ true
      → IsStatsReply a msg aggr_type aggr_len id_type id_len version
      → get_ts_size_bv version ≤ length target
      → (t : State S) × (handle_reply os a debug (suc (suc (suc fuel))) msg rep_len target s
          ≡ returns (0, copied_from a msg (nla_data a (second_at a id_len)) version target) t)
  unfolding handle_reply ◌>>=◌
  handle_reply_stats law fuel msg rep_len target s nlmsg_type nlmsg_len aggr_type aggr_len id_type
        id_len version ty len good ok more reply holds =
      let s' : State S =
        say_if (s.dbg || debug) (header_sizes a.sizeof_nlmsghdr nlmsg_len rep_len) s in
      let (t, run, done, same) =
        walk_stats a law debug msg aggr_type aggr_len id_type id_len version reply target holds fuel
          (genlmsg_payload a nlmsg_len) s' more in
      (t, rw (ty, len, ok) (ground (arith, run)))

  -- Without a pid and a tgid `get_taskstats` returns 1 and does nothing to its surroundings but to
  -- close the descriptor -1; the caller's object is unchanged.
  get_taskstats_nothing :
      (fuel : ℕ) (target : List ℕ) (target_length : ℤ) (s : State S)
      → (t : State S) × (get_taskstats os a debug fuel 0 0 target target_length s
          ≡ returns (1, target) t)
        × (t.trace ≡ closed (negsuc 0) ∷ s.trace)
  unfolding get_taskstats finish leave select_task ◌>>=◌
  get_taskstats_nothing fuel target target_length s =
      let s' : State S = if debug then record s { dbg = true } else s in
      (note (closed (negsuc 0)) (record s' { os = os.close (negsuc 0) s'.os }), refl, ground arith)
