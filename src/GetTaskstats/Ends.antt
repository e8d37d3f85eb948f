-- ===== src/GetTaskstats/Ends.antt =====
-- When a call of `get_taskstats` ends, and over which replies it may not.
use universe_native_linux_in.Common.{
  ℕ, ◌*◌, ◌≡◌, ◌≤◌, ◌<◌, Bool, true, none, List, ℤ, pos_part, is_negative, not, ◌||◌, ◌==◌, arith,
  patch,
}
use universe_native_linux_in.Abi.{Abi, IsLinux}
use universe_native_linux_in.Machine.{Message, Os, IsOs, State, diverges}
use universe_native_linux_in.Machine.Stops.{
  Stops, stops_if, stops_then, stops_read, stops_step, stops_local, stops_recv, stop_rules, weaken,
}
use universe_native_linux_in.Netlink.{msgtemplate_size, genlmsg_data, genlmsg_payload}
use universe_native_linux_in.Netlink.Socket.{set_rcvbuf, create_nl_socket}
use universe_native_linux_in.Netlink.Send.Total.{Blocks}
use universe_native_linux_in.Netlink.Send.Ends.{send_cmd-Stops}
use universe_native_linux_in.Netlink.Family.{family_of_answer, get_family_id}
use universe_native_linux_in.Reply.{walk}
use universe_native_linux_in.Original.Loops.Endless.{HasEmpty, NeverEnds, stops_walk}
use universe_native_linux_in.Original.Loops.Ends.{walk-HasEmpty}
use universe_native_linux_in.GetTaskstats.Selected.{query_lem}
use universe_native_linux_in.GetTaskstats.Labels.{printf_dbg, no_cfd, leave, finish}
use universe_native_linux_in.GetTaskstats.{
  nothing_selected, selected, Selection, select_task, handle_reply, receive, query, talk,
  get_taskstats,
}

-- Some answer that recv can give, in whichever state of the system, is a message on which the loops
-- over attributes do not end.
abbrev pub EmptyReceived : {S : Type 0} → Os S → Abi → Type 0
EmptyReceived {S} os a =
    (nl_sd : ℤ) × (u v : S) × NeverEnds a
      (patch 0 (os.recv nl_sd (msgtemplate_size a) u).1 (os.stack (msgtemplate_size a) v))
      (os.recv nl_sd (msgtemplate_size a) u).0

-- What follows the header of a message that passed NLMSG_OK.
pub payload_fits :
    (a : Abi) (law : IsLinux a) (nlmsg_len : ℕ) (rep_len : ℤ)
    → a.nlmsg_ok nlmsg_len rep_len ≡ true
    → pos_part rep_len ≤ 4116
    → pos_part (genlmsg_payload a nlmsg_len) ≤ 4 * 1029
payload_fits a law nlmsg_len rep_len ok small =
    ground (arith, law.nlmsg_ok nlmsg_len rep_len, law.nlmsg_payload nlmsg_len)

printf_dbg-Stops :
    {S Z : Type 0} (debug : Bool) (m : Message) → Stops {S = S} (printf_dbg debug m) Z
printf_dbg-Stops debug m = search stop_rules depth 12

module _ {S : Type 0} (os : Os S) (a : Abi) (law : IsLinux a) (docs : IsOs os) (debug : Bool) where
  handle_reply-Stops :
      (fuel : ℕ) (msg : List ℕ) (rep_len : ℤ) (target : List ℕ)
      → 17414 < fuel
      → pos_part rep_len ≤ 4116
      → Stops (handle_reply os a debug fuel msg rep_len target) (NeverEnds a msg rep_len)
  unfolding handle_reply
  handle_reply-Stops fuel msg rep_len target more small = stops_read _ λ nlmsg_type t.
      stops_read _ λ nlmsg_len l.
        stops_if (nlmsg_type == a.nlmsg_error || not (a.nlmsg_ok nlmsg_len rep_len))
          (λ _. search stop_rules depth 20 fits 3000)
          (λ good. stops_then (printf_dbg-Stops debug _) λ _.
            stops_then
              (weaken
                (λ e. record {
                  nlmsg_type = nlmsg_type;
                  nlmsg_len = nlmsg_len;
                  type_is = t;
                  len_is = l;
                  accepted = good;
                  empty = e;
                })
                (walked nlmsg_len (ground arith)))
              λ w. stops_walk w (λ t. stops_step _ _) (λ t. stops_step _ _))
    where
      walked :
          (nlmsg_len : ℕ)
          → a.nlmsg_ok nlmsg_len rep_len ≡ true
          → Stops {S = S}
              (walk a debug msg fuel (genlmsg_data a) 0 (genlmsg_payload a nlmsg_len) target)
              (HasEmpty a msg (genlmsg_payload a nlmsg_len))
      walked nlmsg_len ok = record {
        holds = λ s h.
            walk-HasEmpty a law debug msg fuel 1029 (genlmsg_payload a nlmsg_len) target s
              (omega arith) (payload_fits a law nlmsg_len rep_len ok small) h;
      }

  pub reply-NeverEnds :
      (fuel : ℕ) (nl_sd : ℤ) (junk target : List ℕ) (s : State S)
      → 17414 < fuel
      → receive os a debug fuel nl_sd junk target s ≡ diverges
      → NeverEnds a
          (patch 0 (os.recv nl_sd (msgtemplate_size a) s.os).1 junk)
          (os.recv nl_sd (msgtemplate_size a) s.os).0
  unfolding receive
  reply-NeverEnds fuel nl_sd junk target s more = stops_recv os nl_sd (msgtemplate_size a) _ s (
      stops_then (printf_dbg-Stops debug _) λ _.
        stops_if (is_negative (os.recv nl_sd (msgtemplate_size a) s.os).0)
          (λ _. search stop_rules depth 20 fits 3000)
          (λ _. handle_reply-Stops fuel _ (os.recv nl_sd (msgtemplate_size a) s.os).0 target more (
            omega (
              arith,
              docs.recv_count nl_sd (msgtemplate_size a) s.os,
              docs.recv_fits nl_sd (msgtemplate_size a) s.os,
            ))))

module _ {S : Type 0} (os : Os S) (a : Abi) (law : IsLinux a) (docs : IsOs os)
    (blocks : Blocks os a) (debug : Bool) where
  receive-Stops :
      (fuel : ℕ) (nl_sd : ℤ) (v : S) (target : List ℕ)
      → 17414 < fuel
      → Stops
          (receive os a debug fuel nl_sd (os.stack (msgtemplate_size a) v) target)
          (EmptyReceived os a)
  receive-Stops fuel nl_sd v target more = record {
    holds = λ s h. (
      nl_sd,
      s.os,
      v,
      reply-NeverEnds os a law docs debug fuel nl_sd (os.stack (msgtemplate_size a) v) target s more
          h,
    );
  }

  query-Stops :
      (fuel : ℕ) (nl_sd : ℤ) (id mypid cmd_type tid : ℕ) (v : S) (target : List ℕ)
      → 17414 < fuel
      → Stops
          (query os a debug fuel nl_sd id mypid cmd_type tid
            (os.stack (msgtemplate_size a) v)
            target)
          (EmptyReceived os a)
  query-Stops fuel nl_sd id mypid cmd_type tid v target more =
      rw
        (query_lem os a debug fuel nl_sd id mypid cmd_type tid (os.stack (msgtemplate_size a) v)
          target)
        (stops_if (tid == 0) (λ _. search stop_rules depth 12)
          (λ _.
            stops_then
              (send_cmd-Stops os a law docs blocks fuel nl_sd id mypid _ cmd_type _ (omega arith))
              λ rc. stops_then (printf_dbg-Stops debug _) λ _.
                stops_if (is_negative rc) (λ _. search stop_rules depth 20 fits 3000)
                  (λ _.
                    stops_then (receive-Stops fuel nl_sd v target more)
                      λ out. stops_then (stops_step _ _) λ _. stops_step _ _)))

  set_rcvbuf-Stops : {Z : Type 0} (fd : ℤ) → Stops (set_rcvbuf os fd) Z
  unfolding set_rcvbuf
  set_rcvbuf-Stops fd = search stop_rules depth 20 fits 3000

  create_nl_socket-Stops : {Z : Type 0} (protocol : ℕ) → Stops (create_nl_socket os protocol) Z
  unfolding create_nl_socket
  create_nl_socket-Stops protocol = search (stop_rules, set_rcvbuf-Stops) depth 20 fits 3000

  family_of_answer-Stops :
      {Z : Type 0} (ans : List ℕ) (rep_len : ℤ) → Stops (family_of_answer os a ans rep_len) Z
  unfolding family_of_answer
  family_of_answer-Stops ans rep_len = search stop_rules depth 20 fits 3000

  get_family_id-Stops :
      {Z : Type 0} (fuel : ℕ) (sd : ℤ) → 17414 < fuel → Stops (get_family_id os a fuel sd) Z
  unfolding get_family_id
  get_family_id-Stops fuel sd more = stops_then (stops_step _ _) λ junk.
      stops_then (stops_step _ _) λ _. stops_then (stops_step _ _) λ name.
        stops_then (stops_step _ _) λ pid.
          stops_then (send_cmd-Stops os a law docs blocks fuel sd _ _ _ _ _ (omega arith))
            λ rc. stops_then (stops_step _ _) λ (rep_len, bytes). family_of_answer-Stops _ rep_len

  talk-Stops :
      (fuel cmd_type tid : ℕ) (v : S) (target : List ℕ)
      → 17414 < fuel
      → Stops
          (talk os a debug fuel cmd_type tid (os.stack (msgtemplate_size a) v) target)
          (EmptyReceived os a)
  unfolding talk finish leave
  talk-Stops fuel cmd_type tid v target more = stops_then (create_nl_socket-Stops _) λ nl_sd.
      stops_if (is_negative nl_sd) (λ _. search stop_rules depth 20 fits 3000)
        (λ _. stops_then (stops_step _ _) λ mypid.
          stops_then (get_family_id-Stops fuel nl_sd more) λ id.
            stops_if (id == 0) (λ _. search stop_rules depth 20 fits 3000)
              (λ _.
                stops_then (printf_dbg-Stops debug _)
                  λ _. query-Stops fuel nl_sd id mypid cmd_type tid v target more))

  -- On a socket that blocks, a call of `get_taskstats` ends, with 17415 rounds for each of its loops,
  -- unless recv can give, in some state of the system, a message on which the loops over attributes do
  -- not end.
  get_taskstats-EmptyReceived :
      (fuel pid tgid : ℕ) (target : List ℕ) (target_length : ℤ) (s : State S)
      → 17414 < fuel
      → get_taskstats os a debug fuel pid tgid target target_length s ≡ diverges
      → EmptyReceived os a
  unfolding get_taskstats finish leave
  get_taskstats-EmptyReceived fuel pid tgid target target_length s more h =
      (stops_then (stops_step _ _)
          λ _. stops_local os (msgtemplate_size a) _ λ v. by_task (select_task pid tgid) v).holds
        s h
    where
      by_task :
          (task : Selection) (v : S)
          → Stops
              (elim task [
                | nothing_selected ↦ finish os a debug fuel none (ℤ.negsuc 0) no_cfd (1, target)
                | selected cmd_type tid ↦
                    talk os a debug fuel cmd_type tid (os.stack (msgtemplate_size a) v) target
              ])
              (EmptyReceived os a)
      by_task nothing_selected v = stops_then (stops_step _ _) λ _. stops_step _ _
      by_task (selected cmd_type tid) v = talk-Stops fuel cmd_type tid v target more
