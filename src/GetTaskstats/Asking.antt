-- ===== src/GetTaskstats/Asking.antt =====
-- Steps of a call of `get_taskstats` that goes well: what is printed, what is asked, what is read.
use universe_native_linux_in.Common.{
  ℕ, suc, ◌^◌, ◌≤◌, ◌<◌, ◌≡◌, ◌≢◌, refl, ap, ◌∙◌, Bool, true, false, List, ℤ, pos, length, patch,
  length-patch, arith, if◌then◌else◌, ◌||◌, ◌||◌,
}
use universe_native_linux_in.Abi.{Abi, IsLinux}
use universe_native_linux_in.Machine.{◌>>=◌, Os, IsOs, State, M, returns, note, sent, Message}
use universe_native_linux_in.Machine.Memory.{read-patch_inside}
use universe_native_linux_in.Netlink.Request.Fields.{IsRequest}
use universe_native_linux_in.Netlink.Send.{after_sendto, send_loop, send_cmd}
use universe_native_linux_in.Netlink.Send.Deliver.{sent_all}
use universe_native_linux_in.Netlink.Send.Total.{send_cmd_lem}
use universe_native_linux_in.Reply.Steps.{IsStatsReply, say_if}
use universe_native_linux_in.GetTaskstats.Labels.{printf_dbg}
use universe_native_linux_in.GetTaskstats.{selected, select_task}
use universe_native_linux_in.GetTaskstats.Kernel.{Phase, wire_bytes}

pub say_if_os :
    {S : Type 0} (b : Bool) (m : Message) (s : State S) (phase : S → Phase)
    → phase (say_if b m s).os ≡ phase s.os
say_if_os true m s phase = refl
say_if_os false m s phase = refl

pub printf_dbg_lem :
    {S : Type 0} (debug : Bool) (m : Message) (s : State S)
    → printf_dbg debug m s ≡ returns tt (say_if (s.dbg || debug) m s)
unfolding ◌>>=◌
printf_dbg_lem debug m s = ground arith

-- `if (debug) dbg = 1;`
abbrev pub set_dbg : {S : Type 0} → Bool → State S → State S
set_dbg debug s = if debug then record s { dbg = true } else s

pub set_dbg_keeps :
    {S : Type 0} (debug : Bool) (s : State S)
    → ((set_dbg debug s).name ≡ s.name) × ((set_dbg debug s).rcvbufsz ≡ s.rcvbufsz)
set_dbg_keeps true s = (refl, refl)
set_dbg_keeps false s = (refl, refl)

pub select_task_small :
    (pid tgid id_type id : ℕ)
    → select_task pid tgid ≡ selected id_type id
    → pid < 2 ^ 32
    → tgid < 2 ^ 32
    → (id ≢ 0) × (id < 2 ^ 32) × (id_type < 2 ^ 16)
unfolding select_task
select_task_small pid tgid id_type id h p q = ground arith

-- A reply is still one when it lies at the start of a larger object.
pub IsStatsReply-patch :
    (a : Abi) (bytes junk : List ℕ) (aggr_type aggr_len id_type id_len version : ℕ)
    → length bytes ≤ length junk
    → IsStatsReply a bytes aggr_type aggr_len id_type id_len version
    → IsStatsReply a (patch 0 bytes junk) aggr_type aggr_len id_type id_len version
IsStatsReply-patch a bytes junk aggr_type aggr_len id_type id_len version fits r = record {
  aggr_len_is = read-patch_inside a bytes junk _ 2 fits r.aggr_len_is;
  aggr_type_is = read-patch_inside a bytes junk _ 2 fits r.aggr_type_is;
  aggregate = r.aggregate;
  id_len_is = read-patch_inside a bytes junk _ 2 fits r.id_len_is;
  id_type_is = read-patch_inside a bytes junk _ 2 fits r.id_type_is;
  names_task = r.names_task;
  room = r.room;
  stats_type_is = read-patch_inside a bytes junk _ 2 fits r.stats_type_is;
  version_is = read-patch_inside a bytes junk _ 2 fits r.version_is;
  whole = rw (length-patch 0 bytes junk) (omega (arith, r.whole));
}

module _ {S : Type 0} (os : Os S) (a : Abi) (law : IsLinux a) (docs : IsOs os) where
  send_loop_whole :
      (fuel : ℕ) (sd : ℤ) (left : List ℕ) (s : State S)
      → (os.sendto sd left s.os).0 ≡ pos (length left)
      → (t : State S) × (send_loop os a (suc fuel) sd left s ≡ returns (pos 0) t)
        × (t.os ≡ (os.sendto sd left s.os).1)
        × (t.rcvbufsz ≡ s.rcvbufsz)
  unfolding send_loop ◌>>=◌
  send_loop_whole fuel sd left s e =
      let again : List ℕ → M S ℤ = send_loop os a fuel sd in
      let s' : State S =
        note (sent sd left (os.sendto sd left s.os).0)
          (record s { os = (os.sendto sd left s.os).1 }) in
      (
        s',
        ap (λ r. after_sendto os a r left again s') e
            ∙ sent_all os a (length left) left again s' (omega arith),
        refl,
        refl,
      )

  -- A request that the socket takes at once.
  pub send_cmd_whole :
      (Q : S → Type 0) (fuel : ℕ) (sd : ℤ) (nlmsg_type nlmsg_pid genl_cmd nla_type n : ℕ)
      (bytes : List ℕ) (s : State S)
      → n ≡ length bytes
      → length bytes ≤ 4000
      → nlmsg_type < 2 ^ 16
      → nlmsg_pid < 2 ^ 32
      → genl_cmd < 2 ^ 8
      → nla_type < 2 ^ 16
      → ((msg : List ℕ)
          → IsRequest a nlmsg_type nlmsg_pid genl_cmd nla_type bytes msg
          → ((os.sendto sd (wire_bytes n msg) s.os).0 ≡ pos (length (wire_bytes n msg)))
            × Q (os.sendto sd (wire_bytes n msg) s.os).1)
      → (t : State S) × (send_cmd os a (suc fuel) sd nlmsg_type nlmsg_pid genl_cmd nla_type bytes s
          ≡ returns (pos 0) t)
        × Q t.os
  send_cmd_whole Q fuel sd nlmsg_type nlmsg_pid genl_cmd nla_type n bytes s same fits t p c l
        takes =
      let (msg, request, size, run) =
        send_cmd_lem os a law docs (suc fuel) sd nlmsg_type nlmsg_pid genl_cmd nla_type bytes s fits
          t p c l in
      let (all, next) = rw same at (takes msg request) in
      let (end, loop, left, kept) = send_loop_whole fuel sd (wire_bytes (length bytes) msg) s all in
      (end, run ∙ loop, rw left next)
