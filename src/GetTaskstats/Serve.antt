-- ===== src/GetTaskstats/Serve.antt =====
-- A whole call of `get_taskstats` with a kernel that keeps its promises.
use universe_native_linux_in.Common.{
  ℕ, suc, ◌^◌, ◌≤◌, ◌<◌, ◌≡◌, ap, ◌∙◌, Bool, some, List, ℤ, pos, length, patch, arith, ◌||◌, ◌||◌,
}
use universe_native_linux_in.Abi.{Abi, IsLinux}
use universe_native_linux_in.Machine.{◌>>=◌, Os, IsOs, State, returns, note, received, Message}
use universe_native_linux_in.Machine.Memory.{read, read-patch_inside, slice-patch_inside}
use universe_native_linux_in.Taskstats.{get_ts_size_bv}
use universe_native_linux_in.Taskstats.Size.{get_ts_size_bv_mono}
use universe_native_linux_in.Netlink.{msgtemplate_size, nla_data}
use universe_native_linux_in.Reply.Steps.{second_at, copied_from, say_if}
use universe_native_linux_in.GetTaskstats.Dialog.{get_taskstats_replies}
use universe_native_linux_in.GetTaskstats.{selected, select_task, receive, get_taskstats}
use universe_native_linux_in.GetTaskstats.Replies.{handle_reply_stats}
use universe_native_linux_in.GetTaskstats.Kernel.{Phase, stats_asked, Kernel}
use universe_native_linux_in.GetTaskstats.Asking.{IsStatsReply-patch}

module _ {S : Type 0} (os : Os S) (a : Abi) (law : IsLinux a) (docs : IsOs os) (sd : ℤ) (family : ℕ)
    (stats : ℕ → ℕ → List ℕ) (phase : S → Phase) (kernel : Kernel os a sd family stats phase) where
  module _ (debug : Bool) (target : List ℕ) (holds : 352 ≤ length target) where
    receive_serves :
        (fuel id_type id : ℕ) (junk : List ℕ) (s : State S)
        → length junk ≡ 4116
        → phase s.os ≡ stats_asked id_type id
        → (t : State S) × (receive os a debug (suc (suc (suc fuel))) sd junk target s
            ≡ returns (0, patch 0 (stats id_type id) target) t)
    unfolding receive ◌>>=◌
    receive_serves fuel id_type id junk s sized asked =
        let (r, answer) = kernel.answers_stats id_type id s.os asked in
        let bytes : List ℕ = (os.recv sd (msgtemplate_size a) s.os).1 in
        let fits : length bytes ≤ length junk =
          omega (arith, docs.recv_fits sd (msgtemplate_size a) s.os) in
        let inside = λ (i w v : ℕ) (h : read a bytes i w ≡ some v).
          read-patch_inside a bytes junk i w fits h in
        let s' : State S =
          say_if (s.dbg || debug) (Message.received_bytes (os.recv sd (msgtemplate_size a) s.os).0)
            (note
              (received sd (os.recv sd (msgtemplate_size a) s.os).0
                (os.recv sd (msgtemplate_size a) s.os).1)
              (record s { os = (os.recv sd (msgtemplate_size a) s.os).2 })) in
        let (t, run) =
          handle_reply_stats os a debug law fuel (patch 0 bytes junk) (pos (length bytes)) target s'
            answer.nlmsg_type answer.nlmsg_len answer.aggr_type answer.aggr_len answer.id_type
            answer.id_len answer.version (inside _ 2 _ answer.type_is) (inside _ 4 _ answer.len_is)
            answer.no_error answer.ok answer.has_attributes
            (IsStatsReply-patch a bytes junk answer.aggr_type answer.aggr_len answer.id_type
              answer.id_len answer.version fits answer.reply)
            (omega (arith, get_ts_size_bv_mono answer.version answer.version (omega arith))) in
        let place : ℕ = nla_data a (second_at a answer.id_len) in
        let same : copied_from a (patch 0 bytes junk) place answer.version target
            ≡ patch 0 (stats id_type id) target =
          ap (λ c. patch 0 c target)
            (slice-patch_inside bytes junk place (get_ts_size_bv answer.version) answer.reply.whole
                fits
              ∙ answer.stats_are) in
        (t, ground arith)

    -- With a kernel that keeps its promises, and the library's globals as they start, a call of
    -- `get_taskstats` for a thread or a process returns 0, and has put the statistics that the
    -- kernel has of that very task over the start of the caller's object, of 352 bytes at least.
    pub get_taskstats_serves :
        (fuel pid tgid id_type id : ℕ) (target_length : ℤ) (s : State S)
        → select_task pid tgid ≡ selected id_type id
        → pid < 2 ^ 32
        → tgid < 2 ^ 32
        → length s.name ≡ 100
        → s.rcvbufsz ≡ pos 0
        → (t : State S) × (get_taskstats os a debug
              (suc (suc (suc fuel)))
              pid
              tgid
              target
              target_length
              s
            ≡ returns (0, patch 0 (stats id_type id) target) t)
    get_taskstats_serves fuel pid tgid id_type id target_length s chosen pid_small tgid_small named
          nobuf =
        get_taskstats_replies os a law docs sd family phase kernel.listener debug target fuel
          id_type id (0, patch 0 (stats id_type id) target)
          (λ junk t sized asked. receive_serves fuel id_type id junk t sized asked) pid tgid
          target_length s chosen pid_small tgid_small named nobuf
