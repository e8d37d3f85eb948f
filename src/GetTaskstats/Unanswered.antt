-- ===== src/GetTaskstats/Unanswered.antt =====
-- A whole call of `get_taskstats` whose request is taken, and whose recv for the reply fails.
use universe_native_linux_in.Common.{
  ℕ, suc, ◌^◌, ◌<◌, ◌≡◌, Bool, true, List, ℤ, pos, is_negative, length,
}
use universe_native_linux_in.Abi.{Abi, IsLinux}
use universe_native_linux_in.Machine.{Os, IsOs, State, returns}
use universe_native_linux_in.Netlink.{msgtemplate_size}
use universe_native_linux_in.GetTaskstats.{selected, select_task, get_taskstats}
use universe_native_linux_in.GetTaskstats.Kernel.{Phase, stats_asked, Listener}
use universe_native_linux_in.GetTaskstats.Replies.{receive_failed}
use universe_native_linux_in.GetTaskstats.Dialog.{get_taskstats_replies}

module _ {S : Type 0} (os : Os S) (a : Abi) (law : IsLinux a) (docs : IsOs os) (sd : ℤ) (family : ℕ)
    (phase : S → Phase) (kernel : Listener os a sd family phase)
    (silent : (id_type id : ℕ) (s : S)
      → phase s ≡ stats_asked id_type id
      → is_negative (os.recv sd (msgtemplate_size a) s).0 ≡ true) where
  -- With a kernel that takes both requests, when recv fails for the statistics, a call for a thread or
  -- a process returns 0, as after a success, and leaves the caller's object as it was.
  pub get_taskstats_unanswered :
      (debug : Bool) (target : List ℕ) (fuel pid tgid id_type id : ℕ) (target_length : ℤ)
      (s : State S)
      → select_task pid tgid ≡ selected id_type id
      → pid < 2 ^ 32
      → tgid < 2 ^ 32
      → length s.name ≡ 100
      → s.rcvbufsz ≡ pos 0
      → (t : State S) × (get_taskstats os a debug
            (suc (suc (suc fuel)))
            pid
            tgid
            target
            target_length
            s
          ≡ returns (0, target) t)
  get_taskstats_unanswered debug target fuel pid tgid id_type id target_length s chosen pid_small
        tgid_small named nobuf =
      get_taskstats_replies os a law docs sd family phase kernel debug target fuel id_type id
        (0, target)
        (λ junk t sized asked.
          receive_failed os a debug (suc (suc (suc fuel))) sd junk target t
            (silent id_type id t.os asked))
        pid tgid target_length s chosen pid_small tgid_small named nobuf
