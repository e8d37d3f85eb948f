-- ===== src/Reader/Unanswered.antt =====
-- What the reader makes of a failed recv.
use universe_native_linux_in.Common.{
  ℕ, suc, ◌^◌, ◌<◌, ◌≡◌, ◌≢◌, refl, Bool, true, ℤ, pos, is_negative, length, ne→==, arith,
}
use universe_native_linux_in.Abi.{Abi, IsLinux}
use universe_native_linux_in.Machine.{Os, IsOs, State, returns, ◌>>=◌}
use universe_native_linux_in.Taskstats.{taskstats_cmd_attr_pid, taskstats_cmd_attr_tgid}
use universe_native_linux_in.Netlink.{msgtemplate_size}
use universe_native_linux_in.GetTaskstats.{selected, select_task}
use universe_native_linux_in.GetTaskstats.Kernel.{Phase, stats_asked, Listener}
use universe_native_linux_in.GetTaskstats.Unanswered.{get_taskstats_unanswered}
use universe_native_linux_in.Reader.{get_impl, get_by_process, get_by_thread}
use universe_native_linux_in.Reader.Serve.{stats_in, read_stats_lem}

module _ {S : Type 0} (os : Os S) (a : Abi) (law : IsLinux a) (docs : IsOs os) (sd : ℤ) (family : ℕ)
    (phase : S → Phase) (kernel : Listener os a sd family phase)
    (silent : (id_type id : ℕ) (s : S)
      → phase s ≡ stats_asked id_type id
      → is_negative (os.recv sd (msgtemplate_size a) s).0 ≡ true)
    (throw_exception verbose : Bool) where
  get_impl_unanswered :
      (fuel pid tid id_type id : ℕ) (s : State S)
      → select_task pid tid ≡ selected id_type id
      → pid < 2 ^ 32
      → tid < 2 ^ 32
      → length s.name ≡ 100
      → s.rcvbufsz ≡ pos 0
      → (t : State S) × (get_impl os a throw_exception verbose (suc (suc (suc fuel))) pid tid s
          ≡ returns (stats_in a (os.stack 640 s.os)) t)
  unfolding get_impl ◌>>=◌
  get_impl_unanswered fuel pid tid id_type id s chosen pid_small tid_small named nobuf =
      let (t, run) =
        get_taskstats_unanswered os a law docs sd family phase kernel silent verbose
          (os.stack 640 s.os) fuel pid tid id_type id (pos 640) s chosen pid_small tid_small named
          nobuf in
      (t, rw run (read_stats_lem a (os.stack 640 s.os) t (docs.length-stack 640 s.os)))

  -- With a kernel that takes both requests, when recv fails for the statistics, the reader returns
  -- neither null nor an error, whatever ErrorAction says and for every id but 0: it returns the
  -- statistics that the bytes of its own object, which nothing has written, would stand for.
  pub readers_unanswered :
      (fuel id : ℕ) (s : State S)
      → id ≢ 0
      → id < 2 ^ 32
      → length s.name ≡ 100
      → s.rcvbufsz ≡ pos 0
      → ((t : State S) × (get_by_process os a throw_exception verbose (suc (suc (suc fuel))) id s
            ≡ returns (stats_in a (os.stack 640 s.os)) t))
        × ((t : State S) × (get_by_thread os a throw_exception verbose (suc (suc (suc fuel))) id s
              ≡ returns (stats_in a (os.stack 640 s.os)) t))
  unfolding get_by_process get_by_thread select_task
  readers_unanswered fuel id s nonzero small named nobuf = (
    get_impl_unanswered fuel id 0 taskstats_cmd_attr_pid id s (rw (ne→== id 0 nonzero) refl) small
        (omega arith) named nobuf,
    get_impl_unanswered fuel 0 id taskstats_cmd_attr_tgid id s (rw (ne→== id 0 nonzero) refl)
        (omega arith) small named nobuf,
  )
