-- ===== src/Reader/Refused.antt =====
-- What the reader makes of an error message of the kernel.
use universe_native_linux_in.Common.{
  ℕ, suc, ◌^◌, ◌<◌, ◌≡◌, ◌≢◌, refl, Bool, ℤ, pos, length, ne→==, arith,
}
use universe_native_linux_in.Abi.{Abi, IsLinux}
use universe_native_linux_in.Machine.{Os, IsOs, State, returns, ◌>>=◌}
use universe_native_linux_in.Taskstats.{taskstats_cmd_attr_pid, taskstats_cmd_attr_tgid}
use universe_native_linux_in.GetTaskstats.{selected, select_task}
use universe_native_linux_in.GetTaskstats.Kernel.{Phase, Listener}
use universe_native_linux_in.GetTaskstats.Refused.{Refuses, get_taskstats_refused}
use universe_native_linux_in.Reader.{get_impl, get_by_process, get_by_thread}
use universe_native_linux_in.Reader.Errors.{failed}

module _ {S : Type 0} (os : Os S) (a : Abi) (law : IsLinux a) (docs : IsOs os) (sd : ℤ) (family : ℕ)
    (phase : S → Phase) (kernel : Listener os a sd family phase) (refuses : Refuses os a sd phase)
    (throw_exception verbose : Bool) where
  get_impl_refused :
      (fuel pid tid id_type id : ℕ) (s : State S)
      → select_task pid tid ≡ selected id_type id
      → pid < 2 ^ 32
      → tid < 2 ^ 32
      → length s.name ≡ 100
      → s.rcvbufsz ≡ pos 0
      → (t : State S) × (get_impl os a throw_exception verbose (suc (suc (suc fuel))) pid tid s
          ≡ returns (failed throw_exception 8) t)
  unfolding get_impl ◌>>=◌
  get_impl_refused fuel pid tid id_type id s chosen pid_small tid_small named nobuf =
      let (t, run) =
        get_taskstats_refused os a law docs sd family phase kernel refuses verbose
          (os.stack 640 s.os) fuel pid tid id_type id (pos 640) s chosen pid_small tid_small named
          nobuf in
      (t, rw run (ground arith))

  -- With a kernel that takes both requests and answers the one for statistics with an error message,
  -- as for an id that no task has, the reader returns null, or throws the error number 8 where
  -- exceptions are asked for, whatever the error in the message is. The id is not 0.
  pub readers_refused :
      (fuel id : ℕ) (s : State S)
      → id ≢ 0
      → id < 2 ^ 32
      → length s.name ≡ 100
      → s.rcvbufsz ≡ pos 0
      → ((t : State S) × (get_by_process os a throw_exception verbose (suc (suc (suc fuel))) id s
            ≡ returns (failed throw_exception 8) t))
        × ((t : State S) × (get_by_thread os a throw_exception verbose (suc (suc (suc fuel))) id s
              ≡ returns (failed throw_exception 8) t))
  unfolding get_by_process get_by_thread select_task
  readers_refused fuel id s nonzero small named nobuf = (
    get_impl_refused fuel id 0 taskstats_cmd_attr_pid id s (rw (ne→== id 0 nonzero) refl) small
        (omega arith) named nobuf,
    get_impl_refused fuel 0 id taskstats_cmd_attr_tgid id s (rw (ne→== id 0 nonzero) refl)
        (omega arith) small named nobuf,
  )
