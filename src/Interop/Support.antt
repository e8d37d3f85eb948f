-- ===== src/Interop/Support.antt =====
-- What the probes of TaskStatInterop.cs find out.
use universe_native_linux_in.Common.{
  ℕ, ◌≡◌, refl, Bool, true, false, not, is_negative, arith, if◌then◌else◌,
}
use universe_native_linux_in.Abi.{Abi}
use universe_native_linux_in.Machine.{Os, State, M, returns, pure, ◌>>=◌}
use universe_native_linux_in.Machine.Ensures.{
  Ensures, ensures_pure, ensures_if, ensures_bind, ensures_then,
}
use universe_native_linux_in.GetTaskstats.Labels.{leave, finish}
use universe_native_linux_in.GetTaskstats.{get_pid, select_task, talk, get_taskstats}
use universe_native_linux_in.Netlink.Socket.{create_nl_socket}
use universe_native_linux_in.Reader.{get_by_process, no_stats}
use universe_native_linux_in.Reader.Errors.{Gives, get_impl_fails}
use universe_native_linux_in.Interop.{
  native, is_success_call, is_get_pid_supported, is_get_tid_supported,
  is_get_task_stat_by_process_supported, is_get_task_stat_by_thread_supported,
}

module _ {S : Type 0} (os : Os S) (a : Abi) where
  native-Ensures :
      {A : Type 0} (found : Bool) (m : M S A)
      → Ensures (native os a found m) (λ r _. is_success_call r ≡ found)
  unfolding native is_success_call
  native-Ensures true m = ensures_then m λ v. ensures_pure λ s. refl
  native-Ensures false m = ensures_pure λ s. refl

  -- A call whose success is the value
  called :
      {A : Type 0} (found : Bool) (m : M S A)
      → Ensures (native os a found m >>= λ r. pure (is_success_call r)) (λ b _. b ≡ found)
  called found m = ensures_bind (native-Ensures found m) λ r e. ensures_pure λ s. e

  -- A probe that comes behind another one
  behind :
      (found : Bool) (first second : M S Bool)
      → Ensures first (λ b _. b ≡ found)
      → Ensures second (λ b _. b ≡ found)
      → Ensures (first >>= λ b. if not b then pure false else second) (λ b _. b ≡ found)
  behind found first second h k =
      ensures_bind h λ b e. ensures_if (not b) (λ no. ensures_pure λ s. ground arith) (λ _. k)

  probe-Ensures :
      (found by_thread : Bool) (fuel : ℕ)
      → Ensures
          (if by_thread
            then is_get_task_stat_by_thread_supported os a found fuel
            else is_get_task_stat_by_process_supported os a found fuel)
          (λ b _. b ≡ found)
  unfolding is_get_task_stat_by_thread_supported is_get_task_stat_by_process_supported
      is_get_tid_supported is_get_pid_supported
  probe-Ensures found true fuel =
      behind found _ _ (called found _) (ensures_then _ λ task_stat. called found _)
  probe-Ensures found false fuel =
      behind found _ _ (called found _) (ensures_then _ λ task_stat. called found _)

  -- A run of the probe for the statistics of a thread, or of a process, finds them supported just when
  -- the library is found, whatever the system answers and whichever number `get_taskstats` returns.
  pub supported-eq-found :
      (found by_thread : Bool) (fuel : ℕ) (s : State S) (b : Bool) (t : State S)
      → (if by_thread
          then is_get_task_stat_by_thread_supported os a found fuel s
          else is_get_task_stat_by_process_supported os a found fuel s)
        ≡ returns b t
      → b ≡ found
  supported-eq-found found true fuel s b t run = (probe-Ensures found true fuel).holds s b t run
  supported-eq-found found false fuel s b t run = (probe-Ensures found false fuel).holds s b t run

  -- When the library is found and no socket can be made, the probe says that the statistics of
  -- a process are supported, and GetByProcess, from the same state, returns null for every process.
  pub supported_without_stats :
      (fuel process_id : ℕ) (s : State S)
      → is_negative (os.socket a.netlink_generic s.os).0 ≡ true
      → Gives (is_get_task_stat_by_process_supported os a true fuel s) true
        × Gives (get_by_process os a false false fuel process_id s) no_stats
  unfolding is_get_task_stat_by_process_supported is_get_pid_supported native is_success_call
      get_pid get_taskstats talk finish leave create_nl_socket select_task get_by_process ◌>>=◌
  supported_without_stats fuel process_id s bad =
      (ground arith, get_impl_fails os a false false fuel process_id 0 s bad)
