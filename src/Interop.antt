-- ===== src/Interop.antt =====
-- TaskStatInterop.cs, TaskStatInteropException.cs and TaskStatsErrorAction.cs of
-- Universe.LinuxTaskStats/Universe.LinuxTaskStats: the native functions as C# sees them, the probes
-- for them, and the texts of an error number. `found` says whether the runtime finds the library;
-- where it does not, a call throws. The probes are Lazy values; here they are computed at each use.
pub mod Support
pub mod Description
use Prim.Native.String.{String, ◌++◌}
use universe_native_linux_in.Common.{
  ℕ, zero, suc, Bool, true, false, not, Option, none, some, ℤ, pos, ◌==◌, if◌then◌else◌,
}
use universe_native_linux_in.Abi.{Abi}
use universe_native_linux_in.Machine.{
  Os, State, M, Run, returns, exits, faults, diverges, pure, local_object, ◌>>=◌,
}
use universe_native_linux_in.GetTaskstats.{get_tid, get_pid, get_taskstats}

-- GetErrorDescription, with `none` for null
unfoldable pub get_error_description : ℕ → Option String
get_error_description error_number =
    if error_number == 8
    then some "Fatal Reply Error. NLMSG_ERROR Recieved."
    else if error_number == 4
    then some "Error sending tid/tgid cmd 'send_cmd(...)'"
    else if error_number == 3
    then some "Error getting family id 'get_family_id(nl_sd)'"
    else if error_number == 2
    then some "Error creating Netlink Socket (create_nl_socket)"
    else none

-- GetErrorMessage. `to_string` is the runtime's text of a number.
unfoldable pub get_error_message : (ℕ → String) → ℕ → String
unfolding get_error_description
get_error_message to_string error_number =
    "Unable to obtain taskstat structure" ++ elim (get_error_description error_number) [
      | none ↦ ". Error Code " ++ to_string error_number
      | some desc ↦ ". Error Code " ++ (to_string error_number ++ (". " ++ (desc ++ ".")))
    ]

-- What a call comes to: a value, or an exception.
pub data Attempt (A : Type 0) : Type 0 where
  completed : A → Attempt A
  thrown : Attempt A

-- The two forms of IsSuccess: the value of a test, or true for a call whose value is dropped.
unfoldable pub is_success : Attempt Bool → Bool
is_success (completed b) = b
is_success thrown = false

unfoldable pub is_success_call : {A : Type 0} → Attempt A → Bool
unfolding is_success
is_success_call (completed v) = is_success (completed true)
is_success_call thrown = is_success thrown

module _ {S : Type 0} (os : Os S) (a : Abi) (found : Bool) where
  -- A call of the library
  unfoldable pub native : {A : Type 0} → M S A → M S (Attempt A)
  native m = if found then (do v ← m; pure (completed v)) else pure thrown

  unfoldable pub is_get_tid_supported : M S Bool
  unfolding native is_success_call
  is_get_tid_supported = do r ← native (get_tid os); pure (is_success_call r)

  unfoldable pub is_get_pid_supported : M S Bool
  unfolding native is_success_call
  is_get_pid_supported = do r ← native (get_pid os); pure (is_success_call r)

  -- TASKSTATS_ENOUGH_SIZE
  abbrev taskstats_enough_size : ℕ
  taskstats_enough_size = 1024

  unfoldable pub is_get_task_stat_by_process_supported : ℕ → M S Bool
  unfolding native is_success_call is_get_pid_supported
  is_get_task_stat_by_process_supported fuel = do
    supported ← is_get_pid_supported
    if not supported then pure false else (do
      task_stat ← local_object os taskstats_enough_size
      r ← native (do
        pid ← get_pid os
        get_taskstats os a false fuel pid 0 task_stat (pos taskstats_enough_size))
      pure (is_success_call r))

  unfoldable pub is_get_task_stat_by_thread_supported : ℕ → M S Bool
  unfolding native is_success_call is_get_tid_supported
  is_get_task_stat_by_thread_supported fuel = do
    supported ← is_get_tid_supported
    if not supported then pure false else (do
      task_stat ← local_object os taskstats_enough_size
      r ← native (do
        tid ← get_tid os
        get_taskstats os a false fuel 0 tid task_stat (pos taskstats_enough_size))
      pure (is_success_call r))
