-- ===== src/GetTaskstats/Selected.antt =====
-- The way from the request to the result in `get_taskstats`, with maskset and containerset 0.
use universe_native_linux_in.Common.{
  ℕ, ◌≡◌, refl, Bool, List, ℤ, inl, inr, is_negative, Bool-cases, ◌==◌, if◌then◌else◌,
}
use universe_native_linux_in.Abi.{Abi}
use universe_native_linux_in.Machine.{Os, M, Message, print_if, call_close, pure, ◌>>=◌, ◌>>◌}
use universe_native_linux_in.Taskstats.{taskstats_cmd_get}
use universe_native_linux_in.Netlink.Send.{send_cmd}
use universe_native_linux_in.GetTaskstats.Labels.{
  Reported, printf_dbg, leave, finish, register_cpumask, container_cmd,
}
use universe_native_linux_in.GetTaskstats.{receive, task_cmd, query}

module _ {S : Type 0} (os : Os S) (a : Abi) (debug : Bool) where
  -- Both labels: the socket is closed, and nothing else.
  abbrev pub close_socket : ℤ → Reported → M S Reported
  close_socket nl_sd out = call_close os nl_sd >> pure out

  -- A request for a task and its reply.
  abbrev pub ask : ℕ → ℤ → ℕ → ℕ → ℕ → ℕ → List ℕ → List ℕ → M S Reported
  ask fuel nl_sd id mypid cmd_type tid junk target = do
    rc ← send_cmd os a fuel nl_sd id mypid taskstats_cmd_get cmd_type (a.order.put 4 tid)
    printf_dbg debug (Message.sent_pid_tgid rc)
    if is_negative rc
        then print_if debug Message.send_failed >> close_socket nl_sd (4, target)
        else receive os a debug fuel nl_sd junk target >>= close_socket nl_sd

  -- From the family id on, `get_taskstats` sends one request, for its task, and takes one reply; it
  -- sends no cpumask and opens no container file, and on each way it closes the socket and no other
  -- descriptor. Without a task it sends nothing, and returnError is 7.
  pub query_lem :
      (fuel : ℕ) (nl_sd : ℤ) (id mypid cmd_type tid : ℕ) (junk target : List ℕ)
      → query os a debug fuel nl_sd id mypid cmd_type tid junk target ≡ (
          if tid == 0
          then close_socket nl_sd (7, target)
          else ask fuel nl_sd id mypid cmd_type tid junk target)
  unfolding query finish leave register_cpumask task_cmd container_cmd
  query_lem fuel nl_sd id mypid cmd_type tid junk target = elim (Bool-cases (tid == 0)) [
    | inl idle ↦ rw idle refl
    | inr task ↦ rw task refl
  ]
