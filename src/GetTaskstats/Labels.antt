-- ===== src/GetTaskstats/Labels.antt =====
-- The labels `done` and `err` of `get_taskstats`, and its branches on maskset, containerset, fd and
-- cfd. These locals are 0 when they are declared, and only the branches that they guard assign one.
use universe_native_linux_in.Common.{
  ℕ, Bool, false, Option, List, [], ◌∷◌, ◌++◌, ℤ, pos, is_negative, bits32, ◌||◌, if◌then◌else◌,
}
use universe_native_linux_in.Abi.{Abi}
use universe_native_linux_in.Machine.{
  Os, M, Message, pure, exit, gets, checked, print, print_if, local_object, call_open, call_close,
  ◌>>=◌, ◌>>◌,
}
use universe_native_linux_in.Machine.Memory.{c_string}
use universe_native_linux_in.Taskstats.{
  taskstats_cmd_get, taskstats_cmd_attr_register_cpumask, taskstats_cmd_attr_deregister_cpumask,
}
use universe_native_linux_in.Netlink.Socket.{is_nonzero}
use universe_native_linux_in.Netlink.Send.{send_cmd}

-- What a call leaves: returnError, and the object that targetTaskStat points to.
abbrev pub Reported : Type 0
Reported = ℕ × List ℕ

-- The locals id and mypid, `none` as long as they are not initialised.
abbrev pub Sender : Type 0
Sender = Option (ℕ × ℕ)

-- PRINTF
abbrev pub printf_dbg : {S : Type 0} → Bool → Message → M S (Unit {0})
printf_dbg debug m = do dbg ← gets (λ s. s.dbg); print_if (dbg || debug) m

-- err(code, …)
abbrev pub err : {S A : Type 0} → ℤ → Message → M S A
err code m = print m >> exit code

abbrev pub maskset : Bool
maskset = false

abbrev pub containerset : Bool
containerset = false

abbrev log_fd : ℤ
log_fd = pos 0

-- cfd as it is declared
abbrev pub no_cfd : ℤ
no_cfd = pos 0

module _ {S : Type 0} (os : Os S) (a : Abi) (debug : Bool) where
  -- The label `err`.
  unfoldable pub leave : ℤ → ℤ → Reported → M S Reported
  leave nl_sd cfd out =
      let close_cfd = if is_nonzero cfd then call_close os cfd >> pure out else pure out in
      call_close os nl_sd
      >> (if is_nonzero log_fd then call_close os log_fd >> close_cfd else close_cfd)

  -- send_cmd with the global cpumask, as a string with its 0.
  unfoldable pub cpumask_cmd : ℕ → ℤ → Sender → ℕ → M S ℤ
  unfolding send_cmd
  cpumask_cmd fuel nl_sd sender nla_type = do
    (id, mypid) ← checked sender
    cpumask ← gets (λ s. s.cpumask)
    mask ← checked (c_string cpumask)
    send_cmd os a fuel nl_sd id mypid taskstats_cmd_get nla_type (mask ++ (0 ∷ []))

  -- The label `done`, and then `err`. err(rc, …) prints its line and exits with rc.
  unfoldable pub finish : ℕ → Sender → ℤ → ℤ → Reported → M S Reported
  unfolding leave cpumask_cmd
  finish fuel sender nl_sd cfd out =
      if maskset
      then (do
        rc ← cpumask_cmd fuel nl_sd sender taskstats_cmd_attr_deregister_cpumask
        print_if debug (Message.sent_deregister_mask rc)
        if is_negative rc then err rc Message.deregister_cpumask_failed else leave nl_sd cfd out)
      else leave nl_sd cfd out

  -- `if (maskset) { … }` before the request, and what follows it.
  unfoldable pub register_cpumask : ℕ → ℤ → Sender → List ℕ → M S Reported → M S Reported
  unfolding leave cpumask_cmd
  register_cpumask fuel nl_sd sender target next =
      if maskset
      then (do
        rc ← cpumask_cmd fuel nl_sd sender taskstats_cmd_attr_register_cpumask
        printf_dbg debug (Message.sent_register_cpumask rc)
        if is_negative rc
            then print Message.register_cpumask_failed >> leave nl_sd no_cfd (0, target)
            else next)
      else next

  -- `if (containerset) { … }`, and what follows it with cfd. containerpath is not initialised.
  unfoldable pub container_cmd : ℕ → ℤ → ℕ → ℕ → List ℕ → (ℤ → M S Reported) → M S Reported
  unfolding leave send_cmd
  container_cmd fuel nl_sd id mypid target next =
      if containerset
      then (do
        containerpath ← local_object os 1024
        path ← checked (c_string containerpath)
        cfd ← call_open os path false
        if is_negative cfd
            then print_if debug Message.container_failed >> leave nl_sd cfd (5, target)
            else (do
              rc ←
                  send_cmd os a fuel nl_sd id mypid a.cgroupstats_cmd_get a.cgroupstats_cmd_attr_fd
                    (a.order.put 4 (bits32 cfd))
              if is_negative rc
                  then print_if debug Message.cgroup_failed >> leave nl_sd cfd (6, target)
                  else next cfd))
      else next no_cfd
