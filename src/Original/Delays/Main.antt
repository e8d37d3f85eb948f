-- ===== src/Original/Delays/Main.antt =====
-- `main` of so-src/original/delays.c behind its options.
pub mod Codes
pub mod Status
use universe_native_linux_in.Common.{
  ℕ, ◌+◌, Bool, true, false, not, ◌||◌, ◌&&◌, List, [], ◌∷◌, ◌++◌, ℤ, pos, negsuc, is_negative,
  length, bits32, ◌==◌, if◌then◌else◌,
}
use universe_native_linux_in.Abi.{Abi}
use universe_native_linux_in.Machine.{
  Os, State, M, Run, returns, exits, faults, diverges, Message, pure, gets, checked, skip, print,
  local_object, call_open, call_close, call_getpid, get_errno, ◌>>=◌, ◌>>◌,
}
use universe_native_linux_in.Machine.Memory.{c_string}
use universe_native_linux_in.Taskstats.{
  taskstats_cmd_get, taskstats_cmd_attr_register_cpumask, taskstats_cmd_attr_deregister_cpumask,
}
use universe_native_linux_in.Taskstats.Layout.{Placed}
use universe_native_linux_in.Netlink.Socket.{is_nonzero}
use universe_native_linux_in.Original.Delays.{
  containerpath_size, msgtemplate_size, printf_dbg, create_nl_socket, send_cmd, get_family_id,
}
use universe_native_linux_in.Original.Delays.Options.{Locals, initial, options, err}
use universe_native_linux_in.Original.Delays.Reply.{receive}

-- `fd == -1`
abbrev pub is_minus_one : ℤ → Bool
is_minus_one (pos n) = false
is_minus_one (negsuc n) = n == 0

-- Where the requests leave `main`: at the loop, at the label `done`, or at the label `err`, with cfd.
pub data Next : Type 0 where
  proceed : ℤ → Next
  to_done : Next
  to_err : ℤ → Next

module _ {S : Type 0} (os : Os S) (a : Abi) where
  -- The label `err`. The result is the exit status.
  unfoldable pub finish : ℤ → ℤ → ℤ → M S ℤ
  finish nl_sd fd cfd = do
    call_close os nl_sd
    (if is_nonzero fd then call_close os fd else skip)
    (if is_nonzero cfd then call_close os cfd else skip)
    pure (pos 0)

  -- A command with the global cpumask, as a string with its 0.
  unfoldable pub cpumask_cmd : ℕ → ℤ → ℕ → ℕ → ℕ → M S ℤ
  unfolding send_cmd
  cpumask_cmd fuel nl_sd id mypid nla_type = do
    cpumask ← gets (λ s. s.cpumask)
    mask ← checked (c_string cpumask)
    send_cmd os a fuel nl_sd id mypid taskstats_cmd_get nla_type (mask ++ (0 ∷ []))

  -- The label `done`, and then `err`.
  unfoldable pub deregister : ℕ → ℤ → ℕ → ℕ → Bool → M S (Unit {0})
  unfolding cpumask_cmd
  deregister fuel nl_sd id mypid maskset =
      if maskset
      then (do
        rc ← cpumask_cmd fuel nl_sd id mypid taskstats_cmd_attr_deregister_cpumask
        print (Message.sent_deregister_mask rc)
        if is_negative rc then err rc Message.deregister_cpumask_failed else skip)
      else skip

  -- `if (containerset) { … }`, and the test behind it.
  unfoldable pub container_cmd : ℕ → ℤ → ℕ → ℕ → Locals → M S Next
  unfolding send_cmd
  container_cmd fuel nl_sd id mypid l =
      if l.containerset
      then (do
        path ← checked (c_string l.containerpath)
        cfd ← call_open os path false
        if is_negative cfd then print Message.no_container >> pure (to_err cfd) else (do
          rc ←
              send_cmd os a fuel nl_sd id mypid a.cgroupstats_cmd_get a.cgroupstats_cmd_attr_fd
                (a.order.put 4 (bits32 cfd))
          if is_negative rc
              then print Message.cgroup_cmd_failed >> pure (to_err cfd)
              else pure (proceed cfd)))
      else if not l.maskset && not (is_nonzero l.tid)
      then print Message.usage_lines >> pure (to_err (pos 0))
      else pure (proceed (pos 0))

  -- `if (tid) { … }`, and what follows it.
  unfoldable pub task_cmd : ℕ → ℤ → ℕ → ℕ → Locals → M S Next
  unfolding container_cmd send_cmd
  task_cmd fuel nl_sd id mypid l =
      if is_nonzero l.tid
      then (do
        rc ←
            send_cmd os a fuel nl_sd id mypid taskstats_cmd_get l.cmd_type
              (a.order.put 4 (bits32 l.tid))
        printf_dbg (Message.sent_pid_tgid rc)
        if is_negative rc
            then print Message.task_cmd_failed >> pure to_done
            else container_cmd fuel nl_sd id mypid l)
      else container_cmd fuel nl_sd id mypid l

  -- The requests, from `if (maskset)` on.
  unfoldable pub requests : ℕ → ℤ → ℕ → ℕ → Locals → M S Next
  unfolding cpumask_cmd task_cmd
  requests fuel nl_sd id mypid l = do
    rc ←
        (if l.maskset
          then (do
            rc ← cpumask_cmd fuel nl_sd id mypid taskstats_cmd_attr_register_cpumask
            printf_dbg (Message.sent_register_cpumask rc)
            pure rc)
          else pure (pos 0))
    if is_negative rc
        then print Message.register_cpumask_failed >> pure (to_err (pos 0))
        else if is_nonzero l.tid && l.containerset
        then print Message.not_both >> pure (to_err (pos 0))
        else task_cmd fuel nl_sd id mypid l

  module _ (taskstats : List Placed) where
    -- What follows the requests.
    unfoldable pub served : ℕ → ℤ → ℤ → ℕ → ℕ → Locals → Next → M S ℤ
    unfolding deregister finish receive
    served fuel fd nl_sd id mypid l (to_err cfd) = finish nl_sd fd cfd
    served fuel fd nl_sd id mypid l to_done =
        deregister fuel nl_sd id mypid l.maskset >> finish nl_sd fd (pos 0)
    served fuel fd nl_sd id mypid l (proceed cfd) = do
      msg ← local_object os (msgtemplate_size a)
      receive os a taskstats l.loop fd fuel nl_sd msg
      deregister fuel nl_sd id mypid l.maskset
      finish nl_sd fd cfd

    -- From the family id on.
    unfoldable pub serve : ℕ → ℤ → ℤ → ℕ → ℕ → Locals → M S ℤ
    unfolding requests served
    serve fuel fd nl_sd id mypid l =
        requests fuel nl_sd id mypid l >>= served fuel fd nl_sd id mypid l

    -- From the log file on.
    unfoldable pub run : ℕ → Locals → M S ℤ
    unfolding serve finish create_nl_socket get_family_id
    run fuel l = do
      fd ← (if l.write_file then call_open os l.logfile true else pure (pos 0))
      if l.write_file && is_minus_one fd then err (pos 1) Message.no_log_file else (do
        nl_sd ← create_nl_socket os a a.netlink_generic
        if is_negative nl_sd then err (pos 1) Message.no_socket else (do
          mypid ← call_getpid os
          id ← get_family_id os a fuel nl_sd
          if id == 0
              then (do
                errno ← get_errno os
                print (Message.no_family errno)
                finish nl_sd fd (pos 0))
              else printf_dbg (Message.family_id id) >> serve fuel fd nl_sd id mypid l))

    -- The whole program, on what getopt returns.
    unfoldable pub main : (List ℕ → ℤ) → ℕ → List (ℕ × List ℕ) → M S ℤ
    unfolding options run initial
    main atoi fuel opts = do
      junk ← local_object os containerpath_size
      l ← options atoi opts (initial junk)
      run fuel l
