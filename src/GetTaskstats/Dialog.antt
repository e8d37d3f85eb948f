-- ===== src/GetTaskstats/Dialog.antt =====
-- A call of `get_taskstats` with a kernel that takes its requests, up to the reply.
use universe_native_linux_in.Common.{
  ℕ, suc, ◌^◌, ◌≤◌, ◌<◌, ◌≡◌, ◌≢◌, refl, sym, ap, ◌∙◌, Bool, some, List, [], ◌∷◌, ◌++◌, ℤ, pos,
  is_negative, length, slice, patch, slice-patch_self, arith, ne→==, ◌||◌, ◌||◌,
}
use universe_native_linux_in.Abi.{Abi, IsLinux, IsByteOrder}
use universe_native_linux_in.Machine.{
  ◌>>=◌, Os, IsOs, State, returns, note, closed, received, Message,
}
use universe_native_linux_in.Machine.Memory.{read, read-patch_inside}
use universe_native_linux_in.Taskstats.{taskstats_cmd_get, taskstats_genl_name}
use universe_native_linux_in.Netlink.{msgtemplate_size}
use universe_native_linux_in.Netlink.Family.{ans_size, family_of_answer, get_family_id}
use universe_native_linux_in.Netlink.Family.Answer.{family_found}
use universe_native_linux_in.Netlink.Socket.{create_nl_socket}
use universe_native_linux_in.Netlink.Socket.Leak.{create_nl_socket_opens, with_bound}
use universe_native_linux_in.Reply.Steps.{say_if}
use universe_native_linux_in.GetTaskstats.Labels.{Reported}
use universe_native_linux_in.GetTaskstats.Selected.{query_lem}
use universe_native_linux_in.GetTaskstats.{
  selected, select_task, receive, query, talk, get_taskstats,
}
use universe_native_linux_in.GetTaskstats.Kernel.{
  IsFamilyAnswer, Phase, idle, family_asked, stats_asked, Listener,
}
use universe_native_linux_in.GetTaskstats.Asking.{
  set_dbg, say_if_os, printf_dbg_lem, set_dbg_keeps, select_task_small, send_cmd_whole,
}

module _ {S : Type 0} (os : Os S) (a : Abi) (law : IsLinux a) (docs : IsOs os) (sd : ℤ) (family : ℕ)
    (phase : S → Phase) (kernel : Listener os a sd family phase) where
  name_bytes :
      (s : State S)
      → length s.name ≡ 100
      → slice 0 10 (patch 0 (taskstats_genl_name ++ (0 ∷ [])) s.name)
        ≡ taskstats_genl_name ++ (0 ∷ [])
  name_bytes s e = slice-patch_self 0 10 (taskstats_genl_name ++ (0 ∷ [])) s.name refl (omega arith)

  family_answered :
      (junk bytes : List ℕ) (r : ℤ) (s : State S)
      → length junk ≡ 276
      → length bytes ≤ 276
      → r ≡ pos (length bytes)
      → IsFamilyAnswer a family bytes
      → family_of_answer os a (patch 0 bytes junk) r s ≡ returns family s
  family_answered junk bytes r s sized fits e answer =
      let within : length bytes ≤ length junk = omega arith in
      let inside = λ (i w v : ℕ) (h : read a bytes i w ≡ some v).
        read-patch_inside a bytes junk i w within h in
      rw e (
        family_found os a (patch 0 bytes junk) (pos (length bytes)) s answer.nlmsg_type
          answer.nlmsg_len (inside _ 2 _ answer.type_is) (inside _ 4 _ answer.len_is)
          answer.first_len a.ctrl_attr_family_id family answer.no_error refl answer.ok
          (inside _ 2 _ answer.first) (inside _ 2 _ answer.second) (inside _ 2 _ answer.family_is)
        ∙ ground arith)

  get_family_id_serves :
      (fuel : ℕ) (s : State S)
      → length s.name ≡ 100
      → phase s.os ≡ idle
      → (t : State S) × (get_family_id os a (suc fuel) sd s ≡ returns family t)
        × (phase t.os ≡ idle)
  unfolding get_family_id ◌>>=◌
  get_family_id_serves fuel s named ready =
      let bytes : List ℕ = taskstats_genl_name ++ (0 ∷ []) in
      let s' : State S = record s { name = patch 0 bytes s.name } in
      let (t, sends, asked) =
        send_cmd_whole os a law docs (λ u. phase u ≡ family_asked) fuel sd a.genl_id_ctrl
          (os.getpid s.os) a.ctrl_cmd_getfamily a.ctrl_attr_family_name 10 bytes s' refl
          (omega arith) (omega (arith, law.genl_id_ctrl)) (kernel.pid_small s.os)
          (omega (arith, law.ctrl_cmd_getfamily)) (omega (arith, law.ctrl_attr_family_name))
          (λ msg request. kernel.takes_family (os.getpid s.os) msg s.os ready request) in
      let (r, answer, next) = kernel.answers_family t.os asked in
      let junk : List ℕ = os.stack (ans_size os a) s.os in
      let end : State S =
        note (received sd (os.recv sd (ans_size os a) t.os).0 (os.recv sd (ans_size os a) t.os).1)
          (record t { os = (os.recv sd (ans_size os a) t.os).2 }) in
      (
        end,
        rw (name_bytes s named, sends)
            (family_answered junk (os.recv sd (ans_size os a) t.os).1 _ end
              (omega (arith, docs.length-stack (ans_size os a) s.os))
              (omega (arith, docs.recv_fits sd (ans_size os a) t.os)) r answer),
        next,
      )

  -- The rest of a call around what becomes of the reply: `out` in every state in which the kernel
  -- has the request and its answer is due.
  module _ (debug : Bool) (target : List ℕ) (fuel id_type id : ℕ) (out : Reported)
      (replies : (junk : List ℕ) (t : State S)
        → length junk ≡ 4116
        → phase t.os ≡ stats_asked id_type id
        → (u : State S) × (receive os a debug (suc (suc (suc fuel))) sd junk target t
            ≡ returns out u)) where
    query_replies :
        (mypid : ℕ) (junk : List ℕ) (s : State S)
        → id ≢ 0
        → id < 2 ^ 32
        → id_type < 2 ^ 16
        → mypid < 2 ^ 32
        → length junk ≡ 4116
        → phase s.os ≡ idle
        → (t : State S) × (query os a debug
              (suc (suc (suc fuel)))
              sd
              family
              mypid
              id_type
              id
              junk
              target
              s
            ≡ returns out t)
    unfolding ◌>>=◌
    query_replies mypid junk s nonzero small type_small pid_small sized ready =
        let (t, sends, asked) =
          send_cmd_whole os a law docs (λ u. phase u ≡ stats_asked id_type id) (suc (suc fuel)) sd
            family mypid taskstats_cmd_get id_type 4 (a.order.put 4 id) s
            (sym (IsByteOrder.length-put law.order 4 id))
            (omega (arith, IsByteOrder.length-put law.order 4 id)) kernel.family_small pid_small
            (omega arith) type_small
            (λ msg request. kernel.takes_stats mypid id_type id msg s.os ready small request) in
        let t' : State S = say_if (t.dbg || debug) (Message.sent_pid_tgid (pos 0)) t in
        let (u, run) = replies junk t' sized (say_if_os _ _ t phase ∙ asked) in
        (
          note (closed sd) (record u { os = os.close sd u.os }),
          rw
              (
                query_lem os a debug (suc (suc (suc fuel))) sd family mypid id_type id junk target,
                ne→== id 0 nonzero,
                sends,
                printf_dbg_lem debug (Message.sent_pid_tgid (pos 0)) t,
                run,
              )
              refl,
        )

    talk_replies :
        (junk : List ℕ) (s : State S)
        → id ≢ 0
        → id < 2 ^ 32
        → id_type < 2 ^ 16
        → length junk ≡ 4116
        → length s.name ≡ 100
        → s.rcvbufsz ≡ pos 0
        → (t : State S) × (talk os a debug (suc (suc (suc fuel))) id_type id junk target s
            ≡ returns out t)
    unfolding talk ◌>>=◌
    talk_replies junk s nonzero small type_small sized named nobuf =
        let s' : State S = with_bound os a.netlink_generic s in
        let opened : (os.socket a.netlink_generic s.os).0 ≡ sd = kernel.opens s.os in
        let u : S = (os.socket a.netlink_generic s.os).1 in
        let made : create_nl_socket os a.netlink_generic s ≡ returns sd s' =
          create_nl_socket_opens os a.netlink_generic s nobuf
            (ap is_negative opened ∙ kernel.sd_valid)
            (ap (λ d. is_negative (os.bind d u).0) opened ∙ kernel.binds u)
          ∙ ap (λ d. returns d s') opened in
        let (t, found, ready) =
          get_family_id_serves (suc (suc fuel)) s' named
            (ap (λ d. phase (os.bind d u).1) opened ∙ kernel.opens_idle s.os) in
        let t' : State S = say_if (t.dbg || debug) (Message.family_id family) t in
        let (end, run) =
          query_replies (os.getpid s'.os) junk t' nonzero small type_small (kernel.pid_small s'.os)
            sized (say_if_os _ _ t phase ∙ ready) in
        (
          end,
          rw
              (
                made,
                kernel.sd_valid,
                found,
                ne→== family 0 kernel.family_known,
                printf_dbg_lem debug (Message.family_id family) t,
              )
              run,
        )

    pub get_taskstats_replies :
        (pid tgid : ℕ) (target_length : ℤ) (s : State S)
        → select_task pid tgid ≡ selected id_type id
        → pid < 2 ^ 32
        → tgid < 2 ^ 32
        → length s.name ≡ 100
        → s.rcvbufsz ≡ pos 0
        → (t : State S) × (get_taskstats os a debug
              (suc (suc (suc fuel)))
              pid
              tgid
              target
              target_length
              s
            ≡ returns out t)
    unfolding get_taskstats ◌>>=◌
    get_taskstats_replies pid tgid target_length s chosen pid_small tgid_small named nobuf =
        let s' : State S = set_dbg debug s in
        let (same, still) = set_dbg_keeps debug s in
        let (nonzero, small, type_small) =
          select_task_small pid tgid id_type id chosen pid_small tgid_small in
        let (t, run) =
          talk_replies (os.stack (msgtemplate_size a) s'.os) s' nonzero small type_small
            (omega (arith, docs.length-stack (msgtemplate_size a) s'.os)) (ap length same ∙ named)
            (still ∙ nobuf) in
        (t, rw chosen run)
