-- ===== src/Original/Delays/Ending.antt =====
-- Where the parts of so-src/original/delays.c end the program by exit, and with which code.
use universe_native_linux_in.Common.{
  ℕ, zero, suc, ◌≡◌, ◌⊎◌, inl, inr, Bool, List, [], ◌∷◌, ℤ, pos, negsuc, is_negative, ltb_ℤ, patch,
}
use universe_native_linux_in.Abi.{Abi}
use universe_native_linux_in.Machine.{Os, M, Message}
use universe_native_linux_in.Machine.Exits.{
  Exits, exits_step, exits_checked, exits_diverge, exits_exit, exits_if, exits_then, exit_rules,
}
use universe_native_linux_in.Netlink.Socket.{set_rcvbuf}
use universe_native_linux_in.Netlink.Send.{send_loop}
use universe_native_linux_in.Netlink.Family.{family_of_answer}
use Prim.Native.String.{String}
use universe_native_linux_in.Taskstats.Layout.{Placed}
use universe_native_linux_in.Original.Delays.Print.{
  get_member, get_members, print_delayacct, task_context_switch_counts, print_cgroupstats,
  print_ioacct,
}
use universe_native_linux_in.Original.Delays.Options.{Locals, option, options, err}
use universe_native_linux_in.Reply.{Walk, goto_done, ended}
use universe_native_linux_in.Original.Loops.{nested_loop, attr_loop}
use universe_native_linux_in.Original.Delays.Reply.{
  log_attr, stats_attr, nested_attr, top_attr, walk, handle_reply, receive,
}
use universe_native_linux_in.Original.Delays.{create_nl_socket, send_cmd, get_family_id}

module _ {S : Type 0} (os : Os S) (a : Abi) (E : ℤ → Type 0) where
  set_rcvbuf-Exits : (fd : ℤ) → Exits (set_rcvbuf os fd) E
  unfolding set_rcvbuf
  set_rcvbuf-Exits fd = search exit_rules depth 12

  pub create_nl_socket-Exits : (protocol : ℕ) → Exits (create_nl_socket os a protocol) E
  unfolding create_nl_socket
  create_nl_socket-Exits protocol = search (exit_rules, set_rcvbuf-Exits) depth 20 fits 3000

  pub send_loop-Exits : (fuel : ℕ) (sd : ℤ) (left : List ℕ) → Exits (send_loop os a fuel sd left) E
  unfolding send_loop
  send_loop-Exits zero sd left = exits_diverge
  send_loop-Exits (suc fuel) sd left =
      search (exit_rules, send_loop-Exits fuel sd) depth 20 fits 3000

  pub send_cmd-Exits :
      (fuel : ℕ) (sd : ℤ) (nlmsg_type nlmsg_pid genl_cmd nla_type : ℕ) (bytes : List ℕ)
      → Exits (send_cmd os a fuel sd nlmsg_type nlmsg_pid genl_cmd nla_type bytes) E
  unfolding send_cmd
  send_cmd-Exits fuel sd nlmsg_type nlmsg_pid genl_cmd nla_type bytes =
      search (exit_rules, send_loop-Exits) depth 20 fits 3000

  family_of_answer-Exits :
      (ans : List ℕ) (rep_len : ℤ) → Exits (family_of_answer os a ans rep_len) E
  unfolding family_of_answer
  family_of_answer-Exits ans rep_len = search exit_rules depth 20 fits 3000

  pub get_family_id-Exits : (fuel : ℕ) (sd : ℤ) → Exits (get_family_id os a fuel sd) E
  unfolding get_family_id
  get_family_id-Exits fuel sd =
      search (exit_rules, send_cmd-Exits, family_of_answer-Exits) depth 20 fits 3000

  module _ (taskstats : List Placed) (msg : List ℕ) where
    get_member-Exits : (t : ℕ) (name : String) → Exits {S = S} (get_member a taskstats msg t name) E
    unfolding get_member
    get_member-Exits t name = exits_then (exits_checked _) λ p. exits_checked _

    get_members-Exits :
        (t : ℕ) (names : List String) → Exits {S = S} (get_members a taskstats msg t names) E
    unfolding get_members
    get_members-Exits t [] = exits_step _ _
    get_members-Exits t (name ∷ names) =
        exits_then (get_member-Exits t name)
          λ v. exits_then (get_members-Exits t names) λ vs. exits_step _ _

    print_delayacct-Exits : (t : ℕ) → Exits {S = S} (print_delayacct a taskstats msg t) E
    unfolding print_delayacct
    print_delayacct-Exits t = search (exit_rules, get_members-Exits) depth 20 fits 3000

    task_context_switch_counts-Exits :
        (t : ℕ) → Exits {S = S} (task_context_switch_counts a taskstats msg t) E
    unfolding task_context_switch_counts
    task_context_switch_counts-Exits t = search (exit_rules, get_members-Exits) depth 20 fits 3000

    print_cgroupstats-Exits : (t : ℕ) → Exits {S = S} (print_cgroupstats a taskstats msg t) E
    unfolding print_cgroupstats
    print_cgroupstats-Exits t = search exit_rules depth 20 fits 3000

    print_ioacct-Exits : (t : ℕ) → Exits {S = S} (print_ioacct a taskstats msg t) E
    unfolding print_ioacct
    print_ioacct-Exits t = search (exit_rules, get_members-Exits) depth 20 fits 3000

-- The codes that the program gives to exit.
abbrev pub IsStatus : ℤ → Type 0
IsStatus c = (c ≡ pos 1) ⊎ (c ≡ negsuc 0)

pub err-Exits :
    {S A : Type 0} (c : ℤ) (m : Message) → IsStatus c → Exits {S = S} {A = A} (err c m) IsStatus
err-Exits c m h = exits_then (exits_step _ _) λ _. exits_exit c h

module _ {S : Type 0} (atoi : List ℕ → ℤ) where
  option-Exits :
      (c : ℕ) (optarg : List ℕ) (l : Locals) → Exits {S = S} (option atoi c optarg l) IsStatus
  unfolding option
  option-Exits c optarg l = search (exit_rules, err-Exits, inl, inr) depth 40 fits 6000

  pub options-Exits :
      (opts : List (ℕ × List ℕ)) (l : Locals) → Exits {S = S} (options atoi opts l) IsStatus
  unfolding options
  options-Exits [] l = exits_step _ _
  options-Exits ((c, optarg) ∷ rest) l = exits_then (option-Exits c optarg l) (options-Exits rest)

exits_walk :
    {S A B : Type 0} {E : ℤ → Type 0} (w : Walk A) {f g : A → M S B}
    → ((t : A) → Exits (f t) E)
    → ((t : A) → Exits (g t) E)
    → Exits (elim w [ goto_done t ↦ f t | ended t ↦ g t ]) E
exits_walk (goto_done t) left on = left t
exits_walk (ended t) left on = on t

module _ {S A : Type 0} (a : Abi) (msg : List ℕ) {E : ℤ → Type 0} where
  nested_loop-Exits :
      (switch : ℕ → A → M S (Walk A))
      → ((na : ℕ) (t : A) → Exits (switch na t) E)
      → (fuel na len2 : ℕ) (aggr_len : ℤ) (t : A)
      → Exits (nested_loop a msg switch fuel na len2 aggr_len t) E
  unfolding nested_loop
  nested_loop-Exits switch h zero na len2 aggr_len t = exits_diverge
  nested_loop-Exits switch h (suc fuel) na len2 aggr_len t =
      exits_if (ltb_ℤ (pos len2) aggr_len)
        (exits_then (h na t) λ w.
          exits_walk w (λ t'. exits_step _ _)
            (λ t'.
              exits_then (exits_checked _)
                λ nla_len. nested_loop-Exits switch h fuel _ _ aggr_len t'))
        (λ _. exits_step _ _)

  attr_loop-Exits :
      (switch : ℕ → ℕ → ℕ → A → M S (Walk A))
      → ((fuel na nla_len : ℕ) (t : A) → Exits (switch fuel na nla_len t) E)
      → (fuel na len : ℕ) (rep_len : ℤ) (t : A)
      → Exits (attr_loop a msg switch fuel na len rep_len t) E
  unfolding attr_loop
  attr_loop-Exits switch h zero na len rep_len t = exits_diverge
  attr_loop-Exits switch h (suc fuel) na len rep_len t =
      exits_if (ltb_ℤ (pos len) rep_len)
        (exits_then (exits_checked _) λ nla_len. exits_then (h fuel na nla_len t) λ w.
          exits_walk w (λ t'. exits_step _ _) (λ t'. attr_loop-Exits switch h fuel _ _ rep_len t'))
        (λ _. exits_step _ _)

module _ {S : Type 0} (os : Os S) (a : Abi) (taskstats : List Placed) (loop : Bool) (fd : ℤ) where
  module _ (msg : List ℕ) where
    log_attr-Exits : (na : ℕ) → Exits (log_attr os a taskstats loop fd msg na) IsStatus
    unfolding log_attr
    log_attr-Exits na = search (exit_rules, err-Exits, inl) depth 20 fits 3000

    stats_attr-Exits : (na : ℕ) → Exits (stats_attr os a taskstats loop fd msg na) IsStatus
    unfolding stats_attr
    stats_attr-Exits na =
        search
          (
            exit_rules,
            print_delayacct-Exits os a IsStatus taskstats msg,
            print_ioacct-Exits os a IsStatus taskstats msg,
            task_context_switch_counts-Exits os a IsStatus taskstats msg,
            log_attr-Exits,
          )
          depth 30 fits 6000

    nested_attr-Exits :
        (na : ℕ) (u : Unit {0}) → Exits (nested_attr os a taskstats loop fd msg na u) IsStatus
    unfolding nested_attr
    nested_attr-Exits na u = search (exit_rules, stats_attr-Exits) depth 30 fits 6000

    top_attr-Exits :
        (fuel na nla_len : ℕ) (u : Unit {0})
        → Exits (top_attr os a taskstats loop fd msg fuel na nla_len u) IsStatus
    unfolding top_attr
    top_attr-Exits fuel na nla_len u =
        search
          (
            exit_rules,
            nested_loop-Exits a msg (nested_attr os a taskstats loop fd msg) nested_attr-Exits,
            print_cgroupstats-Exits os a IsStatus taskstats msg,
          )
          depth 30 fits 6000

    handle_reply-Exits :
        (fuel : ℕ) (rep_len : ℤ)
        → Exits (handle_reply os a taskstats loop fd msg fuel rep_len) IsStatus
    unfolding handle_reply walk
    handle_reply-Exits fuel rep_len =
        search
          (exit_rules, attr_loop-Exits a msg (top_attr os a taskstats loop fd msg) top_attr-Exits)
          depth 30 fits 6000

  pub receive-Exits :
      (fuel : ℕ) (nl_sd : ℤ) (msg : List ℕ)
      → Exits (receive os a taskstats loop fd fuel nl_sd msg) IsStatus
  unfolding receive
  receive-Exits zero nl_sd msg = exits_diverge
  receive-Exits (suc fuel) nl_sd msg = exits_then (exits_step _ _) λ (rep_len, bytes).
      exits_then (search exit_rules depth 20 fits 3000) λ _.
        exits_if (is_negative rep_len)
          (search (exit_rules, receive-Exits fuel nl_sd) depth 20 fits 3000)
          (λ _. exits_then (handle_reply-Exits (patch 0 bytes msg) fuel rep_len) λ w.
            exits_walk w (λ u. exits_step _ _)
              (λ u. exits_if loop (receive-Exits fuel nl_sd _) (λ _. exits_step _ _)))
