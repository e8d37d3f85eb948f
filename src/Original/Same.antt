-- ===== src/Original/Same.antt =====
-- so-src/original/changes.c and so-src/get_taskstats.c side by side.
use mathlib.Core.Path.{fun_ext}
use universe_native_linux_in.Common.{
  ℕ, ◌≡◌, refl, ap, ◌∙◌, ◌≢◌, inl, inr, false, none, List, ℤ, Bool-cases, arith, ◌==◌,
  if◌then◌else◌, is_negative, ne→==,
}
use universe_native_linux_in.Abi.{Abi}
use universe_native_linux_in.Machine.{
  Os, State, M, Message, ◌>>=◌, ◌>>◌, print_if, call_getpid, get_errno,
}
use universe_native_linux_in.Netlink.{msgtemplate_size}
use universe_native_linux_in.Netlink.Socket
use universe_native_linux_in.Netlink.Family
use universe_native_linux_in.GetTaskstats.Labels.{Reported, printf_dbg, no_cfd, leave, finish}
use universe_native_linux_in.GetTaskstats.Selected.{query_lem}
use universe_native_linux_in.Reply
use universe_native_linux_in.Reply.{Walk, goto_done, ended}
use universe_native_linux_in.GetTaskstats
use universe_native_linux_in.Original.Loops.Library.{nested_loop_same, attr_loop_same}
use universe_native_linux_in.Original.Loops.{attr_loop}
use universe_native_linux_in.Original.Changes

module _ {S : Type 0} (a : Abi) (msg : List ℕ) where
  nested_attr_same :
      (na : ℕ) (target : List ℕ) (s : State S)
      → Changes.nested_attr a false msg na target s ≡ Reply.nested_attr a false msg na target s
  unfolding Changes.nested_attr Reply.nested_attr Changes.smart_copy_taskstats ◌>>=◌
  nested_attr_same na target s = ground arith

  switch_same : Changes.nested_attr {S = S} a false msg ≡ Reply.nested_attr a false msg
  switch_same = fun_ext λ na. fun_ext λ target. fun_ext λ s. nested_attr_same na target s

  top_attr_same :
      (fuel : ℕ) → Changes.top_attr {S = S} a false msg fuel ≡ Reply.top_attr a false msg fuel
  unfolding Changes.top_attr Reply.top_attr ◌>>=◌
  top_attr_same fuel = fun_ext λ na. fun_ext λ nla_len.
      fun_ext
        λ target. fun_ext λ s. rw (switch_same, nested_loop_same {S = S} a false msg fuel) refl

  walk_same : (fuel : ℕ) → Changes.walk {S = S} a false msg fuel ≡ Reply.walk a false msg fuel
  unfolding Changes.walk
  walk_same fuel =
      ap (λ t. attr_loop a msg t fuel) (fun_ext top_attr_same) ∙ attr_loop_same a false msg fuel

module _ {S : Type 0} (os : Os S) (a : Abi) where
  handle_reply_same :
      (fuel : ℕ) (msg : List ℕ) (rep_len : ℤ) (target : List ℕ) (s : State S)
      → Changes.handle_reply os a false fuel msg rep_len target s
        ≡ GetTaskstats.handle_reply os a false fuel msg rep_len target s
  unfolding Changes.handle_reply GetTaskstats.handle_reply ◌>>=◌
  handle_reply_same fuel msg rep_len target s = rw (walk_same {S = S} a msg fuel) refl

  receive_same :
      (fuel : ℕ) (nl_sd : ℤ) (junk target : List ℕ) (s : State S)
      → Changes.receive os a false fuel nl_sd junk target s
        ≡ GetTaskstats.receive os a false fuel nl_sd junk target s
  unfolding Changes.receive GetTaskstats.receive ◌>>=◌
  receive_same fuel nl_sd junk target s = elim (Bool-cases s.dbg) [
    | inl on ↦ elim (Bool-cases (is_negative (os.recv nl_sd (msgtemplate_size a) s.os).0)) [
      | inl failed ↦ rw (on, failed) refl
      | inr came ↦ rw (on, came) (handle_reply_same fuel _ _ target _)
    ]
    | inr off ↦ elim (Bool-cases (is_negative (os.recv nl_sd (msgtemplate_size a) s.os).0)) [
      | inl failed ↦ rw (off, failed) refl
      | inr came ↦ rw (off, came) (handle_reply_same fuel _ _ target _)
    ]
  ]

  query_same :
      (fuel : ℕ) (nl_sd : ℤ) (id mypid cmd_type tid : ℕ) (junk target : List ℕ) (s : State S)
      → tid ≢ 0
      → Changes.query os a false fuel nl_sd id mypid cmd_type tid junk target s
        ≡ GetTaskstats.query os a false fuel nl_sd id mypid cmd_type tid junk target s
  unfolding Changes.query Changes.send_cmd Changes.finish
  query_same fuel nl_sd id mypid cmd_type tid junk target s nonzero =
      let same : Changes.receive os a false fuel nl_sd junk target
          ≡ GetTaskstats.receive os a false fuel nl_sd junk target =
        fun_ext λ s. receive_same fuel nl_sd junk target s in
      rw
        (
          query_lem os a false fuel nl_sd id mypid cmd_type tid junk target,
          ne→== tid 0 nonzero,
          same,
        )
        refl

  -- The code from the socket to the request, around what follows it.
  abbrev talk_around : ℕ → List ℕ → (ℤ → ℕ → ℕ → M S Reported) → M S Reported
  talk_around fuel target next = do
    nl_sd ← Socket.create_nl_socket os a.netlink_generic
    if is_negative nl_sd
        then print_if false Message.socket_failed
          >> finish os a false fuel none nl_sd no_cfd (2, target)
        else (do
          mypid ← call_getpid os
          id ← Family.get_family_id os a fuel nl_sd
          if id == 0
              then (do
                errno ← get_errno os
                print_if false (Message.family_failed errno)
                leave os a false nl_sd no_cfd (3, target))
              else (do printf_dbg false (Message.family_id id); next nl_sd id mypid))

  talk_same :
      (fuel cmd_type tid : ℕ) (junk target : List ℕ) (s : State S)
      → tid ≢ 0
      → Changes.talk os a false fuel cmd_type tid junk target s
        ≡ GetTaskstats.talk os a false fuel cmd_type tid junk target s
  unfolding Changes.talk GetTaskstats.talk Changes.finish finish leave
  talk_same fuel cmd_type tid junk target s nonzero =
      ap (λ next. talk_around fuel target next s)
        (fun_ext λ nl_sd. fun_ext λ id.
          fun_ext
            λ mypid. fun_ext λ t. query_same fuel nl_sd id mypid cmd_type tid junk target t nonzero)

  -- Without debug, `get_taskstats` of so-src/original/changes.c and of so-src/get_taskstats.c do the
  -- same on every system and from every state: they have the same result, leave the same object and
  -- the same globals, and make the same calls and print the same lines in the same order.
  pub get_taskstats_same :
      (fuel pid tgid : ℕ) (target : List ℕ) (target_length : ℤ) (s : State S)
      → Changes.get_taskstats os a false fuel pid tgid target target_length s
        ≡ GetTaskstats.get_taskstats os a false fuel pid tgid target target_length s
  unfolding Changes.get_taskstats GetTaskstats.get_taskstats Changes.finish finish leave ◌>>=◌
  get_taskstats_same fuel pid tgid target target_length s = elim (Bool-cases (pid == 0)) [
    | inr p ↦ rw p (talk_same fuel _ pid _ target _ (λ e. ground arith))
    | inl p ↦ elim (Bool-cases (tgid == 0)) [
      | inr q ↦ rw (p, q) (talk_same fuel _ tgid _ target _ (λ e. ground arith))
      | inl q ↦ rw (p, q) refl
    ]
  ]
