-- ===== src/GetTaskstats/Traces.antt =====
-- What the calls of `get_taskstats` leave alone of the trace.
use universe_native_linux_in.Common.{
  ℕ, zero, suc, ◌≡◌, ◌⊎◌, inl, inr, refl, Bool, true, false, Option, none, some, List, [], ◌∷◌, ℤ,
  pos, negsuc, is_negative, is_positive, ltb_ℤ, length, ◌==◌, not, ◌||◌,
}
use universe_native_linux_in.Abi.{Abi}
use universe_native_linux_in.Machine.{
  Os, M, Message, Event, opened, configured, bound, closed, sent, received, opened_file, wrote,
  printed, print, print_if, pure,
}
use universe_native_linux_in.Machine.Triple.{
  Triple, Keeps, triple_step, triple_if, triple_bind, triple_then, checked-Keeps, diverge-Keeps,
}
use universe_native_linux_in.Taskstats.{
  taskstats_type_pid, taskstats_type_tgid, taskstats_type_stats, taskstats_type_aggr_pid,
  taskstats_type_aggr_tgid,
}
use universe_native_linux_in.Netlink.Socket.{is_nonzero, set_rcvbuf, create_nl_socket}
use universe_native_linux_in.Netlink.Send.{after_sendto, send_loop, send_cmd}
use universe_native_linux_in.Netlink.Family.{family_of_answer, get_family_id}
use universe_native_linux_in.Reply.{
  Walk, goto_done, ended, smart_copy_taskstats, nested_attr, walk_nested, top_attr, walk,
}
use universe_native_linux_in.GetTaskstats.Labels.{printf_dbg}

-- What the last call of socket gave.
abbrev pub opened_by : List Event → Option ℤ
opened_by [] = none
opened_by (opened fd ∷ rest) = some fd
opened_by (configured fd r ∷ rest) = opened_by rest
opened_by (bound fd r ∷ rest) = opened_by rest
opened_by (closed fd ∷ rest) = opened_by rest
opened_by (sent fd bytes r ∷ rest) = opened_by rest
opened_by (received fd r bytes ∷ rest) = opened_by rest
opened_by (opened_file path r ∷ rest) = opened_by rest
opened_by (wrote fd bytes r ∷ rest) = opened_by rest
opened_by (printed m ∷ rest) = opened_by rest

-- The descriptor and the bytes of the last recv.
abbrev pub last_received : List Event → Option (ℤ × List ℕ)
last_received [] = none
last_received (received fd r bytes ∷ rest) = some (fd, bytes)
last_received (opened fd ∷ rest) = last_received rest
last_received (configured fd r ∷ rest) = last_received rest
last_received (bound fd r ∷ rest) = last_received rest
last_received (closed fd ∷ rest) = last_received rest
last_received (sent fd bytes r ∷ rest) = last_received rest
last_received (opened_file path r ∷ rest) = last_received rest
last_received (wrote fd bytes r ∷ rest) = last_received rest
last_received (printed m ∷ rest) = last_received rest

pure-Keeps : {S A : Type 0} {P : List Event → Type 0} {v : A} → Keeps {S = S} P (pure v)
pure-Keeps = triple_step λ s p. p

pub triple_walk :
    {S A B : Type 0} {P : List Event → Type 0} {Q : B → List Event → Type 0} (w : Walk A)
    {f g : A → M S B}
    → ((t : A) → Triple P (f t) Q)
    → ((t : A) → Triple P (g t) Q)
    → Triple P (elim w [ goto_done t ↦ f t | ended t ↦ g t ]) Q
triple_walk (goto_done t) left on = left t
triple_walk (ended t) left on = on t

-- Printing, and the walk, keep each fact that no printed line changes.
module _ {S : Type 0} (P : List Event → Type 0)
    (lines : (m : Message) (trace : List Event) → P trace → P (printed m ∷ trace)) where
  pub print-Keeps : (m : Message) → Keeps {S = S} P (print m)
  print-Keeps m = triple_step λ s p. lines m s.trace p

  pub print_if-Keeps : (b : Bool) (m : Message) → Keeps {S = S} P (print_if b m)
  print_if-Keeps true m = print-Keeps m
  print_if-Keeps false m = triple_step λ s p. p

  pub printf_dbg-Keeps : (debug : Bool) (m : Message) → Keeps {S = S} P (printf_dbg debug m)
  printf_dbg-Keeps debug m =
      triple_then (triple_step λ s p. p) λ dbg. print_if-Keeps (dbg || debug) m

  module _ (a : Abi) (debug : Bool) (msg : List ℕ) where
    nested_attr-Keeps :
        (na : ℕ) (target : List ℕ) → Keeps {S = S} P (nested_attr a debug msg na target)
    unfolding nested_attr smart_copy_taskstats
    nested_attr-Keeps na target = triple_then (checked-Keeps _) λ nla_type.
        triple_if (nla_type == taskstats_type_pid)
          (λ _.
            triple_then (checked-Keeps _)
              λ rtid. triple_then (print_if-Keeps debug _) λ _. pure-Keeps)
          (λ _.
            triple_if (nla_type == taskstats_type_tgid)
              (λ _.
                triple_then (checked-Keeps _)
                  λ rtid. triple_then (print_if-Keeps debug _) λ _. pure-Keeps)
              (λ _.
                triple_if (nla_type == taskstats_type_stats)
                  (λ _. triple_then (triple_step λ s p. p) λ _.
                    triple_then (triple_then (checked-Keeps _) λ version. checked-Keeps _)
                      λ copied. pure-Keeps)
                  (λ _. triple_then (print_if-Keeps debug _) λ _. pure-Keeps)))

    walk_nested-Keeps :
        (fuel na len2 : ℕ) (aggr_len : ℤ) (target : List ℕ)
        → Keeps {S = S} P (walk_nested a debug msg fuel na len2 aggr_len target)
    unfolding walk_nested
    walk_nested-Keeps zero na len2 aggr_len target = diverge-Keeps
    walk_nested-Keeps (suc fuel) na len2 aggr_len target =
        triple_if (ltb_ℤ (pos len2) aggr_len)
          (λ _. triple_then (nested_attr-Keeps na target) λ w.
            triple_walk w (λ t. pure-Keeps)
              λ t. triple_then (checked-Keeps _) λ nla_len. walk_nested-Keeps fuel _ _ aggr_len t)
          (λ _. pure-Keeps)

    top_attr-Keeps :
        (fuel na nla_len : ℕ) (target : List ℕ)
        → Keeps {S = S} P (top_attr a debug msg fuel na nla_len target)
    unfolding top_attr
    top_attr-Keeps fuel na nla_len target = triple_then (checked-Keeps _) λ nla_type.
        triple_if (nla_type == taskstats_type_aggr_tgid || nla_type == taskstats_type_aggr_pid)
          (λ _. triple_then (triple_step λ s p. p) λ _. walk_nested-Keeps fuel _ _ _ target)
          (λ _.
            triple_if (nla_type == a.cgroupstats_type_cgroup_stats) (λ _. pure-Keeps)
              (λ _. triple_then (print-Keeps _) λ _. pure-Keeps))

    pub walk-Keeps :
        (fuel na len : ℕ) (rep_len : ℤ) (target : List ℕ)
        → Keeps {S = S} P (walk a debug msg fuel na len rep_len target)
    unfolding walk
    walk-Keeps zero na len rep_len target = diverge-Keeps
    walk-Keeps (suc fuel) na len rep_len target =
        triple_if (ltb_ℤ (pos len) rep_len)
          (λ _. triple_then (checked-Keeps _) λ nla_len.
            triple_then (top_attr-Keeps fuel na nla_len target)
              λ w. triple_walk w (λ t. pure-Keeps) λ t. walk-Keeps fuel _ _ rep_len t)
          (λ _. pure-Keeps)

-- What is known of the descriptor, whatever is sent, received and printed.
module _ {S : Type 0} (os : Os S) (a : Abi) (fd : ℤ) where
  abbrev pub Opened : List Event → Type 0
  Opened trace = opened_by trace ≡ some fd

  send_loop-Keeps : (fuel : ℕ) (sd : ℤ) (left : List ℕ) → Keeps Opened (send_loop os a fuel sd left)
  unfolding send_loop after_sendto
  send_loop-Keeps zero sd left = diverge-Keeps
  send_loop-Keeps (suc fuel) sd left = triple_then (triple_step λ s p. p) λ r.
      triple_then (triple_step λ s p. p) λ errno.
        triple_if (not (ltb_ℤ r (pos (length left)))) (λ _. pure-Keeps)
          (λ _.
            triple_if (is_positive r) (λ _. send_loop-Keeps fuel sd _)
              (λ _.
                triple_if (not (errno == a.eagain)) (λ _. pure-Keeps)
                  (λ _. send_loop-Keeps fuel sd left)))

  pub send_cmd-Keeps :
      (fuel : ℕ) (sd : ℤ) (nlmsg_type nlmsg_pid genl_cmd nla_type : ℕ) (bytes : List ℕ)
      → Keeps Opened (send_cmd os a fuel sd nlmsg_type nlmsg_pid genl_cmd nla_type bytes)
  unfolding send_cmd
  send_cmd-Keeps fuel sd nlmsg_type nlmsg_pid genl_cmd nla_type bytes =
      triple_then (triple_step λ s p. p) λ junk. triple_then (checked-Keeps _) λ msg.
        triple_then (checked-Keeps _)
          λ buflen. triple_then (checked-Keeps _) λ buf. send_loop-Keeps fuel sd buf

  family_of_answer-Keeps :
      (ans : List ℕ) (rep_len : ℤ) → Keeps Opened (family_of_answer os a ans rep_len)
  unfolding family_of_answer
  family_of_answer-Keeps ans rep_len = triple_then (checked-Keeps _) λ nlmsg_type.
      triple_then (checked-Keeps _) λ nlmsg_len.
        triple_if
          (nlmsg_type == a.nlmsg_error || is_negative rep_len || not (a.nlmsg_ok nlmsg_len rep_len))
          (λ _. pure-Keeps)
          (λ _. triple_then (checked-Keeps _) λ nla_len. triple_then (checked-Keeps _) λ nla_type.
            triple_if (nla_type == a.ctrl_attr_family_id) (λ _. checked-Keeps _) (λ _. pure-Keeps))

  pub get_family_id-Keeps : (fuel : ℕ) (sd : ℤ) → Keeps Opened (get_family_id os a fuel sd)
  unfolding get_family_id
  get_family_id-Keeps fuel sd = triple_then (triple_step λ s p. p) λ junk.
      triple_then (triple_step λ s p. p) λ _. triple_then (triple_step λ s p. p) λ name.
        triple_then (triple_step λ s p. p) λ pid.
          triple_then (send_cmd-Keeps fuel sd _ _ _ _ _) λ rc.
            triple_then (triple_step λ s p. p) λ (rep_len, bytes). family_of_answer-Keeps _ rep_len

  set_rcvbuf-Keeps : (sd : ℤ) → Keeps Opened (set_rcvbuf os sd)
  unfolding set_rcvbuf
  set_rcvbuf-Keeps sd = triple_then (triple_step λ s p. p) λ n.
      triple_if (is_nonzero n)
        (λ _. triple_then (triple_step λ s p. p) λ r.
          triple_if (is_negative r) (λ _. triple_then (triple_step λ s p. p) λ _. pure-Keeps)
            (λ _. pure-Keeps))
        (λ _. pure-Keeps)

-- `create_nl_socket` returns -1, or the descriptor that socket gave.
abbrev pub IsDescriptor : ℤ → List Event → Type 0
IsDescriptor fd trace = (fd ≡ negsuc 0) ⊎ ((is_negative fd ≡ false) × (opened_by trace ≡ some fd))

pub create_nl_socket-IsDescriptor :
    {S : Type 0} (os : Os S) (a : Abi) (protocol : ℕ)
    → Triple (λ _. Unit {0}) (create_nl_socket os protocol) IsDescriptor
unfolding create_nl_socket
create_nl_socket-IsDescriptor os a protocol =
    triple_bind {R = λ fd trace. opened_by trace ≡ some fd} (triple_step λ s p. refl) λ fd.
      triple_if (is_negative fd) (λ _. triple_step λ s p. inl refl)
        (λ good. triple_then (set_rcvbuf-Keeps os a fd fd) λ set.
          triple_if set
            (λ _. triple_then (triple_step λ s p. p) λ r.
              triple_if (is_negative r)
                (λ _. triple_then (triple_step λ s p. p) λ _. triple_step λ s p. inl refl)
                (λ _. triple_step λ s p. inr (good, p)))
            (λ _. triple_step λ s p. inl refl))
