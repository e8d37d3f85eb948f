-- ===== src/Original/Loops/Ends.antt =====
-- The walks over a message end.
use mathlib.Core.Path.{subst}
use universe_native_linux_in.Common.{
  ℕ, ◌+◌, ◌*◌, ◌≡◌, ◌≤◌, ◌<◌, inl, inr, ap, ◌∙◌, refl, Bool, true, List, ℤ, pos, pos_part, ltb_ℤ,
  ◌||◌, ◌==◌, arith,
}
use universe_native_linux_in.Abi.{Abi, IsLinux}
use universe_native_linux_in.Machine.{State, diverges}
use universe_native_linux_in.Machine.Stops.{
  Stops, stops_if, stops_then, stops_step, stops_read, weaken, stop_rules,
}
use universe_native_linux_in.Machine.Ensures.{
  Ensures, ensures_pure, ensures_if, ensures_then, ensures_read,
}
use universe_native_linux_in.Machine.Memory.{read-lt}
use universe_native_linux_in.Netlink.{genlmsg_data, nla_data, nla_payload}
use universe_native_linux_in.Taskstats.{
  taskstats_type_pid, taskstats_type_tgid, taskstats_type_stats, taskstats_type_aggr_pid,
  taskstats_type_aggr_tgid,
}
use universe_native_linux_in.Reply
use universe_native_linux_in.Reply.{Walk, goto_done, ended}
use universe_native_linux_in.Original.Loops.Endless.{
  HasLength, HasType, NoStats, NestedEmpty, TopAt, top_first, nested_first, HasEmpty,
  nested_loop-Stops, attr_loop-Stops,
}
use universe_native_linux_in.Original.Loops.Library.{nested_loop_same, attr_loop_same}

-- An attribute has less than this many words of four bytes.
abbrev pub words : ℕ
words = 16384

pub length_small :
    (a : Abi) (law : IsLinux a) (msg : List ℕ) (na nla_len : ℕ)
    → HasLength a msg na nla_len
    → nla_len ≤ 4 * words
length_small a law msg na nla_len e = omega (arith, read-lt a law.order msg (na + a.nla_len_at) 2 e)

pub payload_fits : (a : Abi) (n small : ℕ) → n ≤ 4 * small → pos_part (nla_payload a n) ≤ 4 * small
payload_fits a n small h = ground arith

-- What is known of a nested attribute when the switch has dealt with it.
abbrev pub Passes : {A : Type 0} → Abi → List ℕ → ℕ → Walk A → Type 0
Passes a msg na (goto_done t) = Unit {0}
Passes a msg na (ended t) = NoStats a msg na

module _ {S : Type 0} (a : Abi) (law : IsLinux a) (debug : Bool) (msg : List ℕ) where
  nested_attr-Stops :
      {Z : Type 0} (na : ℕ) (target : List ℕ)
      → Stops {S = S} (Reply.nested_attr a debug msg na target) Z
  unfolding Reply.nested_attr
  nested_attr-Stops na target = search stop_rules depth 30 fits 6000

  nested_attr-Passes :
      (na : ℕ) (target : List ℕ)
      → Ensures {S = S} (Reply.nested_attr a debug msg na target) (λ w _. Passes a msg na w)
  unfolding Reply.nested_attr
  nested_attr-Passes na target = ensures_read _ λ nla_type e.
      ensures_if (nla_type == taskstats_type_pid)
        (λ is.
          ensures_then _ λ rtid. ensures_then _ λ _. ensures_pure λ s. (nla_type, e, ground arith))
        (λ _.
          ensures_if (nla_type == taskstats_type_tgid)
            (λ is.
              ensures_then _
                λ rtid. ensures_then _ λ _. ensures_pure λ s. (nla_type, e, ground arith))
            (λ _.
              ensures_if (nla_type == taskstats_type_stats)
                (λ _. ensures_then _ λ _. ensures_then _ λ copied. ensures_pure λ s. tt)
                (λ no. ensures_then _ λ _. ensures_pure λ s. (nla_type, e, ground arith))))

  walk_nested-Stops :
      (fuel na nla_len : ℕ) (target : List ℕ)
      → HasLength a msg na nla_len
      → words < fuel
      → (nla_type : ℕ) → HasType a msg na nla_type
      → (nla_type == taskstats_type_aggr_tgid || nla_type == taskstats_type_aggr_pid) ≡ true
      → Stops {S = S}
          (Reply.walk_nested a debug msg fuel (nla_data a na) 0 (nla_payload a nla_len) target)
          (NestedEmpty a msg na nla_len)
  walk_nested-Stops fuel na nla_len target e more nla_type ty aggr =
      subst
        (λ l.
          Stops (l (nla_data a na) 0 (nla_payload a nla_len) target) (NestedEmpty a msg na nla_len))
        (nested_loop_same {S = S} a debug msg fuel)
        (nested_loop-Stops a law msg (Reply.nested_attr a debug msg) nested_attr-Stops
          (λ na' t t' s u went. (nested_attr-Passes na' t).holds s (ended t') u went) na
          (nla_payload a nla_len)
          (λ na' len2 here inside passed nil. record {
            nla_type = nla_type;
            type_is = ty;
            aggregate = aggr;
            na = na';
            len2 = len2;
            place = here;
            inside = inside;
            passed = passed;
            empty = nil;
          })
          fuel words (nla_data a na) 0 target nested_first more
          (omega (arith, payload_fits a nla_len words (length_small a law msg na nla_len e))))

  top_attr-Stops :
      (rep_len : ℤ) (fuel na len nla_len : ℕ) (target : List ℕ)
      → TopAt a msg rep_len na len
      → ltb_ℤ (pos len) rep_len ≡ true
      → HasLength a msg na nla_len
      → words < fuel
      → Stops {S = S} (Reply.top_attr a debug msg fuel na nla_len target) (HasEmpty a msg rep_len)
  unfolding Reply.top_attr
  top_attr-Stops rep_len fuel na len nla_len target at inside e more = stops_read _ λ nla_type ty.
      stops_if (nla_type == taskstats_type_aggr_tgid || nla_type == taskstats_type_aggr_pid)
        (λ aggr. stops_then (stops_step _ _) λ _.
          weaken
            (λ nested. record {
              na = na;
              len = len;
              nla_len = nla_len;
              place = at;
              inside = inside;
              length_is = e;
              empty = inr nested;
            })
            (walk_nested-Stops fuel na nla_len target e more nla_type ty aggr))
        (λ _.
          stops_if (nla_type == a.cgroupstats_type_cgroup_stats) (λ _. stops_step _ _)
            (λ _. stops_then (stops_step _ _) λ _. stops_step _ _))

  -- The walk of `get_taskstats` over a message, with rounds for rep_len bytes and for an aggregate of
  -- any size, of which four bytes make one round: when it has not ended then, it has come to an
  -- attribute with nla_len 0.
  pub walk-HasEmpty :
      (fuel room : ℕ) (rep_len : ℤ) (target : List ℕ) (s : State S)
      → room + words + 1 < fuel
      → pos_part rep_len ≤ 4 * room
      → Reply.walk a debug msg fuel (genlmsg_data a) 0 rep_len target s ≡ diverges
      → HasEmpty a msg rep_len
  walk-HasEmpty fuel room rep_len target s more fits h =
      (attr_loop-Stops a law msg words (length_small a law msg) (Reply.top_attr a debug msg) rep_len
          (top_attr-Stops rep_len)
          (λ na len at inside nil. record {
            na = na;
            len = len;
            nla_len = 0;
            place = at;
            inside = inside;
            length_is = nil;
            empty = inl refl;
          })
          fuel room (genlmsg_data a) 0 target top_first more (omega arith)).holds
        s
        (ap (λ l. l (genlmsg_data a) 0 rep_len target s) (attr_loop_same {S = S} a debug msg fuel)
          ∙ h)
