-- ===== src/Reply/Stats.antt =====
-- The walk over a reply that holds statistics.
use Prim.Native.Nat.add
use universe_native_linux_in.Common.{
  ℕ, suc, ◌≤◌, ◌≡◌, refl, ◌∙◌, Bool, true, List, ℤ, pos, ltb_ℤ, length, arith,
}
use universe_native_linux_in.Abi.{Abi, IsLinux}
use universe_native_linux_in.Machine.{State, returns}
use universe_native_linux_in.Taskstats.{get_ts_size_bv}
use universe_native_linux_in.Taskstats.Size.{get_ts_size_bv_mono}
use universe_native_linux_in.Netlink.{genlmsg_data, nla_data, nla_payload}
use universe_native_linux_in.Reply.{goto_done, walk_nested, walk}
use universe_native_linux_in.Reply.Steps.{
  nested_at, second_at, copied_from, IsStatsReply, inside_payload, nested_stats, nested_id,
  nested_round, nested_leave, top_aggregate, walk_leave,
}

module _ {S : Type 0} (a : Abi) (law : IsLinux a) (debug : Bool) (msg : List ℕ) where
  module _ (aggr_type aggr_len id_type id_len version : ℕ)
      (reply : IsStatsReply a msg aggr_type aggr_len id_type id_len version) (target : List ℕ)
      (holds : get_ts_size_bv version ≤ length target) where
    nested_walk :
        (fuel : ℕ) (s : State S)
        → (t : State S) × (walk_nested a debug msg
              (suc (suc fuel))
              (nested_at a)
              0
              (nla_payload a aggr_len)
              target
              s
            ≡ returns
                (goto_done (copied_from a msg (nla_data a (second_at a id_len)) version target))
                t)
          × (t.done ≡ 1)
          × (t.os ≡ s.os)
    nested_walk fuel s =
        let (t, step, same) =
          nested_id a law debug msg (nested_at a) id_type target s reply.id_type_is reply.names_task
            (omega (arith, reply.whole, get_ts_size_bv_mono version version (omega arith))) in
        (
          record t { done = 1 },
          nested_round a law debug msg (suc fuel) (nested_at a) 0 id_len (nla_payload a aggr_len)
                target target s t (inside_payload a 0 aggr_len (omega (arith, reply.room))) step
                reply.id_len_is
              ∙ rw (add.zero (a.nla_align id_len)) (
                  nested_leave a law debug msg fuel (second_at a id_len) (a.nla_align id_len)
                    (nla_payload a aggr_len) target _ t (record t { done = 1 })
                    (inside_payload a (a.nla_align id_len) aggr_len reply.room)
                    (nested_stats a law debug msg (second_at a id_len) version target t
                      reply.stats_type_is reply.version_is reply.whole holds)),
          refl,
          same,
        )

    -- If the first attribute of a reply holds an id and then statistics, the message holds as many
    -- bytes of these as their version has, and the caller's object can take them, then three rounds
    -- are enough for the walk of `get_taskstats`: it leaves by `goto done` with these bytes over the
    -- start of the caller's object and the rest of the object unchanged, and `done` is 1.
    pub walk_stats :
        (fuel : ℕ) (rep_len : ℤ) (s : State S)
        → ltb_ℤ (pos 0) rep_len ≡ true
        → (t : State S) × (walk a debug msg
              (suc (suc (suc fuel)))
              (genlmsg_data a)
              0
              rep_len
              target
              s
            ≡ returns
                (goto_done (copied_from a msg (nla_data a (second_at a id_len)) version target))
                t)
          × (t.done ≡ 1)
          × (t.os ≡ s.os)
    walk_stats fuel rep_len s inside =
        let (t, run, done, same) = nested_walk fuel (record s { done = 0 }) in
        (
          t,
          walk_leave a law debug msg (suc (suc fuel)) (genlmsg_data a) 0 aggr_len rep_len target _ s
              t inside reply.aggr_len_is
              (top_aggregate a law debug msg (suc (suc fuel)) (genlmsg_data a) aggr_len aggr_type
                  target s reply.aggr_type_is reply.aggregate
                ∙ run),
          done,
          same,
        )
