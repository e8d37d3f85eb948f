-- ===== src/Reply/Overrun.antt =====
-- The walk over a reply whose statistics do not fit the caller's object.
use Prim.Native.Nat.add
use universe_native_linux_in.Common.{
  ℕ, suc, ◌+◌, ◌<◌, ◌≡◌, ◌∙◌, Bool, true, none, some, List, ℤ, pos, ltb_ℤ, length, arith,
}
use universe_native_linux_in.Abi.{Abi, IsLinux}
use universe_native_linux_in.Machine.{State, faults, ◌>>=◌}
use universe_native_linux_in.Machine.Memory.{read, memcpy}
use universe_native_linux_in.Taskstats.{get_ts_size_bv, taskstats_type_stats}
use universe_native_linux_in.Taskstats.Size.{get_ts_size_bv_mono}
use universe_native_linux_in.Netlink.{genlmsg_data, nla_data, nla_payload}
use universe_native_linux_in.Reply.{nested_attr, walk_nested, walk, top_attr, smart_copy_taskstats}
use universe_native_linux_in.Reply.Steps.{
  nested_at, second_at, IsStatsReply, inside_payload, nested_id, nested_round, top_aggregate,
}

memcpy_outside : (to from : List ℕ) (i n : ℕ) → length to < n → memcpy to from i n ≡ none
unfolding memcpy
memcpy_outside to from i n h = ground arith

module _ {S : Type 0} (a : Abi) (law : IsLinux a) (debug : Bool) (msg : List ℕ) where
  nested_fault :
      (fuel na len2 version : ℕ) (aggr_len : ℤ) (target : List ℕ) (s : State S)
      → ltb_ℤ (pos len2) aggr_len ≡ true
      → read a msg (na + a.nla_type_at) 2 ≡ some taskstats_type_stats
      → read a msg (nla_data a na) 2 ≡ some version
      → length target < get_ts_size_bv version
      → walk_nested a debug msg (suc fuel) na len2 aggr_len target s ≡ faults
  unfolding walk_nested nested_attr smart_copy_taskstats ◌>>=◌
  nested_fault fuel na len2 version aggr_len target s inside e v h =
      rw (inside, e, v, memcpy_outside target msg (nla_data a na) _ h)

  walk_fault :
      (fuel na len nla_len : ℕ) (rep_len : ℤ) (target : List ℕ) (s : State S)
      → ltb_ℤ (pos len) rep_len ≡ true
      → read a msg (na + a.nla_len_at) 2 ≡ some nla_len
      → top_attr a debug msg fuel na nla_len target s ≡ faults
      → walk a debug msg (suc fuel) na len rep_len target s ≡ faults
  unfolding walk ◌>>=◌
  walk_fault fuel na len nla_len rep_len target s inside e step = rw (inside, e, step)

  -- If the first attribute of a reply holds an id and then statistics, and the caller's object is
  -- smaller than the statistics of that version, the walk of `get_taskstats` accesses memory outside
  -- of an object: nothing compares the size of the caller's object with what is copied to it.
  pub walk_overruns :
      (aggr_type aggr_len id_type id_len version : ℕ)
      → IsStatsReply a msg aggr_type aggr_len id_type id_len version
      → (target : List ℕ) → length target < get_ts_size_bv version
      → (fuel : ℕ) (rep_len : ℤ) (s : State S) → ltb_ℤ (pos 0) rep_len ≡ true
      → walk a debug msg (suc (suc (suc fuel))) (genlmsg_data a) 0 rep_len target s ≡ faults
  walk_overruns aggr_type aggr_len id_type id_len version reply target small fuel rep_len s inside =
      let (t, step, same) =
        nested_id a law debug msg (nested_at a) id_type target (record s { done = 0 })
          reply.id_type_is reply.names_task
          (omega (arith, reply.whole, get_ts_size_bv_mono version version (omega arith))) in
      walk_fault (suc (suc fuel)) (genlmsg_data a) 0 aggr_len rep_len target s inside
        reply.aggr_len_is
        (top_aggregate a law debug msg (suc (suc fuel)) (genlmsg_data a) aggr_len aggr_type target s
            reply.aggr_type_is reply.aggregate
          ∙ nested_round a law debug msg (suc fuel) (nested_at a) 0 id_len (nla_payload a aggr_len)
              target target _ t (inside_payload a 0 aggr_len (omega (arith, reply.room))) step
              reply.id_len_is
          ∙ rw (add.zero (a.nla_align id_len)) (
              nested_fault fuel (second_at a id_len) (a.nla_align id_len) version
                (nla_payload a aggr_len) target t
                (inside_payload a (a.nla_align id_len) aggr_len reply.room) reply.stats_type_is
                reply.version_is small))
