-- ===== src/Reply.antt =====
-- The reply to a taskstats request: the walk over its attributes in `get_taskstats` of
-- so-src/get_taskstats.c, and the copy of the statistics.
pub mod Copy
pub mod Steps
pub mod Stats
pub mod Malformed
pub mod Overrun
use universe_native_linux_in.Common.{
  ℕ, zero, suc, ◌+◌, Bool, true, false, not, ◌||◌, List, ℤ, pos, signed32, ltb_ℤ, ◌==◌,
  if◌then◌else◌,
}
use universe_native_linux_in.Abi.{Abi}
use universe_native_linux_in.Machine.{
  State, M, Run, returns, exits, faults, diverges, pure, diverge, checked, modify, print, print_if,
  arrived_pid, arrived_tgid, unknown_nested, unknown_type, ◌>>=◌, ◌>>◌,
}
use universe_native_linux_in.Machine.Memory.{read, memcpy}
use universe_native_linux_in.Taskstats.{
  get_ts_size_bv, taskstats_type_pid, taskstats_type_tgid, taskstats_type_stats,
  taskstats_type_aggr_pid, taskstats_type_aggr_tgid,
}
use universe_native_linux_in.Netlink.{genlmsg_data, nla_data, nla_payload}

-- The local `loop`, which is 0 and never assigned.
abbrev pub loop : Bool
loop = false

-- How a loop over attributes ends: by `goto done` or by its condition. In this program `A` is the
-- bytes of the caller's object targetTaskStat.
pub data Walk (A : Type 0) : Type 0 where
  goto_done : A → Walk A
  ended : A → Walk A

module _ {S : Type 0} (a : Abi) (debug : Bool) (msg : List ℕ) where
  -- `smart_copy_taskstats(t, to)`, where t points into msg. The version is the member at offset 0.
  unfoldable pub smart_copy_taskstats : ℕ → List ℕ → M S (List ℕ)
  smart_copy_taskstats t to = do
    version ← checked (read a msg t 2)
    checked (memcpy to msg t (get_ts_size_bv version))

  -- The switch on a nested attribute. `count` and `rtid` are locals that are printed at most.
  unfoldable pub nested_attr : ℕ → List ℕ → M S (Walk (List ℕ))
  unfolding smart_copy_taskstats
  nested_attr na target = do
    nla_type ← checked (read a msg (na + a.nla_type_at) 2)
    if nla_type == taskstats_type_pid
        then (do
          rtid ← checked (read a msg (nla_data a na) 4)
          print_if debug (arrived_pid (signed32 rtid))
          pure (ended target))
        else if nla_type == taskstats_type_tgid
        then (do
          rtid ← checked (read a msg (nla_data a na) 4)
          print_if debug (arrived_tgid (signed32 rtid))
          pure (ended target))
        else if nla_type == taskstats_type_stats
        then (do
          modify (λ s. record s { done = 1 })
          copied ← smart_copy_taskstats (nla_data a na) target
          if not loop then pure (goto_done copied) else pure (ended copied))
        else print_if debug (unknown_nested nla_type) >> pure (ended target)

  -- `while (len2 < aggr_len)`. Each round uses up one unit of fuel.
  unfoldable pub walk_nested : ℕ → ℕ → ℕ → ℤ → List ℕ → M S (Walk (List ℕ))
  walk_nested zero na len2 aggr_len target = diverge
  walk_nested (suc fuel) na len2 aggr_len target =
      if ltb_ℤ (pos len2) aggr_len
      then nested_attr na target >>= elim [
        | goto_done copied ↦ pure (goto_done copied)
        | ended target' ↦ do
          nla_len ← checked (read a msg (na + a.nla_len_at) 2)
          let next = len2 + a.nla_align nla_len
          walk_nested fuel (na + next) next aggr_len target'
      ]
      else pure (ended target)

  -- The switch on an attribute of the message.
  unfoldable pub top_attr : ℕ → ℕ → ℕ → List ℕ → M S (Walk (List ℕ))
  top_attr fuel na nla_len target = do
    nla_type ← checked (read a msg (na + a.nla_type_at) 2)
    if nla_type == taskstats_type_aggr_tgid || nla_type == taskstats_type_aggr_pid
        then modify (λ s. record s { done = 0 })
          >> walk_nested fuel (nla_data a na) 0 (nla_payload a nla_len) target
        else if nla_type == a.cgroupstats_type_cgroup_stats
        then pure (ended target)
        else print (unknown_type nla_type) >> pure (ended target)

  -- `while (len < rep_len)`.
  unfoldable pub walk : ℕ → ℕ → ℕ → ℤ → List ℕ → M S (Walk (List ℕ))
  walk zero na len rep_len target = diverge
  walk (suc fuel) na len rep_len target =
      if ltb_ℤ (pos len) rep_len
      then (do
        nla_len ← checked (read a msg (na + a.nla_len_at) 2)
        let next = len + a.nla_align nla_len
        top_attr fuel na nla_len target >>= elim [
          | goto_done copied ↦ pure (goto_done copied)
          | ended target' ↦ walk fuel (genlmsg_data a + next) next rep_len target'
        ])
      else pure (ended target)
