-- ===== src/Reply/Steps.antt =====
-- The steps of the walk over a reply, and the replies that the kernel sends.
use universe_native_linux_in.Common.{
  ℕ, suc, ◌+◌, ◌≤◌, ◌<◌, ◌≡◌, ◌⊎◌, inl, inr, Bool, true, not, some, List, ℤ, pos, ltb_ℤ, signed32,
  length, slice, patch, arith, if◌then◌else◌, ◌==◌,
}
use universe_native_linux_in.Abi.{Abi, IsLinux}
use universe_native_linux_in.Machine.{
  State, returns, note, printed, arrived_pid, arrived_tgid, unknown_nested, unknown_type, Message,
  ◌>>=◌,
}
use universe_native_linux_in.Machine.Memory.{read, read_lem, memcpy_lem}
use universe_native_linux_in.Taskstats.{
  get_ts_size_bv, taskstats_type_pid, taskstats_type_tgid, taskstats_type_stats,
  taskstats_type_aggr_pid, taskstats_type_aggr_tgid,
}
use universe_native_linux_in.Netlink.{genlmsg_data, nla_data, nla_payload}
use universe_native_linux_in.Reply.{
  goto_done, ended, smart_copy_taskstats, nested_attr, walk_nested, top_attr, walk,
}

-- `if (b) printf(...)`, as a change of the state.
abbrev pub say_if : {S : Type 0} → Bool → Message → State S → State S
say_if b m s = if b then note (printed m) s else s

module _ (a : Abi) where
  -- Where the attribute in the first attribute of the message stands, and the one behind it, if the
  -- first is `len` bytes long.
  abbrev pub nested_at : ℕ
  nested_at = nla_data a (genlmsg_data a)

  abbrev pub second_at : ℕ → ℕ
  second_at len = nested_at + a.nla_align len

  -- The copy of statistics that start at t.
  abbrev pub copied_from : List ℕ → ℕ → ℕ → List ℕ → List ℕ
  copied_from msg t version target = patch 0 (slice t (get_ts_size_bv version) msg) target

  -- A reply as the kernel builds it: an AGGR attribute that holds the id and then the statistics.
  pub record IsStatsReply (msg : List ℕ) (aggr_type aggr_len id_type id_len version : ℕ)
      : Type 0 where
    pub aggr_len_is : read a msg (genlmsg_data a + a.nla_len_at) 2 ≡ some aggr_len
    pub aggr_type_is : read a msg (genlmsg_data a + a.nla_type_at) 2 ≡ some aggr_type
    pub aggregate : (aggr_type ≡ taskstats_type_aggr_tgid) ⊎ (aggr_type ≡ taskstats_type_aggr_pid)
    pub id_len_is : read a msg (nested_at + a.nla_len_at) 2 ≡ some id_len
    pub id_type_is : read a msg (nested_at + a.nla_type_at) 2 ≡ some id_type
    pub names_task : (id_type ≡ taskstats_type_pid) ⊎ (id_type ≡ taskstats_type_tgid)
    pub room : a.nla_hdrlen + a.nla_align id_len < aggr_len
    pub stats_type_is : read a msg (second_at id_len + a.nla_type_at) 2 ≡ some taskstats_type_stats
    pub version_is : read a msg (nla_data a (second_at id_len)) 2 ≡ some version
    pub whole : nla_data a (second_at id_len) + get_ts_size_bv version ≤ length msg

pub inside_payload :
    (a : Abi) (len nla_len : ℕ)
    → a.nla_hdrlen + len < nla_len
    → ltb_ℤ (pos len) (nla_payload a nla_len) ≡ true
inside_payload a len nla_len h = ground arith

module _ {S : Type 0} (a : Abi) (law : IsLinux a) (debug : Bool) (msg : List ℕ) where
  pub nested_stats :
      (na version : ℕ) (target : List ℕ) (s : State S)
      → read a msg (na + a.nla_type_at) 2 ≡ some taskstats_type_stats
      → read a msg (nla_data a na) 2 ≡ some version
      → nla_data a na + get_ts_size_bv version ≤ length msg
      → get_ts_size_bv version ≤ length target
      → nested_attr a debug msg na target s
        ≡ returns
            (goto_done (copied_from a msg (nla_data a na) version target))
            (record s { done = 1 })
  unfolding nested_attr smart_copy_taskstats ◌>>=◌
  nested_stats na version target s e v h k = rw (e, v, memcpy_lem target msg (nla_data a na) _ h k)

  -- An id is printed at most.
  pub nested_id :
      (na id_type : ℕ) (target : List ℕ) (s : State S)
      → read a msg (na + a.nla_type_at) 2 ≡ some id_type
      → (id_type ≡ taskstats_type_pid) ⊎ (id_type ≡ taskstats_type_tgid)
      → nla_data a na + 4 ≤ length msg
      → (t : State S) × (nested_attr a debug msg na target s ≡ returns (ended target) t)
        × (t.os ≡ s.os)
  unfolding nested_attr ◌>>=◌
  nested_id na id_type target s e (inl p) h = (
    say_if debug (arrived_pid (signed32 (a.order.get (slice (nla_data a na) 4 msg)))) s,
    rw (e, p, read_lem a msg (nla_data a na) 4 h) (ground arith),
    ground arith,
  )
  nested_id na id_type target s e (inr p) h = (
    say_if debug (arrived_tgid (signed32 (a.order.get (slice (nla_data a na) 4 msg)))) s,
    rw (e, p, read_lem a msg (nla_data a na) 4 h) (ground arith),
    ground arith,
  )

  -- A round that does not leave moves na by all of len2, not by the length of the last attribute.
  pub nested_round :
      (fuel na len2 nla_len : ℕ) (aggr_len : ℤ) (target target' : List ℕ) (s t : State S)
      → ltb_ℤ (pos len2) aggr_len ≡ true
      → nested_attr a debug msg na target s ≡ returns (ended target') t
      → read a msg (na + a.nla_len_at) 2 ≡ some nla_len
      → walk_nested a debug msg (suc fuel) na len2 aggr_len target s
        ≡ walk_nested a debug msg fuel
            (na + (len2 + a.nla_align nla_len))
            (len2 + a.nla_align nla_len)
            aggr_len
            target'
            t
  unfolding walk_nested ◌>>=◌
  nested_round fuel na len2 nla_len aggr_len target target' s t inside step e = rw (inside, step, e)

  pub nested_other :
      (na nla_type : ℕ) (target : List ℕ) (s : State S)
      → read a msg (na + a.nla_type_at) 2 ≡ some nla_type
      → taskstats_type_stats < nla_type
      → nested_attr a debug msg na target s
        ≡ returns (ended target) (say_if debug (unknown_nested nla_type) s)
  unfolding nested_attr ◌>>=◌
  nested_other na nla_type target s e h = rw e (ground arith)

  pub nested_leave :
      (fuel na len2 : ℕ) (aggr_len : ℤ) (target copied : List ℕ) (s t : State S)
      → ltb_ℤ (pos len2) aggr_len ≡ true
      → nested_attr a debug msg na target s ≡ returns (goto_done copied) t
      → walk_nested a debug msg (suc fuel) na len2 aggr_len target s ≡ returns (goto_done copied) t
  unfolding walk_nested ◌>>=◌
  nested_leave fuel na len2 aggr_len target copied s t inside step = rw (inside, step)

  -- An AGGR attribute is walked from its data on, with the global `done` cleared.
  pub top_aggregate :
      (fuel na nla_len aggr_type : ℕ) (target : List ℕ) (s : State S)
      → read a msg (na + a.nla_type_at) 2 ≡ some aggr_type
      → (aggr_type ≡ taskstats_type_aggr_tgid) ⊎ (aggr_type ≡ taskstats_type_aggr_pid)
      → top_attr a debug msg fuel na nla_len target s
        ≡ walk_nested a debug msg fuel
            (nla_data a na)
            0
            (nla_payload a nla_len)
            target
            (record s { done = 0 })
  unfolding top_attr ◌>>=◌
  top_aggregate fuel na nla_len aggr_type target s e (inl p) = rw (e, p)
  top_aggregate fuel na nla_len aggr_type target s e (inr p) = rw (e, p)

  pub walk_leave :
      (fuel na len nla_len : ℕ) (rep_len : ℤ) (target copied : List ℕ) (s t : State S)
      → ltb_ℤ (pos len) rep_len ≡ true
      → read a msg (na + a.nla_len_at) 2 ≡ some nla_len
      → top_attr a debug msg fuel na nla_len target s ≡ returns (goto_done copied) t
      → walk a debug msg (suc fuel) na len rep_len target s ≡ returns (goto_done copied) t
  unfolding walk ◌>>=◌
  walk_leave fuel na len nla_len rep_len target copied s t inside e step = rw (inside, e, step)

  -- An attribute of an unknown type, or of cgroup statistics.
  pub top_other :
      (fuel na nla_len nla_type : ℕ) (target : List ℕ) (s : State S)
      → read a msg (na + a.nla_type_at) 2 ≡ some nla_type
      → taskstats_type_aggr_tgid < nla_type
      → (t : State S) × (top_attr a debug msg fuel na nla_len target s ≡ returns (ended target) t)
  unfolding top_attr ◌>>=◌
  top_other fuel na nla_len nla_type target s e h = (
    say_if (not (nla_type == a.cgroupstats_type_cgroup_stats)) (unknown_type nla_type) s,
    rw e (ground arith),
  )

  pub walk_on :
      (fuel na len nla_len : ℕ) (rep_len : ℤ) (target target' : List ℕ) (s t : State S)
      → ltb_ℤ (pos len) rep_len ≡ true
      → read a msg (na + a.nla_len_at) 2 ≡ some nla_len
      → top_attr a debug msg fuel na nla_len target s ≡ returns (ended target') t
      → walk a debug msg (suc fuel) na len rep_len target s
        ≡ walk a debug msg fuel
            (genlmsg_data a + (len + a.nla_align nla_len))
            (len + a.nla_align nla_len)
            rep_len
            target'
            t
  unfolding walk ◌>>=◌
  walk_on fuel na len nla_len rep_len target target' s t inside e step = rw (inside, e, step)
