-- ===== src/Reply/Malformed.antt =====
-- The walk over replies that the kernel does not send today.
use Prim.Native.Nat.add
use native.Mathlib.Nat.{add-zero}
use universe_native_linux_in.Common.{
  ℕ, zero, suc, ◌+◌, ◌≤◌, ◌<◌, ◌≡◌, refl, ap, ◌∙◌, ◌⊎◌, Bool, true, some, List, ℤ, pos, ltb_ℤ,
  length, arith,
}
use universe_native_linux_in.Abi.{Abi, IsLinux}
use universe_native_linux_in.Machine.{State, diverges, unknown_nested, ◌>>=◌}
use universe_native_linux_in.Machine.Memory.{read}
use universe_native_linux_in.Taskstats.{
  taskstats_type_pid, taskstats_type_tgid, taskstats_type_stats, taskstats_type_aggr_tgid,
}
use universe_native_linux_in.Netlink.{genlmsg_data, nla_data}
use universe_native_linux_in.Reply.{walk_nested, walk}
use universe_native_linux_in.Reply.Steps.{
  say_if, nested_at, second_at, nested_id, nested_round, nested_other, top_other, walk_on,
}

module _ {S : Type 0} (a : Abi) (law : IsLinux a) (debug : Bool) (msg : List ℕ) where
  -- The loop over nested attributes adds the sum of all lengths so far to its pointer. Behind an id
  -- and an attribute of a type above TASKSTATS_TYPE_STATS, both of them begun within the aggregate,
  -- it looks for the third attribute too far on, by the aligned length of the first one: not behind
  -- the second attribute.
  pub third_attr_missed :
      (fuel id_type id_len other_type other_len : ℕ) (aggr_len : ℤ) (target : List ℕ) (s : State S)
      → read a msg (nested_at a + a.nla_type_at) 2 ≡ some id_type
      → read a msg (nested_at a + a.nla_len_at) 2 ≡ some id_len
      → (id_type ≡ taskstats_type_pid) ⊎ (id_type ≡ taskstats_type_tgid)
      → nla_data a (nested_at a) + 4 ≤ length msg
      → read a msg (second_at a id_len + a.nla_type_at) 2 ≡ some other_type
      → read a msg (second_at a id_len + a.nla_len_at) 2 ≡ some other_len
      → taskstats_type_stats < other_type
      → ltb_ℤ (pos 0) aggr_len ≡ true
      → ltb_ℤ (pos (a.nla_align id_len)) aggr_len ≡ true
      → (t : State S) × (walk_nested a debug msg (suc (suc fuel)) (nested_at a) 0 aggr_len target s
          ≡ walk_nested a debug msg fuel
              ((second_at a id_len + a.nla_align other_len) + a.nla_align id_len)
              (a.nla_align id_len + a.nla_align other_len)
              aggr_len
              target
              t)
  third_attr_missed fuel id_type id_len other_type other_len aggr_len target s ty l named h ty' l'
        other in1 in2 =
      let (t, step, same) = nested_id a law debug msg (nested_at a) id_type target s ty named h in
      let t' : State S = say_if debug (unknown_nested other_type) t in
      (
        t',
        nested_round a law debug msg (suc fuel) (nested_at a) 0 id_len aggr_len target target s t
              in1 step l
            ∙ rw (add.zero (a.nla_align id_len)) (
                nested_round a law debug msg fuel (second_at a id_len) (a.nla_align id_len)
                  other_len aggr_len target target t t' in2
                  (nested_other a law debug msg (second_at a id_len) other_type target t ty' other)
                  l'
                ∙ ap
                    (λ p.
                      walk_nested a debug msg fuel p (a.nla_align id_len + a.nla_align other_len)
                        aggr_len target t')
                    (omega arith)),
      )

  -- A message whose first attribute is of an unknown type and has nla_len 0 holds the walk of
  -- `get_taskstats` for ever: it uses up any number of rounds.
  pub walk_spins :
      (fuel nla_type : ℕ) (rep_len : ℤ) (target : List ℕ) (s : State S)
      → ltb_ℤ (pos 0) rep_len ≡ true
      → read a msg (genlmsg_data a + a.nla_len_at) 2 ≡ some 0
      → read a msg (genlmsg_data a + a.nla_type_at) 2 ≡ some nla_type
      → taskstats_type_aggr_tgid < nla_type
      → walk a debug msg fuel (genlmsg_data a) 0 rep_len target s ≡ diverges
  unfolding walk ◌>>=◌
  walk_spins zero nla_type rep_len target s inside l ty other = refl
  walk_spins (suc fuel) nla_type rep_len target s inside l ty other =
      let (t, step) =
        top_other a law debug msg fuel (genlmsg_data a) 0 nla_type target s ty other in
      let zero_step : 0 + a.nla_align 0 ≡ 0 = omega (arith, law.nla_align 0) in
      walk_on a law debug msg fuel (genlmsg_data a) 0 0 rep_len target target s t inside l step
      ∙ rw (zero_step, add-zero) (walk_spins fuel nla_type rep_len target t inside l ty other)
