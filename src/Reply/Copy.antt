-- ===== src/Reply/Copy.antt =====
-- What the walk over a reply can do to the caller's object: nothing, or one copy of statistics.
use universe_native_linux_in.Common.{
  ℕ, zero, suc, ◌+◌, ◌≡◌, refl, inl, inr, Bool, some, List, ℤ, pos, ltb_ℤ, Bool-cases, Option-cases,
  ◌==◌, ◌||◌, arith,
}
use mathlib.Core.Path.{subst}
use universe_native_linux_in.Abi.{Abi}
use universe_native_linux_in.Machine.{
  ◌>>=◌, State, M, Run, returns, exits, faults, diverges, after, pure,
}
use universe_native_linux_in.Machine.Memory.{read, memcpy}
use universe_native_linux_in.Taskstats.{
  get_ts_size_bv, taskstats_type_aggr_tgid, taskstats_type_aggr_pid,
}
use universe_native_linux_in.Reply.{
  Walk, goto_done, ended, smart_copy_taskstats, nested_attr, walk_nested, top_attr, walk,
}
use universe_native_linux_in.Netlink.{nla_data, nla_payload}

-- `copied` is the target with the statistics at some place of the message over its start, as many
-- bytes as the version that stands there has; both objects hold them.
abbrev pub IsCopy : Abi → List ℕ → List ℕ → List ℕ → Type 0
IsCopy a msg target copied =
    (t version : ℕ) × (read a msg t 2 ≡ some version)
    × (memcpy target msg t (get_ts_size_bv version) ≡ some copied)

abbrev pub Copies : Abi → List ℕ → List ℕ → Walk (List ℕ) → Type 0
Copies a msg target (goto_done copied) = IsCopy a msg target copied
Copies a msg target (ended target') = target' ≡ target

module _ {S : Type 0} (a : Abi) (debug : Bool) (msg : List ℕ) where
  nested_attr-Copies :
      (na : ℕ) (target : List ℕ) (s : State S) (w : Walk (List ℕ)) (s' : State S)
      → nested_attr a debug msg na target s ≡ returns w s'
      → Copies a msg target w
  unfolding nested_attr smart_copy_taskstats ◌>>=◌
  nested_attr-Copies na target s (goto_done c) s' h =
      elim (Option-cases (read a msg (nla_data a na) 2)) [
        | inl e ↦ absurd (ground arith)
        | inr (version, e) ↦ (nla_data a na, version, e, ground arith)
      ]
  nested_attr-Copies na target s (ended c) s' h = ground arith

  -- A step that obeys `Copies`, and then a loop that does.
  and_then-Copies :
      (r : Run S (Walk (List ℕ))) (again : List ℕ → M S (Walk (List ℕ))) (target : List ℕ)
      (w : Walk (List ℕ)) (s' : State S)
      → after r (elim [ goto_done c ↦ pure (goto_done c) | ended c ↦ again c ]) ≡ returns w s'
      → ((v : Walk (List ℕ)) (t : State S) → r ≡ returns v t → Copies a msg target v)
      → ((t : State S) → again target t ≡ returns w s' → Copies a msg target w)
      → Copies a msg target w
  and_then-Copies (returns (goto_done c) t) again target w s' h one more =
      let e : goto_done c ≡ w = cc in subst (Copies a msg target) e (one (goto_done c) t refl)
  and_then-Copies (returns (ended c) t) again target w s' h one more =
      more t (rw (one (ended c) t refl) at h)
  and_then-Copies (exits c t) again target w s' h one more = absurd (ground arith)
  and_then-Copies faults again target w s' h one more = absurd (ground arith)
  and_then-Copies diverges again target w s' h one more = absurd (ground arith)

  stay :
      (target : List ℕ) (w : Walk (List ℕ)) (s s' : State S)
      → returns (ended target) s ≡ returns w s'
      → Copies a msg target w
  stay target w s s' h = let e : ended target ≡ w = cc in subst (Copies a msg target) e refl

  walk_nested-Copies :
      (fuel na len2 : ℕ) (aggr_len : ℤ) (target : List ℕ) (s : State S) (w : Walk (List ℕ))
      (s' : State S)
      → walk_nested a debug msg fuel na len2 aggr_len target s ≡ returns w s'
      → Copies a msg target w
  unfolding walk_nested ◌>>=◌
  walk_nested-Copies zero na len2 aggr_len target s w s' h = absurd (ground arith)
  walk_nested-Copies (suc fuel) na len2 aggr_len target s w s' h =
      elim (Bool-cases (ltb_ℤ (pos len2) aggr_len)) [
        | inl inside ↦
            and_then-Copies (nested_attr a debug msg na target s) _ target w s' (rw inside at h)
              (λ v t e. nested_attr-Copies na target s v t e)
              (λ t e. elim (Option-cases (read a msg (na + a.nla_len_at) 2)) [
                | inl outside ↦ absurd (ground arith)
                | inr (nla_len, e') ↦
                    walk_nested-Copies fuel _ _ aggr_len target t w s' (rw e' at e)
              ])
        | inr outside ↦ stay target w s s' (rw outside at h)
      ]

  top_attr-Copies :
      (fuel na nla_len : ℕ) (target : List ℕ) (s : State S) (w : Walk (List ℕ)) (s' : State S)
      → top_attr a debug msg fuel na nla_len target s ≡ returns w s'
      → Copies a msg target w
  unfolding top_attr ◌>>=◌
  top_attr-Copies fuel na nla_len target s w s' h =
      elim (Option-cases (read a msg (na + a.nla_type_at) 2)) [
        | inl e ↦ absurd (ground arith)
        | inr (nla_type, e) ↦
            elim (Bool-cases
              (nla_type == taskstats_type_aggr_tgid || nla_type == taskstats_type_aggr_pid)) [
                | inl aggr ↦
                    walk_nested-Copies fuel (nla_data a na) 0 (nla_payload a nla_len) target _ w s'
                      (rw (e, aggr) at h)
                | inr single ↦ elim (Bool-cases (nla_type == a.cgroupstats_type_cgroup_stats)) [
                  | inl c ↦ stay target w s s' (rw (e, single, c) at h)
                  | inr c ↦ stay target w _ s' (rw (e, single, c) at h)
                ]
              ]
      ]

  -- On every message, whatever the walk of `get_taskstats` returns: if it has left by `goto done`,
  -- the caller's object is the old one with one copy of statistics at its start, of the size that
  -- `get_ts_size_bv` gives for the version at the place in the message that they come from; if it has
  -- ended by its condition, the caller's object is unchanged.
  pub walk-Copies :
      (fuel na len : ℕ) (rep_len : ℤ) (target : List ℕ) (s : State S) (w : Walk (List ℕ))
      (s' : State S)
      → walk a debug msg fuel na len rep_len target s ≡ returns w s'
      → Copies a msg target w
  unfolding walk ◌>>=◌
  walk-Copies zero na len rep_len target s w s' h = absurd (ground arith)
  walk-Copies (suc fuel) na len rep_len target s w s' h =
      elim (Bool-cases (ltb_ℤ (pos len) rep_len)) [
        | inr outside ↦ stay target w s s' (rw outside at h)
        | inl inside ↦ elim (Option-cases (read a msg (na + a.nla_len_at) 2)) [
          | inl e ↦ absurd (ground (arith, rw (inside, e) at h))
          | inr (nla_len, e) ↦
              and_then-Copies (top_attr a debug msg fuel na nla_len target s) _ target w s'
                (rw (inside, e) at h) (λ v t e'. top_attr-Copies fuel na nla_len target s v t e')
                (λ t e'. walk-Copies fuel _ _ rep_len target t w s' e')
        ]
      ]
