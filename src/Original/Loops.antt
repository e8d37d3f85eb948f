-- ===== src/Original/Loops.antt =====
-- The two loops over attributes that the programs of so-src/original share, around what each of
-- them does with an attribute.
pub mod Endless
pub mod Library
pub mod Ends
use universe_native_linux_in.Common.{ℕ, zero, suc, ◌+◌, List, ℤ, pos, ltb_ℤ, if◌then◌else◌}
use universe_native_linux_in.Abi.{Abi}
use universe_native_linux_in.Machine.{M, pure, diverge, checked, ◌>>=◌}
use universe_native_linux_in.Machine.Memory.{read}
use universe_native_linux_in.Netlink.{genlmsg_data}
use universe_native_linux_in.Reply.{Walk, goto_done, ended}

module _ {S A : Type 0} (a : Abi) (msg : List ℕ) where
  -- One round of `while (len2 < aggr_len)`; `again` is what follows it.
  unfoldable pub nested_round :
      (ℕ → A → M S (Walk A)) → (ℕ → ℕ → ℤ → A → M S (Walk A)) → ℕ → ℕ → ℤ → A → M S (Walk A)
  nested_round switch again na len2 aggr_len t =
      if ltb_ℤ (pos len2) aggr_len
      then switch na t >>= elim [
        | goto_done t' ↦ pure (goto_done t')
        | ended t' ↦ do
          nla_len ← checked (read a msg (na + a.nla_len_at) 2)
          let next = len2 + a.nla_align nla_len
          again (na + next) next aggr_len t'
      ]
      else pure (ended t)

  unfoldable pub nested_loop : (ℕ → A → M S (Walk A)) → ℕ → ℕ → ℕ → ℤ → A → M S (Walk A)
  unfolding nested_round
  nested_loop switch zero na len2 aggr_len t = diverge
  nested_loop switch (suc fuel) na len2 aggr_len t =
      nested_round switch (nested_loop switch fuel) na len2 aggr_len t

  -- One round of `while (len < rep_len)`.
  unfoldable pub attr_round :
      (ℕ → ℕ → A → M S (Walk A)) → (ℕ → ℕ → ℤ → A → M S (Walk A)) → ℕ → ℕ → ℤ → A → M S (Walk A)
  attr_round switch again na len rep_len t =
      if ltb_ℤ (pos len) rep_len
      then (do
        nla_len ← checked (read a msg (na + a.nla_len_at) 2)
        let next = len + a.nla_align nla_len
        switch na nla_len t >>= elim [
          | goto_done t' ↦ pure (goto_done t')
          | ended t' ↦ again (genlmsg_data a + next) next rep_len t'
        ])
      else pure (ended t)

  -- The fuel that is left is the fuel of the loop in the switch.
  unfoldable pub attr_loop : (ℕ → ℕ → ℕ → A → M S (Walk A)) → ℕ → ℕ → ℕ → ℤ → A → M S (Walk A)
  unfolding attr_round
  attr_loop switch zero na len rep_len t = diverge
  attr_loop switch (suc fuel) na len rep_len t =
      attr_round (switch fuel) (attr_loop switch fuel) na len rep_len t
