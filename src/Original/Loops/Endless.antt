-- ===== src/Original/Loops/Endless.antt =====
-- Which attributes keep the loops over attributes from ending.
use mathlib.Core.Path.{subst}
use universe_native_linux_in.Common.{
  ℕ, zero, suc, ◌+◌, ◌*◌, ◌≡◌, ◌≤◌, ◌<◌, ◌≢◌, ◌⊎◌, ◌==◌, ◌||◌, not, true, false, refl, some, List,
  ℤ, pos, pos_part, ltb_ℤ, arith,
}
use universe_native_linux_in.Abi.{Abi, IsLinux}
use universe_native_linux_in.Machine.{State, M, returns, ◌>>=◌}
use universe_native_linux_in.Machine.Memory.{read}
use universe_native_linux_in.Machine.Stops.{
  Stops, stops_step, stops_if, stops_then, stops_read, stops_run,
}
use universe_native_linux_in.Netlink.{genlmsg_data, genlmsg_payload, nla_data, nla_payload}
use universe_native_linux_in.Taskstats.{
  taskstats_type_stats, taskstats_type_aggr_pid, taskstats_type_aggr_tgid,
}
use universe_native_linux_in.Reply.{Walk, goto_done, ended}
use universe_native_linux_in.Original.Loops.{nested_round, nested_loop, attr_round, attr_loop}

-- Where the loops come to.
module _ (a : Abi) (msg : List ℕ) where
  abbrev pub HasLength : ℕ → ℕ → Type 0
  HasLength na nla_len = read a msg (na + a.nla_len_at) 2 ≡ some nla_len

  abbrev pub HasType : ℕ → ℕ → Type 0
  HasType na nla_type = read a msg (na + a.nla_type_at) 2 ≡ some nla_type

  -- The outer loop, with the value of its variable len: it has gone on as long as len < rep_len.
  pub data TopAt (rep_len : ℤ) : ℕ → ℕ → Type 0 where
    top_first : TopAt rep_len (genlmsg_data a) 0
    top_next :
        {na len : ℕ} (nla_len : ℕ)
        → TopAt rep_len na len
        → ltb_ℤ (pos len) rep_len ≡ true
        → HasLength na nla_len
        → TopAt rep_len (genlmsg_data a + (len + a.nla_align nla_len)) (len + a.nla_align nla_len)

  -- A nested attribute that is no statistics: the others leave the loops.
  abbrev pub NoStats : ℕ → Type 0
  NoStats na = (nla_type : ℕ) × HasType na nla_type × (nla_type ≢ taskstats_type_stats)

  -- The inner loop in the attribute `top`, with the value of its variable len2: it has gone on as
  -- long as len2 < aggr_len, over attributes that are no statistics.
  pub data NestedAt (top : ℕ) (aggr_len : ℤ) : ℕ → ℕ → Type 0 where
    nested_first : NestedAt top aggr_len (nla_data a top) 0
    nested_next :
        {na len2 : ℕ} (nla_len : ℕ)
        → NestedAt top aggr_len na len2
        → ltb_ℤ (pos len2) aggr_len ≡ true
        → NoStats na
        → HasLength na nla_len
        → NestedAt top aggr_len (na + (len2 + a.nla_align nla_len)) (len2 + a.nla_align nla_len)

  -- In an aggregate, the inner loop comes to an attribute of the length 0 and goes on.
  pub record NestedEmpty (top nla_len : ℕ) : Type 0 where
    pub nla_type : ℕ
    pub type_is : HasType top nla_type
    pub aggregate :
        (nla_type == taskstats_type_aggr_tgid || nla_type == taskstats_type_aggr_pid) ≡ true
    pub na : ℕ
    pub len2 : ℕ
    pub place : NestedAt top (nla_payload a nla_len) na len2
    pub inside : ltb_ℤ (pos len2) (nla_payload a nla_len) ≡ true
    pub passed : NoStats na
    pub empty : HasLength na 0

  -- The outer loop comes to an attribute that has the length 0, or that is an aggregate in which the
  -- inner loop comes to one.
  pub record HasEmpty (rep_len : ℤ) : Type 0 where
    pub na : ℕ
    pub len : ℕ
    pub nla_len : ℕ
    pub place : TopAt rep_len na len
    pub inside : ltb_ℤ (pos len) rep_len ≡ true
    pub length_is : HasLength na nla_len
    pub empty : (nla_len ≡ 0) ⊎ NestedEmpty na nla_len

-- A message that the programs accept, recv having returned rep_len, and in which their loops come to
-- an attribute of the length 0.
pub record NeverEnds (a : Abi) (msg : List ℕ) (rep_len : ℤ) : Type 0 where
  pub nlmsg_type : ℕ
  pub nlmsg_len : ℕ
  pub type_is : read a msg a.nlmsg_type_at 2 ≡ some nlmsg_type
  pub len_is : read a msg a.nlmsg_len_at 4 ≡ some nlmsg_len
  pub accepted : (nlmsg_type == a.nlmsg_error || not (a.nlmsg_ok nlmsg_len rep_len)) ≡ false
  pub empty : HasEmpty a msg (genlmsg_payload a nlmsg_len)

pub stops_walk :
    {S A B : Type 0} {Z : Type 0} (w : Walk A) {f g : A → M S B}
    → ((t : A) → Stops (f t) Z)
    → ((t : A) → Stops (g t) Z)
    → Stops (elim w [ goto_done t ↦ f t | ended t ↦ g t ]) Z
stops_walk (goto_done t) left on = left t
stops_walk (ended t) left on = on t

-- The same behind a switch, of which something is known when it has ended.
pub stops_switch :
    {S A B P Z : Type 0} {m : M S (Walk A)} {f g : A → M S B}
    → Stops m Z
    → ((t : A) (s u : State S) → m s ≡ returns (ended t) u → P)
    → ((t : A) → Stops (f t) Z)
    → (P → (t : A) → Stops (g t) Z)
    → Stops (m >>= elim [ goto_done t ↦ f t | ended t ↦ g t ]) Z
stops_switch {S} {A} {B} {P} {Z} {m} {f} {g} h known left on = stops_run h go
  where
    go :
        (w : Walk A) (s u : State S)
        → m s ≡ returns w u
        → Stops (elim w [ goto_done t ↦ f t | ended t ↦ g t ]) Z
    go (goto_done t) s u e = left t
    go (ended t) s u e = on (known t s u e) t

align_grows : (a : Abi) → IsLinux a → (n : ℕ) → 4 ≤ a.nla_align (suc n)
align_grows a law n = omega (arith, law.nla_align (suc n))

-- A length is 0, or the loop's variable grows by four.
advance :
    {S B Z : Type 0} {m : M S B} (a : Abi) (law : IsLinux a) (nla_len : ℕ)
    → (nla_len ≡ 0 → Z)
    → (4 ≤ a.nla_align nla_len → Stops m Z)
    → Stops m Z
advance a law zero empty on = record { holds = λ s _. empty refl }
advance a law (suc n) empty on = on (align_grows a law n)

module _ {S A : Type 0} (a : Abi) (law : IsLinux a) (msg : List ℕ) {Z : Type 0} where
  pub nested_loop-Stops :
      (switch : ℕ → A → M S (Walk A))
      → ((na : ℕ) (t : A) → Stops (switch na t) Z)
      → ((na : ℕ) (t t' : A) (s u : State S)
          → switch na t s ≡ returns (ended t') u
          → NoStats a msg na)
      → (top : ℕ) (aggr_len : ℤ)
      → ((na len2 : ℕ)
          → NestedAt a msg top aggr_len na len2
          → ltb_ℤ (pos len2) aggr_len ≡ true
          → NoStats a msg na
          → HasLength a msg na 0
          → Z)
      → (fuel room na len2 : ℕ) (t : A) → NestedAt a msg top aggr_len na len2
      → room < fuel
      → pos_part aggr_len ≤ len2 + 4 * room
      → Stops (nested_loop a msg switch fuel na len2 aggr_len t) Z
  unfolding nested_loop nested_round
  nested_loop-Stops switch h passes top aggr_len empty zero room na len2 t at more fits =
      absurd (omega arith)
  nested_loop-Stops switch h passes top aggr_len empty (suc fuel) zero na len2 t at more fits =
      stops_if (ltb_ℤ (pos len2) aggr_len) (λ e. absurd (ground arith)) (λ _. stops_step _ _)
  nested_loop-Stops switch h passes top aggr_len empty (suc fuel) (suc room) na len2 t at more
        fits =
      stops_if (ltb_ℤ (pos len2) aggr_len)
        (λ inside.
          stops_switch (h na t) (λ t' s u went. passes na t t' s u went) (λ t'. stops_step _ _)
            λ passed t'. stops_read (read a msg (na + a.nla_len_at) 2) λ nla_len e.
              advance a law nla_len
                (λ nil. empty na len2 at inside passed (subst (HasLength a msg na) nil e))
                λ grows.
                  nested_loop-Stops switch h passes top aggr_len empty fuel room _
                    (len2 + a.nla_align nla_len) t' (nested_next nla_len at inside passed e)
                    (omega arith) (omega arith))
        (λ _. stops_step _ _)

  -- `small` bounds the lengths of the attributes.
  pub attr_loop-Stops :
      (small : ℕ)
      → ((na nla_len : ℕ) → HasLength a msg na nla_len → nla_len ≤ 4 * small)
      → (switch : ℕ → ℕ → ℕ → A → M S (Walk A)) → (rep_len : ℤ)
      → ((fuel na len nla_len : ℕ) (t : A)
          → TopAt a msg rep_len na len
          → ltb_ℤ (pos len) rep_len ≡ true
          → HasLength a msg na nla_len
          → small < fuel
          → Stops (switch fuel na nla_len t) Z)
      → ((na len : ℕ)
          → TopAt a msg rep_len na len
          → ltb_ℤ (pos len) rep_len ≡ true
          → HasLength a msg na 0
          → Z)
      → (fuel room na len : ℕ) (t : A) → TopAt a msg rep_len na len
      → room + small + 1 < fuel
      → pos_part rep_len ≤ len + 4 * room
      → Stops (attr_loop a msg switch fuel na len rep_len t) Z
  unfolding attr_loop attr_round
  attr_loop-Stops small bounded switch rep_len h empty zero room na len t at more fits =
      absurd (omega arith)
  attr_loop-Stops small bounded switch rep_len h empty (suc fuel) zero na len t at more fits =
      stops_if (ltb_ℤ (pos len) rep_len) (λ e. absurd (ground arith)) (λ _. stops_step _ _)
  attr_loop-Stops small bounded switch rep_len h empty (suc fuel) (suc room) na len t at more fits =
      stops_if (ltb_ℤ (pos len) rep_len)
        (λ inside. stops_read (read a msg (na + a.nla_len_at) 2) λ nla_len e.
          stops_then (h fuel na len nla_len t at inside e (omega arith)) λ w.
            stops_walk w (λ t'. stops_step _ _)
              λ t'.
                advance a law nla_len
                  (λ nil. empty na len at inside (subst (HasLength a msg na) nil e))
                  λ grows.
                    attr_loop-Stops small bounded switch rep_len h empty fuel room _
                      (len + a.nla_align nla_len) t' (top_next nla_len at inside e) (omega arith)
                      (omega arith))
        (λ _. stops_step _ _)
