-- ===== src/Original/Delays/Main/Codes.antt =====
-- The codes with which the requests of so-src/original/delays.c can end the program.
use mathlib.Core.Path.{subst}
use universe_native_linux_in.Common.{
  ℕ, zero, suc, ◌≡◌, ◌⊎◌, inl, inr, refl, Bool, true, List, ℤ, pos, negsuc, is_negative, arith,
}
use universe_native_linux_in.Abi.{Abi}
use universe_native_linux_in.Machine.{Os, State, returns}
use universe_native_linux_in.Machine.Ensures.{Ensures, ensures_then}
use universe_native_linux_in.Machine.Exits.{
  Exits, exits_step, exits_if, exits_when, exits_bind, exits_then, exit_rules,
}
use universe_native_linux_in.Netlink.Send.{send_loop}
use universe_native_linux_in.Netlink.Send.Deliver.{wire, Delivers, send_loop-Delivers}
use universe_native_linux_in.Original.Delays.{send_cmd}
use universe_native_linux_in.Original.Delays.Options.{Locals}
use universe_native_linux_in.Original.Delays.Ending.{IsStatus, err-Exits, send_cmd-Exits}
use universe_native_linux_in.Original.Delays.Main.{
  finish, cpumask_cmd, deregister, container_cmd, task_cmd, requests,
}

-- What `send_cmd` returns.
abbrev IsRc : ℤ → Type 0
IsRc v = (v ≡ pos 0) ⊎ (v ≡ negsuc 0)

Delivers-IsRc :
    {S : Type 0} (before left : List ℕ) (v : ℤ) (t : State S)
    → Delivers before left (returns v t)
    → IsRc v
Delivers-IsRc before left (pos zero) t h = inl refl
Delivers-IsRc before left (pos (suc n)) t h = absurd h
Delivers-IsRc before left (negsuc zero) t h = inr refl
Delivers-IsRc before left (negsuc (suc n)) t h = absurd h

module _ {S : Type 0} (os : Os S) (a : Abi) where
  send_loop-IsRc :
      (fuel : ℕ) (sd : ℤ) (left : List ℕ) → Ensures (send_loop os a fuel sd left) (λ v _. IsRc v)
  send_loop-IsRc fuel sd left = record {
    holds = λ s v t h.
        Delivers-IsRc (wire s.trace) left v t
          (subst (Delivers (wire s.trace) left) h (send_loop-Delivers os a fuel sd left s));
  }

  send_cmd-IsRc :
      (fuel : ℕ) (sd : ℤ) (nlmsg_type nlmsg_pid genl_cmd nla_type : ℕ) (bytes : List ℕ)
      → Ensures (send_cmd os a fuel sd nlmsg_type nlmsg_pid genl_cmd nla_type bytes) (λ v _. IsRc v)
  unfolding send_cmd
  send_cmd-IsRc fuel sd nlmsg_type nlmsg_pid genl_cmd nla_type bytes = ensures_then _ λ junk.
      ensures_then _
        λ msg. ensures_then _ λ buflen. ensures_then _ λ buf. send_loop-IsRc fuel sd buf

  cpumask_cmd-IsRc :
      (fuel : ℕ) (nl_sd : ℤ) (id mypid nla_type : ℕ)
      → Ensures (cpumask_cmd os a fuel nl_sd id mypid nla_type) (λ v _. IsRc v)
  unfolding cpumask_cmd
  cpumask_cmd-IsRc fuel nl_sd id mypid nla_type =
      ensures_then _
        λ cpumask. ensures_then _ λ mask. send_cmd-IsRc fuel nl_sd id mypid _ nla_type _

  cpumask_cmd-Exits :
      (fuel : ℕ) (nl_sd : ℤ) (id mypid nla_type : ℕ)
      → Exits (cpumask_cmd os a fuel nl_sd id mypid nla_type) IsStatus
  unfolding cpumask_cmd
  cpumask_cmd-Exits fuel nl_sd id mypid nla_type =
      search (exit_rules, send_cmd-Exits os a IsStatus) depth 20 fits 3000

  negative_rc : (rc : ℤ) → IsRc rc → is_negative rc ≡ true → IsStatus rc
  negative_rc rc h n = ground arith

  pub deregister-Exits :
      (fuel : ℕ) (nl_sd : ℤ) (id mypid : ℕ) (maskset : Bool)
      → Exits (deregister os a fuel nl_sd id mypid maskset) IsStatus
  unfolding deregister
  deregister-Exits fuel nl_sd id mypid maskset =
      exits_if maskset
        (exits_bind (cpumask_cmd-Exits fuel nl_sd id mypid _)
          (cpumask_cmd-IsRc fuel nl_sd id mypid _)
          λ rc known. exits_then (exits_step _ _) λ _.
            exits_when (is_negative rc) (λ n. err-Exits rc _ (negative_rc rc known n))
              (λ _. exits_step _ _))
        (λ _. exits_step _ _)

  pub finish-Exits : (nl_sd fd cfd : ℤ) → Exits (finish os a nl_sd fd cfd) IsStatus
  unfolding finish
  finish-Exits nl_sd fd cfd = search exit_rules depth 20 fits 3000

  container_cmd-Exits :
      (fuel : ℕ) (nl_sd : ℤ) (id mypid : ℕ) (l : Locals)
      → Exits (container_cmd os a fuel nl_sd id mypid l) IsStatus
  unfolding container_cmd
  container_cmd-Exits fuel nl_sd id mypid l =
      search (exit_rules, send_cmd-Exits os a IsStatus) depth 30 fits 6000

  task_cmd-Exits :
      (fuel : ℕ) (nl_sd : ℤ) (id mypid : ℕ) (l : Locals)
      → Exits (task_cmd os a fuel nl_sd id mypid l) IsStatus
  unfolding task_cmd
  task_cmd-Exits fuel nl_sd id mypid l =
      search (exit_rules, send_cmd-Exits os a IsStatus, container_cmd-Exits) depth 30 fits 6000

  pub requests-Exits :
      (fuel : ℕ) (nl_sd : ℤ) (id mypid : ℕ) (l : Locals)
      → Exits (requests os a fuel nl_sd id mypid l) IsStatus
  unfolding requests
  requests-Exits fuel nl_sd id mypid l =
      search (exit_rules, cpumask_cmd-Exits, task_cmd-Exits) depth 30 fits 6000
