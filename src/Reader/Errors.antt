-- ===== src/Reader/Errors.antt =====
-- What the reader does with an error of `get_taskstats`.
use universe_native_linux_in.Common.{ℕ, ◌≡◌, Bool, true, is_negative, arith, if◌then◌else◌}
use universe_native_linux_in.Abi.{Abi}
use universe_native_linux_in.Machine.{Os, State, Run, returns, exits, faults, diverges, ◌>>=◌}
use universe_native_linux_in.Netlink.Socket.{create_nl_socket}
use universe_native_linux_in.GetTaskstats.Labels.{leave, finish}
use universe_native_linux_in.GetTaskstats.{
  Selection, nothing_selected, selected, select_task, talk, get_taskstats,
}
use universe_native_linux_in.Reader.{StatsResult, no_stats, throws_error, get_impl}

-- The run returns, with this value.
abbrev pub Gives : {S A : Type 0} → Run S A → A → Type 0
Gives (returns u t) v = u ≡ v
Gives (exits c t) v = ⊥
Gives faults v = ⊥
Gives diverges v = ⊥

-- Null, or an exception with the number.
abbrev pub failed : Bool → ℕ → StatsResult
failed throw_exception e = if throw_exception then throws_error e else no_stats

-- The error number of `get_taskstats` when no socket can be made.
abbrev pub error_of : Selection → ℕ
error_of nothing_selected = 1
error_of (selected cmd_type tid) = 2

module _ {S : Type 0} (os : Os S) (a : Abi) (throw_exception verbose : Bool) where
  -- When no socket can be made, the reader returns null, or throws the error number where exceptions
  -- are asked for: 1 if both ids are 0, for which no socket is needed, and else 2.
  pub get_impl_fails :
      (fuel pid tid : ℕ) (s : State S)
      → is_negative (os.socket a.netlink_generic s.os).0 ≡ true
      → Gives
          (get_impl os a throw_exception verbose fuel pid tid s)
          (failed throw_exception (error_of (select_task pid tid)))
  unfolding get_impl get_taskstats talk finish leave create_nl_socket select_task ◌>>=◌
  get_impl_fails fuel pid tid s bad = ground arith
