-- ===== src/Original/Loops/Library.antt =====
-- The loops of so-src/get_taskstats.c are the loops of the programs of so-src/original.
use universe_native_linux_in.Common.{ℕ, zero, suc, ◌≡◌, refl, ap, Bool, List}
use universe_native_linux_in.Abi.{Abi}
use universe_native_linux_in.Machine.{◌>>=◌}
use universe_native_linux_in.Reply
use universe_native_linux_in.Original.Loops.{nested_round, nested_loop, attr_round, attr_loop}

module _ {S : Type 0} (a : Abi) (debug : Bool) (msg : List ℕ) where
  pub nested_loop_same :
      (fuel : ℕ)
      → nested_loop {S = S} a msg (Reply.nested_attr a debug msg) fuel
        ≡ Reply.walk_nested a debug msg fuel
  unfolding nested_loop nested_round Reply.walk_nested ◌>>=◌
  nested_loop_same zero = refl
  nested_loop_same (suc fuel) =
      ap (nested_round a msg (Reply.nested_attr a debug msg)) (nested_loop_same fuel)

  pub attr_loop_same :
      (fuel : ℕ)
      → attr_loop {S = S} a msg (Reply.top_attr a debug msg) fuel ≡ Reply.walk a debug msg fuel
  unfolding attr_loop attr_round Reply.walk ◌>>=◌
  attr_loop_same zero = refl
  attr_loop_same (suc fuel) =
      ap (attr_round a msg (Reply.top_attr a debug msg fuel)) (attr_loop_same fuel)
