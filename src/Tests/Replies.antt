-- ===== src/Tests/Replies.antt =====
-- Replies and whole calls.
use universe_native_linux_in.Common.{
  ℕ, ◌≡◌, refl, inl, inr, true, false, List, [], ◌∷◌, pos, replicate, arith,
}
use universe_native_linux_in.Machine.{State, returns, diverges, faults}
use universe_native_linux_in.Machine.Memory.{read}
use universe_native_linux_in.Taskstats.{get_ts_size_bv}
use universe_native_linux_in.Reply.{goto_done, walk, walk_nested}
use universe_native_linux_in.Reply.Copy.{IsCopy, walk-Copies}
use universe_native_linux_in.Reply.Steps.{IsStatsReply, copied_from}
use universe_native_linux_in.Reply.Stats.{walk_stats}
use universe_native_linux_in.Reply.Overrun.{walk_overruns}
use universe_native_linux_in.Reply.Malformed.{third_attr_missed, walk_spins}
use universe_native_linux_in.GetTaskstats.{handle_reply}
use universe_native_linux_in.GetTaskstats.Replies.{handle_reply_stats}
use universe_native_linux_in.Tests.Mock.{x64, x64-IsLinux, mock, start}

-- A reply of a kernel with version 7: the pid 100, and 328 bytes of statistics.
abbrev reply : List ℕ
reply =
    108
    ∷ 1
    ∷ 0
    ∷ 0
    ∷ 24
    ∷ 0
    ∷ 0
    ∷ 0
    ∷ 0
    ∷ 0
    ∷ 0
    ∷ 0
    ∷ 100
    ∷ 0
    ∷ 0
    ∷ 0
    ∷ 2
    ∷ 1
    ∷ 0
    ∷ 0
    ∷ 88
    ∷ 1
    ∷ 4
    ∷ 0
    ∷ 8
    ∷ 0
    ∷ 1
    ∷ 0
    ∷ 100
    ∷ 0
    ∷ 0
    ∷ 0
    ∷ 76
    ∷ 1
    ∷ 3
    ∷ 0
    ∷ 7
    ∷ 0
    ∷ replicate 326 5

-- The caller's object, of 400 bytes.
abbrev object : List ℕ
object = replicate 400 9

reply-IsStatsReply : IsStatsReply x64 reply 4 344 1 8 7
unfolding read get_ts_size_bv
reply-IsStatsReply = record {
  aggr_len_is = refl;
  aggr_type_is = refl;
  aggregate = inr refl;
  id_len_is = refl;
  id_type_is = refl;
  names_task = inl refl;
  room = omega arith;
  stats_type_is = refl;
  version_is = refl;
  whole = omega arith;
}

walk_stats_example :
    (t : State ℕ) × (walk x64 true reply 3 20 0 (pos 344) object start
      ≡ returns (goto_done (copied_from x64 reply 36 7 object)) t)
    × (t.done ≡ 1)
    × (t.os ≡ 0)
unfolding get_ts_size_bv
walk_stats_example =
    walk_stats x64 x64-IsLinux true reply 4 344 1 8 7 reply-IsStatsReply object (omega arith) 0
      (pos 344) start refl

-- The state behind the walk over the reply.
reply_walked :
    (t : State ℕ) × (walk x64 false reply 3 20 0 (pos 344) object start
      ≡ returns (goto_done (copied_from x64 reply 36 7 object)) t)
    × (t.done ≡ 1)
    × (t.os ≡ 0)
unfolding get_ts_size_bv
reply_walked =
    walk_stats x64 x64-IsLinux false reply 4 344 1 8 7 reply-IsStatsReply object (omega arith) 0
      (pos 344) start refl

walk-Copies_example : IsCopy x64 reply object (copied_from x64 reply 36 7 object)
walk-Copies_example =
    walk-Copies x64 false reply 3 20 0 (pos 344) object start
      (goto_done (copied_from x64 reply 36 7 object)) (reply_walked.0) (reply_walked.1)

handle_reply_stats_example :
    (t : State ℕ) × (handle_reply mock x64 true 3 reply (pos 364) object start
      ≡ returns (0, copied_from x64 reply 36 7 object) t)
unfolding read get_ts_size_bv
handle_reply_stats_example =
    handle_reply_stats mock x64 true x64-IsLinux 0 reply (pos 364) object start 24 364 4 344 1 8 7
      refl refl (λ e. omega (arith, e)) refl refl reply-IsStatsReply (omega arith)

-- Behind a pid an attribute of an unknown type.
abbrev crowded : List ℕ
crowded =
    56
    ∷ 0
    ∷ 0
    ∷ 0
    ∷ 24
    ∷ 0
    ∷ 0
    ∷ 0
    ∷ 0
    ∷ 0
    ∷ 0
    ∷ 0
    ∷ 100
    ∷ 0
    ∷ 0
    ∷ 0
    ∷ 2
    ∷ 1
    ∷ 0
    ∷ 0
    ∷ 36
    ∷ 0
    ∷ 4
    ∷ 0
    ∷ 8
    ∷ 0
    ∷ 1
    ∷ 0
    ∷ 100
    ∷ 0
    ∷ 0
    ∷ 0
    ∷ 8
    ∷ 0
    ∷ 9
    ∷ 0
    ∷ 1
    ∷ 1
    ∷ 1
    ∷ 1
    ∷ 16
    ∷ 0
    ∷ 3
    ∷ 0
    ∷ replicate 12 0

third_attr_missed_example :
    (t : State ℕ) × (walk_nested x64 true crowded 9 24 0 (pos 32) object start
      ≡ walk_nested x64 true crowded 7 48 16 (pos 32) object t)
unfolding read
third_attr_missed_example =
    third_attr_missed x64 x64-IsLinux true crowded 7 1 8 9 8 (pos 32) object start refl refl
      (inl refl) (omega arith) refl refl (omega arith) refl refl

-- An attribute of length 0.
abbrev stuck : List ℕ
stuck =
    24 ∷ 0 ∷ 0 ∷ 0 ∷ 24 ∷ 0 ∷ 0 ∷ 0 ∷ 0 ∷ 0 ∷ 0 ∷ 0 ∷ 100 ∷ 0 ∷ 0 ∷ 0 ∷ 2 ∷ 1 ∷ 0 ∷ 0 ∷ 0 ∷ 0 ∷ 7
    ∷ 0 ∷ []

walk_spins_example : walk x64 true stuck 1000 20 0 (pos 4) object start ≡ diverges
unfolding read
walk_spins_example =
    walk_spins x64 x64-IsLinux true stuck 1000 7 (pos 4) object start refl refl refl (omega arith)

-- A caller's object of 100 bytes.
walk_overruns_example : walk x64 true reply 3 20 0 (pos 344) (replicate 100 9) start ≡ faults
unfolding get_ts_size_bv
walk_overruns_example =
    walk_overruns x64 x64-IsLinux true reply 4 344 1 8 7 reply-IsStatsReply (replicate 100 9)
      (omega arith) 0 (pos 344) start refl
