-- ===== src/Tests/Sizes.antt =====
-- The size table and the version number at concrete values.
use universe_native_linux_in.Common.{◌+◌, ◌≡◌, refl, inl, inr, true, ◌++◌, drop, length, pos, arith}
use universe_native_linux_in.Taskstats.{get_ts_size_bv}
use universe_native_linux_in.Taskstats.Layout.{sizeof, taskstats_fields}
use universe_native_linux_in.Taskstats.Size.{members, get_ts_size_bv-sizeof, members_stay}
use universe_native_linux_in.GetTaskstats.Version.{
  pack_version, get_task_stat_version, throws, get_task_stat_version-pack_version,
}

get_ts_size_bv-sizeof_example : get_ts_size_bv 9 ≡ sizeof (taskstats_fields 4 9)
get_ts_size_bv-sizeof_example = get_ts_size_bv-sizeof 4 9 (inl refl) (omega arith) (omega arith)

members_stay_example :
    members 8 (9 + 1) ≡ members 8 9 ++ drop (length (members 8 9)) (members 8 (9 + 1))
members_stay_example = members_stay 8 9 (inr refl) (omega arith) (omega arith)

get_task_stat_version-pack_version_example :
    get_task_stat_version true (pack_version 3 10) ≡ throws (pos 3)
get_task_stat_version-pack_version_example =
    get_task_stat_version-pack_version true 3 10 (omega arith) (omega arith)
