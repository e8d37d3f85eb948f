-- ===== src/Taskstats.antt =====
-- struct taskstats and the constants of the kernel's interface, from the headers that the
-- repository keeps under Universe.LinuxTaskStats/Universe.LinuxTaskStats/TaskStats-Info, and the
-- size table of so-src/get_taskstats.c.
pub mod Fields
pub mod Layout
pub mod Size
pub mod Show
pub mod Interface
use universe_native_linux_in.Common.{ℕ, List, [], ◌∷◌, ltb, ◌==◌, ◌||◌, if◌then◌else◌}

abbrev pub ts_comm_len : ℕ
ts_comm_len = 32

-- TASKSTATS_CMD_*
abbrev pub taskstats_cmd_get : ℕ
taskstats_cmd_get = 1

-- TASKSTATS_TYPE_*
abbrev pub taskstats_type_pid : ℕ
taskstats_type_pid = 1

abbrev pub taskstats_type_tgid : ℕ
taskstats_type_tgid = 2

abbrev pub taskstats_type_stats : ℕ
taskstats_type_stats = 3

abbrev pub taskstats_type_aggr_pid : ℕ
taskstats_type_aggr_pid = 4

abbrev pub taskstats_type_aggr_tgid : ℕ
taskstats_type_aggr_tgid = 5

abbrev pub taskstats_type_null : ℕ
taskstats_type_null = 6

-- TASKSTATS_CMD_ATTR_*
abbrev pub taskstats_cmd_attr_unspec : ℕ
taskstats_cmd_attr_unspec = 0

abbrev pub taskstats_cmd_attr_pid : ℕ
taskstats_cmd_attr_pid = 1

abbrev pub taskstats_cmd_attr_tgid : ℕ
taskstats_cmd_attr_tgid = 2

abbrev pub taskstats_cmd_attr_register_cpumask : ℕ
taskstats_cmd_attr_register_cpumask = 3

abbrev pub taskstats_cmd_attr_deregister_cpumask : ℕ
taskstats_cmd_attr_deregister_cpumask = 4

-- TASKSTATS_GENL_NAME, "TASKSTATS"
abbrev pub taskstats_genl_name : List ℕ
taskstats_genl_name = b'T' ∷ b'A' ∷ b'S' ∷ b'K' ∷ b'S' ∷ b'T' ∷ b'A' ∷ b'T' ∷ b'S' ∷ []

-- `get_ts_size_bv`
unfoldable pub get_ts_size_bv : ℕ → ℕ
get_ts_size_bv version =
    if ltb 10 version
    then 352
    else if version == 10
    then 352
    else if version == 9
    then 344
    else if version == 7 || version == 8
    then 328
    else 328
