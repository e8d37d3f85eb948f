-- ===== src/Taskstats/Fields.antt =====
-- The members of struct taskstats in the four versions of the header, in order.
use Prim.Native.String.{String}
use universe_native_linux_in.Common.{ℕ, List, [], ◌∷◌}
use universe_native_linux_in.Taskstats.{ts_comm_len}

-- A member with its size and alignment.
pub record Field : Type 0 where
  pub name : String
  pub size : ℕ
  pub align : ℕ

abbrev u8 : String → Field
u8 n = record { name = n; size = 1; align = 1 }

abbrev u16 : String → Field
u16 n = record { name = n; size = 2; align = 2 }

abbrev u32 : String → Field
u32 n = record { name = n; size = 4; align = 4 }

-- An array of bytes
abbrev bytes : String → ℕ → Field
bytes n k = record { name = n; size = k; align = 1 }

-- `__attribute__((aligned(8)))`
abbrev aligned8 : Field → Field
aligned8 f = record f { align = 8 }

-- Scalars are aligned to their size, but a __u64 member to `wide`: 8, or 4 on 32-bit x86.
module _ (wide : ℕ) where
  abbrev u64 : String → Field
  u64 n = record { name = n; size = 8; align = wide }

  -- struct taskstats of taskstats-v7.h
  unfoldable pub taskstats_v7 : List Field
  taskstats_v7 =
      (u16 "version")
      ∷ (u32 "ac_exitcode")
      ∷ (u8 "ac_flag")
      ∷ (u8 "ac_nice")
      ∷ (aligned8 (u64 "cpu_count"))
      ∷ (u64 "cpu_delay_total")
      ∷ (u64 "blkio_count")
      ∷ (u64 "blkio_delay_total")
      ∷ (u64 "swapin_count")
      ∷ (u64 "swapin_delay_total")
      ∷ (u64 "cpu_run_real_total")
      ∷ (u64 "cpu_run_virtual_total")
      ∷ (bytes "ac_comm" ts_comm_len)
      ∷ (aligned8 (u8 "ac_sched"))
      ∷ (bytes "ac_pad" 3)
      ∷ (aligned8 (u32 "ac_uid"))
      ∷ (u32 "ac_gid")
      ∷ (u32 "ac_pid")
      ∷ (u32 "ac_ppid")
      ∷ (u32 "ac_btime")
      ∷ (aligned8 (u64 "ac_etime"))
      ∷ (u64 "ac_utime")
      ∷ (u64 "ac_stime")
      ∷ (u64 "ac_minflt")
      ∷ (u64 "ac_majflt")
      ∷ (u64 "coremem")
      ∷ (u64 "virtmem")
      ∷ (u64 "hiwater_rss")
      ∷ (u64 "hiwater_vm")
      ∷ (u64 "read_char")
      ∷ (u64 "write_char")
      ∷ (u64 "read_syscalls")
      ∷ (u64 "write_syscalls")
      ∷ (u64 "read_bytes")
      ∷ (u64 "write_bytes")
      ∷ (u64 "cancelled_write_bytes")
      ∷ (u64 "nvcsw")
      ∷ (u64 "nivcsw")
      ∷ (u64 "ac_utimescaled")
      ∷ (u64 "ac_stimescaled")
      ∷ (u64 "cpu_scaled_run_real_total")
      ∷ (u64 "freepages_count")
      ∷ (u64 "freepages_delay_total")
      ∷ []

  -- struct taskstats of taskstats-v8.h
  unfoldable pub taskstats_v8 : List Field
  taskstats_v8 =
      (u16 "version")
      ∷ (u32 "ac_exitcode")
      ∷ (u8 "ac_flag")
      ∷ (u8 "ac_nice")
      ∷ (aligned8 (u64 "cpu_count"))
      ∷ (u64 "cpu_delay_total")
      ∷ (u64 "blkio_count")
      ∷ (u64 "blkio_delay_total")
      ∷ (u64 "swapin_count")
      ∷ (u64 "swapin_delay_total")
      ∷ (u64 "cpu_run_real_total")
      ∷ (u64 "cpu_run_virtual_total")
      ∷ (bytes "ac_comm" ts_comm_len)
      ∷ (aligned8 (u8 "ac_sched"))
      ∷ (bytes "ac_pad" 3)
      ∷ (aligned8 (u32 "ac_uid"))
      ∷ (u32 "ac_gid")
      ∷ (u32 "ac_pid")
      ∷ (u32 "ac_ppid")
      ∷ (u32 "ac_btime")
      ∷ (aligned8 (u64 "ac_etime"))
      ∷ (u64 "ac_utime")
      ∷ (u64 "ac_stime")
      ∷ (u64 "ac_minflt")
      ∷ (u64 "ac_majflt")
      ∷ (u64 "coremem")
      ∷ (u64 "virtmem")
      ∷ (u64 "hiwater_rss")
      ∷ (u64 "hiwater_vm")
      ∷ (u64 "read_char")
      ∷ (u64 "write_char")
      ∷ (u64 "read_syscalls")
      ∷ (u64 "write_syscalls")
      ∷ (u64 "read_bytes")
      ∷ (u64 "write_bytes")
      ∷ (u64 "cancelled_write_bytes")
      ∷ (u64 "nvcsw")
      ∷ (u64 "nivcsw")
      ∷ (u64 "ac_utimescaled")
      ∷ (u64 "ac_stimescaled")
      ∷ (u64 "cpu_scaled_run_real_total")
      ∷ (u64 "freepages_count")
      ∷ (u64 "freepages_delay_total")
      ∷ []

  -- struct taskstats of taskstats-v9.h
  unfoldable pub taskstats_v9 : List Field
  taskstats_v9 =
      (u16 "version")
      ∷ (u32 "ac_exitcode")
      ∷ (u8 "ac_flag")
      ∷ (u8 "ac_nice")
      ∷ (aligned8 (u64 "cpu_count"))
      ∷ (u64 "cpu_delay_total")
      ∷ (u64 "blkio_count")
      ∷ (u64 "blkio_delay_total")
      ∷ (u64 "swapin_count")
      ∷ (u64 "swapin_delay_total")
      ∷ (u64 "cpu_run_real_total")
      ∷ (u64 "cpu_run_virtual_total")
      ∷ (bytes "ac_comm" ts_comm_len)
      ∷ (aligned8 (u8 "ac_sched"))
      ∷ (bytes "ac_pad" 3)
      ∷ (aligned8 (u32 "ac_uid"))
      ∷ (u32 "ac_gid")
      ∷ (u32 "ac_pid")
      ∷ (u32 "ac_ppid")
      ∷ (u32 "ac_btime")
      ∷ (aligned8 (u64 "ac_etime"))
      ∷ (u64 "ac_utime")
      ∷ (u64 "ac_stime")
      ∷ (u64 "ac_minflt")
      ∷ (u64 "ac_majflt")
      ∷ (u64 "coremem")
      ∷ (u64 "virtmem")
      ∷ (u64 "hiwater_rss")
      ∷ (u64 "hiwater_vm")
      ∷ (u64 "read_char")
      ∷ (u64 "write_char")
      ∷ (u64 "read_syscalls")
      ∷ (u64 "write_syscalls")
      ∷ (u64 "read_bytes")
      ∷ (u64 "write_bytes")
      ∷ (u64 "cancelled_write_bytes")
      ∷ (u64 "nvcsw")
      ∷ (u64 "nivcsw")
      ∷ (u64 "ac_utimescaled")
      ∷ (u64 "ac_stimescaled")
      ∷ (u64 "cpu_scaled_run_real_total")
      ∷ (u64 "freepages_count")
      ∷ (u64 "freepages_delay_total")
      ∷ (u64 "thrashing_count")
      ∷ (u64 "thrashing_delay_total")
      ∷ []

  -- struct taskstats of taskstats-v10.h
  unfoldable pub taskstats_v10 : List Field
  taskstats_v10 =
      (u16 "version")
      ∷ (u32 "ac_exitcode")
      ∷ (u8 "ac_flag")
      ∷ (u8 "ac_nice")
      ∷ (aligned8 (u64 "cpu_count"))
      ∷ (u64 "cpu_delay_total")
      ∷ (u64 "blkio_count")
      ∷ (u64 "blkio_delay_total")
      ∷ (u64 "swapin_count")
      ∷ (u64 "swapin_delay_total")
      ∷ (u64 "cpu_run_real_total")
      ∷ (u64 "cpu_run_virtual_total")
      ∷ (bytes "ac_comm" ts_comm_len)
      ∷ (aligned8 (u8 "ac_sched"))
      ∷ (bytes "ac_pad" 3)
      ∷ (aligned8 (u32 "ac_uid"))
      ∷ (u32 "ac_gid")
      ∷ (u32 "ac_pid")
      ∷ (u32 "ac_ppid")
      ∷ (u32 "ac_btime")
      ∷ (aligned8 (u64 "ac_etime"))
      ∷ (u64 "ac_utime")
      ∷ (u64 "ac_stime")
      ∷ (u64 "ac_minflt")
      ∷ (u64 "ac_majflt")
      ∷ (u64 "coremem")
      ∷ (u64 "virtmem")
      ∷ (u64 "hiwater_rss")
      ∷ (u64 "hiwater_vm")
      ∷ (u64 "read_char")
      ∷ (u64 "write_char")
      ∷ (u64 "read_syscalls")
      ∷ (u64 "write_syscalls")
      ∷ (u64 "read_bytes")
      ∷ (u64 "write_bytes")
      ∷ (u64 "cancelled_write_bytes")
      ∷ (u64 "nvcsw")
      ∷ (u64 "nivcsw")
      ∷ (u64 "ac_utimescaled")
      ∷ (u64 "ac_stimescaled")
      ∷ (u64 "cpu_scaled_run_real_total")
      ∷ (u64 "freepages_count")
      ∷ (u64 "freepages_delay_total")
      ∷ (u64 "thrashing_count")
      ∷ (u64 "thrashing_delay_total")
      ∷ (u64 "ac_btime64")
      ∷ []
