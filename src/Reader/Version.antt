-- ===== src/Reader/Version.antt =====
-- GetTaskStatVersion of LinuxTaskStatsReader.cs over `get_taskstats_version`, with a kernel that keeps
-- its promises.
use universe_native_linux_in.Common.{
  ℕ, suc, ◌^◌, ◌≤◌, ◌≡◌, ◌≢◌, ◌∙◌, ap, refl, Bool, false, List, ℤ, pos, some, length, slice, patch,
  length-patch, length-slice, arith, ne→==,
}
use universe_native_linux_in.Abi.{Abi, IsLinux}
use universe_native_linux_in.Machine.{Os, IsOs, State, returns, ◌>>=◌}
use universe_native_linux_in.Machine.Memory.{read, read_lem, slice-patch_inside}
use universe_native_linux_in.Taskstats.{taskstats_cmd_attr_pid}
use universe_native_linux_in.GetTaskstats.{selected, select_task}
use universe_native_linux_in.GetTaskstats.Version.{
  pack_version, get_task_stat_version, found, get_taskstats_version,
  get_task_stat_version-pack_version,
}
use universe_native_linux_in.GetTaskstats.Kernel.{Phase, Kernel}
use universe_native_linux_in.GetTaskstats.Serve.{get_taskstats_serves}

module _ {S : Type 0} (os : Os S) (a : Abi) (law : IsLinux a) (docs : IsOs os) (sd : ℤ) (family : ℕ)
    (known : ℕ → ℕ → List ℕ) (phase : S → Phase) (kernel : Kernel os a sd family known phase) where
  chosen : (id : ℕ) → id ≢ 0 → select_task id 0 ≡ selected taskstats_cmd_attr_pid id
  unfolding select_task
  chosen id positive = rw (ne→== id 0 positive) refl

  -- With a kernel that keeps its promises, a positive process id and enough memory,
  -- `get_taskstats_version` returns, and GetTaskStatVersion makes of its number the version at the
  -- start of the statistics that the kernel has of the calling process, whatever ErrorAction says.
  pub version_serves :
      (throw_exception : Bool) (fuel id : ℕ) (s : State S)
      → os.getpid (os.malloc 1024 s.os).1 ≡ id
      → id ≢ 0
      → length (os.malloc 1024 s.os).0 ≡ 1024
      → 2 ≤ length (known taskstats_cmd_attr_pid id)
      → length (known taskstats_cmd_attr_pid id) ≤ 1024
      → length s.name ≡ 100
      → s.rcvbufsz ≡ pos 0
      → (raw : ℕ) × (t : State S) × (get_taskstats_version os a (suc (suc (suc fuel))) s
          ≡ returns raw t)
        × (get_task_stat_version throw_exception raw
            ≡ found (pos (a.order.get (slice 0 2 (known taskstats_cmd_attr_pid id)))))
  unfolding get_taskstats_version ◌>>=◌
  version_serves throw_exception fuel id s who positive memory holds fits named nobuf =
      let object : List ℕ = (os.malloc 1024 s.os).0 in
      let stats : List ℕ = known taskstats_cmd_attr_pid id in
      let version : ℕ = a.order.get (slice 0 2 stats) in
      let s' : State S = record s { os = (os.malloc 1024 s.os).1 } in
      let (t, run) =
        get_taskstats_serves os a law docs sd family known phase kernel false object (omega arith)
          fuel id 0 taskstats_cmd_attr_pid id (pos 1024) s' (chosen id positive)
          (rw (← who) (kernel.listener.pid_small (os.malloc 1024 s.os).1)) (omega arith) named
          nobuf in
      let first : slice 0 2 (patch 0 stats object) ≡ slice 0 2 stats =
        slice-patch_inside stats object 0 2 (omega arith) (omega arith) in
      let held : read a (patch 0 stats object) 0 2 ≡ some version =
        read_lem a (patch 0 stats object) 0 2 (omega (arith, length-patch 0 stats object))
        ∙ ap (λ b. some (a.order.get b)) first in
      (
        pack_version 0 version,
        record t { os = os.free t.os },
        rw (who, run, held) refl,
        get_task_stat_version-pack_version throw_exception 0 version (omega arith) (
            omega (
              arith,
              law.order.get-lt (slice 0 2 stats),
              ap (λ n. 256 ^ n) (length-slice 0 2 stats (omega arith)),
            )),
      )
