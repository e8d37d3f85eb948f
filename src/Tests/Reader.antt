-- ===== src/Tests/Reader.antt =====
-- The C# reader at concrete data.
use universe_native_linux_in.Common.{◌≡◌, refl, inl, true, false, pos, patch, replicate, arith}
use universe_native_linux_in.Machine.{State, returns}
use universe_native_linux_in.Taskstats.{taskstats_cmd_attr_pid, taskstats_cmd_attr_tgid}
use universe_native_linux_in.GetTaskstats.Kernel.{Phase}
use universe_native_linux_in.Taskstats.Size.{members}
use universe_native_linux_in.Reader.{columns, throws_error, get_impl, get_by_thread, get_by_process}
use universe_native_linux_in.Reader.Offsets.{read_places, member_places, meant, columns-members}
use universe_native_linux_in.Reader.Serve.{stats_in, readers_serve}
use universe_native_linux_in.Reader.Unanswered.{readers_unanswered}
use universe_native_linux_in.Reader.Errors.{Gives, get_impl_fails}
use universe_native_linux_in.Reader.Refused.{readers_refused}
use universe_native_linux_in.GetTaskstats.{select_task}
use universe_native_linux_in.Common.{ℕ, slice}
use universe_native_linux_in.GetTaskstats.Version.{
  get_task_stat_version, found, get_taskstats_version,
}
use universe_native_linux_in.Reader.Version.{version_serves}
use universe_native_linux_in.Tests.Mock.{x64, x64-IsLinux, no_socket, start}
use universe_native_linux_in.Tests.Server.{
  silent, silent-IsOs, silent-Listener, silent_fails, strict, strict-IsOs, strict-Listener,
  strict-Refuses, server, server-IsOs, server-Kernel, booted, task_stats,
}

columns-members_example : read_places (pos 9) columns ≡ member_places (members 4 9) meant
columns-members_example = columns-members 4 9 (inl refl) (omega arith) (omega arith)

get_impl_fails_example : Gives (get_impl no_socket x64 true false 5000 0 7 start) (throws_error 2)
unfolding select_task
get_impl_fails_example = get_impl_fails no_socket x64 true false 5000 0 7 start refl

readers_serve_example :
    ((t : State Phase) × (get_by_process server x64 true false 5000 100 booted
        ≡ returns
            (stats_in x64 (patch 0 (task_stats taskstats_cmd_attr_pid 100) (replicate 640 0)))
            t))
    × ((t : State Phase) × (get_by_thread server x64 true false 5000 100 booted
          ≡ returns
              (stats_in x64 (patch 0 (task_stats taskstats_cmd_attr_tgid 100) (replicate 640 0)))
              t))
readers_serve_example =
    readers_serve server x64 x64-IsLinux server-IsOs (pos 3) 24 task_stats (λ s. s) server-Kernel
      true false 4997 100 booted (λ e. omega (arith, e)) (omega arith) refl refl

version_serves_example :
    (raw : ℕ) × (t : State Phase) × (get_taskstats_version server x64 5000 booted ≡ returns raw t)
    × (get_task_stat_version true raw
        ≡ found (pos (x64.order.get (slice 0 2 (task_stats taskstats_cmd_attr_pid 100)))))
version_serves_example =
    version_serves server x64 x64-IsLinux server-IsOs (pos 3) 24 task_stats (λ s. s) server-Kernel
      true 4997 100 booted refl (λ e. omega (arith, e)) refl (omega arith) (omega arith) refl refl

readers_unanswered_example :
    ((t : State Phase) × (get_by_process silent x64 true false 5000 100 booted
        ≡ returns (stats_in x64 (replicate 640 0)) t))
    × ((t : State Phase) × (get_by_thread silent x64 true false 5000 100 booted
          ≡ returns (stats_in x64 (replicate 640 0)) t))
readers_unanswered_example =
    readers_unanswered silent x64 x64-IsLinux silent-IsOs (pos 3) 24 (λ s. s) silent-Listener
      (silent_fails 4116) true false 4997 100 booted (λ e. omega (arith, e)) (omega arith) refl refl

readers_refused_example :
    ((t : State Phase) × (get_by_process strict x64 true false 5000 100 booted
        ≡ returns (throws_error 8) t))
    × ((t : State Phase) × (get_by_thread strict x64 true false 5000 100 booted
          ≡ returns (throws_error 8) t))
readers_refused_example =
    readers_refused strict x64 x64-IsLinux strict-IsOs (pos 3) 24 (λ s. s) strict-Listener
      strict-Refuses true false 4997 100 booted (λ e. omega (arith, e)) (omega arith) refl refl
