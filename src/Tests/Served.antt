-- ===== src/Tests/Served.antt =====
-- A whole call at concrete data.
use universe_native_linux_in.Common.{◌≡◌, refl, false, pos, replicate, patch, arith}
use universe_native_linux_in.Machine.{State, returns}
use universe_native_linux_in.Taskstats.{taskstats_cmd_attr_pid}
use universe_native_linux_in.GetTaskstats.{select_task, get_taskstats}
use universe_native_linux_in.GetTaskstats.Kernel.{Phase, idle}
use universe_native_linux_in.Netlink.{msgtemplate_size}
use universe_native_linux_in.GetTaskstats.Outcome.{IsOutcome, get_taskstats-IsOutcome}
use universe_native_linux_in.GetTaskstats.Serve.{get_taskstats_serves}
use universe_native_linux_in.Tests.Mock.{x64, x64-IsLinux}
use universe_native_linux_in.Tests.Server.{server, server-IsOs, server-Kernel, booted, task_stats}

get_taskstats_serves_example :
    (t : State Phase) × (get_taskstats server x64 false 5000 100 0
        (replicate 400 9)
        (pos 400)
        booted
      ≡ returns (0, patch 0 (task_stats taskstats_cmd_attr_pid 100) (replicate 400 9)) t)
unfolding select_task
get_taskstats_serves_example =
    get_taskstats_serves server x64 x64-IsLinux server-IsOs (pos 3) 24 task_stats (λ s. s)
      server-Kernel false (replicate 400 9) (omega arith) 4997 100 0 taskstats_cmd_attr_pid 100
      (pos 400) booted refl (omega arith) (omega arith) refl refl

-- The state behind the same call.
answered :
    (t : State Phase) × (get_taskstats server x64 false 5000 100 0
        (replicate 400 9)
        (pos 400)
        booted
      ≡ returns (0, patch 0 (task_stats taskstats_cmd_attr_pid 100) (replicate 400 9)) t)
unfolding select_task
answered =
    get_taskstats_serves server x64 x64-IsLinux server-IsOs (pos 3) 24 task_stats (λ s. s)
      server-Kernel false (replicate 400 9) (omega arith) 4997 100 0 taskstats_cmd_attr_pid 100
      (pos 400) booted refl (omega arith) (omega arith) refl refl

get_taskstats-IsOutcome_example :
    IsOutcome x64
      (server.stack (msgtemplate_size x64) idle)
      (replicate 400 9)
      0
      (patch 0 (task_stats taskstats_cmd_attr_pid 100) (replicate 400 9))
      (answered.0).trace
get_taskstats-IsOutcome_example =
    get_taskstats-IsOutcome server x64 false 5000 100 0 (replicate 400 9) (pos 400) booted 0
      (patch 0 (task_stats taskstats_cmd_attr_pid 100) (replicate 400 9)) (answered.0) (answered.1)
