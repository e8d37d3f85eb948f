-- ===== src/Tests/Interop.antt =====
-- Requests, probes and error numbers at concrete data.
use mathlib.Core.Logic.{◌↔◌}
use universe_native_linux_in.Common.{ℕ, ◌≡◌, ◌⊎◌, refl, true, false, none, [], ◌∷◌, pos, negsuc}
use universe_native_linux_in.Machine.{State, returns, opened, closed, ◌>>=◌}
use universe_native_linux_in.Netlink.Socket.{set_rcvbuf, create_nl_socket}
use universe_native_linux_in.GetTaskstats.{get_pid, get_taskstats}
use universe_native_linux_in.Reader.{get_by_process, no_stats}
use universe_native_linux_in.Reader.Errors.{Gives}
use universe_native_linux_in.Interop.{
  get_error_description, native, is_success_call, is_get_pid_supported,
  is_get_task_stat_by_process_supported,
}
use universe_native_linux_in.Interop.Description.{get_error_description-none}
use universe_native_linux_in.Interop.Support.{supported-eq-found, supported_without_stats}
use universe_native_linux_in.Tests.Mock.{x64, no_socket, start}

-- Without a socket.
abbrev left : State ℕ
left = record start { trace = closed (negsuc 0) ∷ opened (negsuc 0) ∷ [] }

no_socket_run : get_taskstats no_socket x64 false 5 100 0 [] (pos 0) start ≡ returns (2, []) left
unfolding get_taskstats create_nl_socket set_rcvbuf ◌>>=◌
no_socket_run = refl

get_error_description-none_example :
    (get_error_description 2 ≡ none) ↔ (◌≡◌ {A = ℕ} 2 0 ⊎ ◌≡◌ {A = ℕ} 2 1)
get_error_description-none_example =
    get_error_description-none no_socket x64 false 5 100 0 [] (pos 0) start 2 [] left no_socket_run

probe_run : is_get_task_stat_by_process_supported no_socket x64 true 5 start ≡ returns true left
unfolding is_get_task_stat_by_process_supported is_get_pid_supported native is_success_call get_pid
    get_taskstats create_nl_socket set_rcvbuf ◌>>=◌
probe_run = refl

supported-eq-found_example : true ≡ true
supported-eq-found_example = supported-eq-found no_socket x64 true false 5 start true left probe_run

supported_without_stats_example :
    Gives (is_get_task_stat_by_process_supported no_socket x64 true 5 start) true
    × Gives (get_by_process no_socket x64 false false 5 100 start) no_stats
supported_without_stats_example = supported_without_stats no_socket x64 5 100 start refl
