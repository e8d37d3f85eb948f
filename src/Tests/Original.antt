-- ===== src/Tests/Original.antt =====
-- The programs of so-src/original at concrete data.
use universe_native_linux_in.Common.{
  ◌++◌, take, some, ℕ, ◌≡◌, refl, true, false, some, List, [], ◌∷◌, ℤ, pos, replicate, arith,
}
use universe_native_linux_in.Machine.{note, returns, diverges, faults, printed, Message, ◌>>=◌}
use universe_native_linux_in.Machine.Memory.{c_string}
use universe_native_linux_in.GetTaskstats
use universe_native_linux_in.Original.Changes
use universe_native_linux_in.Original.Same.{get_taskstats_same}
use universe_native_linux_in.Original.Delays.Options.{Locals, initial, task_option, option, options}
use universe_native_linux_in.Original.Delays.Options.Ready.{
  IsReady, options-IsReady, initial-IsReady,
}
use universe_native_linux_in.Original.Delays.Options.Overrun.{
  container_option_overruns, cpumask_option_overruns,
}
use universe_native_linux_in.Original.Delays.Reply.{receive}
use universe_native_linux_in.Original.Delays.Reply.Rounds.{receive_retries}
use universe_native_linux_in.Original.Delays.Main.{main}
use universe_native_linux_in.Original.Delays.Main.Status.{HasStatus, main_status}
use universe_native_linux_in.Tests.Mock.{x64, mock, no_socket, start}
use universe_native_linux_in.Tests.Server.{server, booted}

get_taskstats_same_example :
    Changes.get_taskstats server x64 false 5000 100 0 (replicate 400 9) (pos 400) booted
    ≡ GetTaskstats.get_taskstats server x64 false 5000 100 0 (replicate 400 9) (pos 400) booted
get_taskstats_same_example =
    get_taskstats_same server x64 5000 100 0 (replicate 400 9) (pos 400) booted

-- `-p` with any argument names the task 7.
abbrev seven : List ℕ → ℤ
seven text = pos 7

abbrev fresh : Locals
fresh = record {
  cmd_type = 0;
  tid = pos 0;
  write_file = false;
  maskset = false;
  logfile = [];
  loop = false;
  containerset = false;
  containerpath = replicate 1024 0;
}

options-IsReady_example :
    IsReady
      (record fresh { tid = pos 7; cmd_type = 1; loop = true })
      (record start { trace = printed Message.listen_forever ∷ [] })
unfolding options option task_option initial ◌>>=◌
options-IsReady_example =
    options-IsReady seven ((b'l', []) ∷ (b'p', b'7' ∷ []) ∷ []) (initial (replicate 1024 0))
      (record fresh { tid = pos 7; cmd_type = 1; loop = true }) start
      (record start { trace = printed Message.listen_forever ∷ [] })
      (initial-IsReady (replicate 1024 0) start refl refl refl) refl

abbrev long_path : List ℕ
long_path = replicate 1024 b'a'

container_option_overruns_example : option seven b'C' long_path fresh start ≡ faults
container_option_overruns_example = container_option_overruns seven long_path fresh start

abbrev cpus : List ℕ
cpus = b'0' ∷ b'-' ∷ b'3' ∷ []

cpumask_option_overruns_example :
    (option seven b'm' cpus fresh start
      ≡ returns
          (record fresh { maskset = true })
          (note
            (printed (Message.cpumask_set cpus))
            (record start { cpumask = take 292 (cpus ++ replicate 292 0) })))
    × (c_string (take 292 (cpus ++ replicate 292 0)) ≡ some cpus)
cpumask_option_overruns_example =
    cpumask_option_overruns seven cpus fresh start
      (λ e. omega (arith, e), (λ e. omega (arith, e), (λ e. omega (arith, e), tt))) refl

receive_retries_example : receive mock x64 [] true (pos 0) 30 (pos 3) [] start ≡ diverges
receive_retries_example = receive_retries mock x64 [] (pos 0) (λ fd n s. refl) 30 (pos 3) [] start

main_status_example : HasStatus (main no_socket x64 [] seven 5000 ((b'p', b'7' ∷ []) ∷ []) start)
main_status_example = main_status no_socket x64 [] 5000 seven ((b'p', b'7' ∷ []) ∷ []) start
