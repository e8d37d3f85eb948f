-- ===== src/Tests/Wire.antt =====
-- Sockets and requests.
use universe_native_linux_in.Common.{
  ℕ, ◌≡◌, refl, ◌⊎◌, true, false, some, List, [], ◌∷◌, ℤ, pos, negsuc, length, slice, replicate,
  length-replicate, arith,
}
use universe_native_linux_in.Machine.{
  State, opened, bound, closed, configured, printed, rcvbuf_failed, returns, diverges,
}
use universe_native_linux_in.Machine.Memory.{read}
use universe_native_linux_in.Netlink.{msgtemplate_size}
use universe_native_linux_in.Netlink.Request.{fill_msg}
use universe_native_linux_in.Netlink.Request.Fields.{IsRequest, fill_msg-IsRequest}
use universe_native_linux_in.Netlink.Socket.{create_nl_socket}
use universe_native_linux_in.Netlink.Socket.Leak.{create_nl_socket_keeps, create_nl_socket_leaks}
use universe_native_linux_in.Netlink.Send.{send_loop, send_cmd}
use universe_native_linux_in.Netlink.Send.Deliver.{Delivers}
use universe_native_linux_in.Netlink.Send.Total.{
  sent_bytes, send_loop_returns, send_loop_spins, send_cmd_sends, send_cmd_sends_stack,
}
use universe_native_linux_in.Netlink.Request.{fill_msg}
use universe_native_linux_in.Netlink.Send.{send_loop, send_cmd}
use universe_native_linux_in.Tests.Mock.{
  x64, x64-IsLinux, mock, mock-IsOs, mock-Blocks, full_queue, full_queue-NeverReady, start,
}

abbrev pid_bytes : List ℕ
pid_bytes = 100 ∷ 0 ∷ 0 ∷ 0 ∷ []

abbrev junk : List ℕ
junk = replicate 4116 7

fill_msg-IsRequest_example :
    (msg : List ℕ) × (fill_msg x64 junk 24 100 1 1 pid_bytes ≡ some msg)
    × (length msg ≡ 4116)
    × IsRequest x64 24 100 1 1 pid_bytes msg
fill_msg-IsRequest_example =
    fill_msg-IsRequest x64 x64-IsLinux junk pid_bytes 24 100 1 1 (length-replicate {A = ℕ} 4116 7)
      (omega arith) (omega arith) (omega arith) (omega arith) (omega arith) (omega arith)

send_loop_returns_example :
    (r : ℤ) × (t : State ℕ) × (send_loop mock x64 5 (pos 3) pid_bytes start ≡ returns r t)
send_loop_returns_example =
    send_loop_returns mock x64 mock-Blocks 5 (pos 3) pid_bytes start (omega arith)

send_loop_spins_example : send_loop full_queue x64 50 (pos 3) pid_bytes start ≡ diverges
send_loop_spins_example =
    send_loop_spins full_queue x64 full_queue-NeverReady 50 (pos 3) pid_bytes start

send_cmd_sends_example :
    (msg : List ℕ) × IsRequest x64 24 100 1 1 pid_bytes msg
    × (r : ℤ) × (t : State ℕ) × (send_cmd mock x64 5000 (pos 3) 24 100 1 1 pid_bytes start
        ≡ returns r t)
    × Delivers [] (sent_bytes mock x64 x64-IsLinux mock-IsOs pid_bytes msg) (returns r t)
send_cmd_sends_example =
    send_cmd_sends mock x64 x64-IsLinux mock-IsOs mock-Blocks 5000 (pos 3) 24 100 1 1 pid_bytes
      start (omega arith) (omega arith) (omega arith) (omega arith) (omega arith) (omega arith)

send_cmd_sends_stack_example :
    (bytes : List ℕ) × (send_cmd mock x64 5000 (pos 3) 24 100 1 1 pid_bytes start
      ≡ send_loop mock x64 5000 (pos 3) bytes start)
    × (read x64 bytes 20 2 ≡ some 9)
    × (length (slice 28 1 bytes) ≡ 1)
    × (slice 28 1 bytes ≡ slice 28 1 (mock.stack (msgtemplate_size x64) start.os))
send_cmd_sends_stack_example =
    send_cmd_sends_stack mock x64 x64-IsLinux mock-IsOs 5000 (pos 3) 24 100 1 1 pid_bytes start
      (omega arith) (omega arith) (omega arith) (omega arith) (omega arith)

create_nl_socket_keeps_example :
    (r : ℤ) × (t : State ℕ) × (create_nl_socket mock 16 start ≡ returns r t)
    × (((false ≡ true) × (r ≡ negsuc 0) × (t.trace ≡ opened (pos 3) ∷ []))
        ⊎ ((false ≡ false)
            × (false ≡ true)
            × (r ≡ negsuc 0)
            × (t.trace ≡ closed (pos 3) ∷ bound (pos 3) (pos 0) ∷ opened (pos 3) ∷ []))
        ⊎ ((false ≡ false)
            × (false ≡ false)
            × (r ≡ pos 3)
            × (t.trace ≡ bound (pos 3) (pos 0) ∷ opened (pos 3) ∷ [])))
create_nl_socket_keeps_example = create_nl_socket_keeps mock 16 start refl

abbrev sized : State ℕ
sized = record start { rcvbufsz = pos 8192 }

create_nl_socket_leaks_example :
    (t : State ℕ) × (create_nl_socket mock 16 sized ≡ returns (negsuc 0) t)
    × (t.trace
        ≡ printed (rcvbuf_failed (pos 8192)) ∷ configured (pos 3) (negsuc 0) ∷ opened (pos 3) ∷ [])
create_nl_socket_leaks_example = create_nl_socket_leaks mock 16 sized refl refl refl
