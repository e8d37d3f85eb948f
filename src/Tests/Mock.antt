-- ===== src/Tests/Mock.antt =====
-- Simulated systems.
use Prim.Native.Nat.{zero-le}
use universe_native_linux_in.Common.{
  ℕ, refl, [], pos, negsuc, length, replicate, length-replicate, true, false, arith,
}
use universe_native_linux_in.Abi.{Abi, IsLinux}
use universe_native_linux_in.Abi.Linux.{
  linux, linux-IsLinux, little_endian, little_endian-IsByteOrder,
}
use universe_native_linux_in.Machine.{Os, IsOs, State}
use universe_native_linux_in.Netlink.Send.Total.{Blocks, NeverReady}

abbrev pub x64 : Abi
x64 = linux little_endian

pub x64-IsLinux : IsLinux x64
x64-IsLinux = linux-IsLinux little_endian little_endian-IsByteOrder

-- Everything is sent at once, recv and setsockopt fail, and memory is zero.
abbrev pub mock : Os ℕ
mock = record {
  socket = λ protocol s. (pos 3, s);
  setsockopt = λ fd n s. (negsuc 0, s);
  bind = λ fd s. (pos 0, s);
  close = λ fd s. s;
  sendto = λ fd bytes s. (pos (length bytes), s);
  recv = λ fd n s. (negsuc 0, [], s);
  open_file = λ path writes s. (pos 4, s);
  write_file = λ fd bytes s. (pos (length bytes), s);
  errno = λ s. 11;
  getpid = λ s. 100;
  gettid = λ s. 101;
  stack = λ n s. replicate n 0;
  malloc = λ n s. (replicate n 0, s);
  free = λ s. s;
}

pub mock-IsOs : IsOs mock
mock-IsOs = record {
  length-stack = λ n s. length-replicate n 0;
  recv_fits = λ fd n s. zero-le;
  recv_count = λ fd n s. refl;
}

pub mock-Blocks : Blocks mock x64
mock-Blocks sd bytes s stalled = absurd (omega arith)

-- No socket can be made.
abbrev pub no_socket : Os ℕ
no_socket = record mock { socket = λ protocol s. (negsuc 0, s) }

-- sendto takes nothing, and errno stays EAGAIN.
abbrev pub full_queue : Os ℕ
full_queue = record mock { sendto = λ fd bytes s. (negsuc 0, s) }

pub full_queue-NeverReady : NeverReady full_queue x64
full_queue-NeverReady sd bytes s = (tt, refl)

abbrev pub start : State ℕ
start = record {
  os = 0;
  trace = [];
  dbg = false;
  rcvbufsz = pos 0;
  name = [];
  done = 0;
  cpumask = replicate 292 0;
  print_delays = true;
  print_io_accounting = true;
  print_task_context_switch_counts = true;
}
