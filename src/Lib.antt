-- ===== src/Lib.antt =====
-- Universe.NativeLinux.Interop: the native library libNativeLinuxInterop, which asks the Linux kernel
-- for the statistics of one task over a netlink socket, and the C# reader that calls it.
--
-- A call of `get_taskstats` (so-src/get_taskstats.c) selects a thread or a process, opens a netlink
-- socket (`create_nl_socket`), asks the generic netlink controller for the number of the TASKSTATS
-- family (`get_family_id`), sends a request (`send_cmd`), receives one reply, walks its attributes and
-- copies the statistics to the caller's object (`smart_copy_taskstats`). The number of bytes comes
-- from a table by version (`get_ts_size_bv`). `get_taskstats_version` packs the result of such a call
-- and the version of the statistics into one number, which `GetTaskStatVersion` in
-- Universe.LinuxTaskStats/Universe.LinuxTaskStats/LinuxTaskStatsReader.cs unpacks.
--
-- How the code is modelled
--   Machine        The globals as the record State, with a trace of what the process has done. A
--                  function of the code is a function in the monad M over
--                  that state: it returns, exits, faults by an access outside of an object, or is
--                  still in a loop when the fuel is used up. System calls are the record Os, and
--                  IsOs states what their manual pages document.
--   Machine.Memory A C object is the list of its bytes, a pointer into it an offset; reads, stores and
--                  memcpy check the bounds.
--   Machine.Output What the programs print, and the events of the trace.
--   Machine.Ensures Postconditions of steps in M; Machine.Triple: the same with what is known of the
--                  trace; Machine.Exits: the codes with which they end; Machine.Stops: why they may
--                  use up their fuel.
--   Abi            The values of the system headers (struct nlmsghdr, genlmsghdr and nlattr, the
--                  NLMSG_ and NLA_ macros, EAGAIN) and the byte order are a parameter, and IsLinux
--                  states the values that Linux documents. Abi.Linux has both byte orders.
--   Taskstats      `get_ts_size_bv` and the constants; Fields: struct taskstats in taskstats-v7.h
--                  to taskstats-v10.h; Interface: their enumerations; Layout: where a compiler
--                  places the members; Show: what so-src/show-taskstat-info.c prints of them.
--   Netlink        struct msgtemplate and the macros at the top of get_taskstats.c; Socket:
--                  `create_nl_socket`; Request: the message that `send_cmd` builds, as the list of its
--                  stores in order; Send: `send_cmd` and its loop; Family: `get_family_id`.
--   Reply          The two nested loops over attributes in `get_taskstats`, and the copy; its child
--                  modules are about copies, replies with statistics, and other replies or objects.
--   GetTaskstats   `get_taskstats`, cut at its labels and at recv, `get_tid`, `get_pid`; Labels: the code
--                  at the labels `done` and `err`, and the branches on maskset, containerset, fd and cfd;
--                  Version: `get_taskstats_version`, `GetTaskStatVersion` and `GeTaskStatsVersion`;
--                  Kernel: what a kernel promises to the one who asks it for statistics, as an abstract
--                  service with three phases; Asking, Dialog and Serve: a whole call against such a
--                  kernel; Unanswered: one whose reply does not come, Refused:
--                  one whose reply is an error message; Traces: what the steps keep of the trace, for
--                  Outcome, which is about every run;
--                  Selected: what is left of the requests when a task is given; Ends and Spins: why a
--                  call ends, and over which reply it does not.
--   Original       so-src/original. Changes: changes.c, the library before get_taskstats.c, and Same: the
--                  two side by side. Delays: delays.c, the command-line tool, with its options
--                  (Options), its loop (Reply), its printing (Print) and its `main` (Main; Status is
--                  about how it ends). Loops: the two loops over attributes that both programs have, and
--                  (Endless, Ends) where they come to.
--   Reader         Get_Impl of LinuxTaskStatsReader.cs and its callers: the offsets at which it reads the
--                  object that `get_taskstats` has filled. Offsets compares them with the headers, Serve
--                  is about a whole call, Errors, Unanswered and Refused about one that fails, Version about
--                  GetTaskStatVersion.
--   Interop        TaskStatInterop.cs and TaskStatInteropException.cs beside the reader: the probes for
--                  what is supported (Support) and the texts of the error numbers (Description).
--   Common         Integers, lists and Boolean tests over the native numbers.
--   Tests          The theorems at concrete data.
--
-- The parameters of delays.c are what getopt returns, as a list of options with their arguments,
-- the function atoi, and where the members of struct taskstats lie.
--
-- Bounds and fuel: every loop (sendto, attributes, nested attributes) uses one unit of fuel a round.
-- The loop of sendto needs one round more than it has bytes to send on a socket that blocks. A reply
-- as the kernel builds it needs three rounds; a walk over any reply moves on by four bytes a round, but
-- for an attribute with nla_len 0, so that 17415 rounds are enough for messages of 4116 bytes and
-- attributes below 65536. The arithmetic of C's 16-, 32- and 64-bit numbers is
-- written out. A reply's lengths are not trusted: the pointer moves by what the message says, and a
-- read behind its end is a fault of the model.
--
-- Not modelled: the globals stime and utime and the counters `count` and `i`, which nothing reads;
-- the code that the sources hold in comments; what only a debug build of the C# library prints, its
-- debug view, its tests and the build. What stands behind a system call is not modelled either:
-- theorems hold for every Os, or for every one that meets the stated conditions.
pub mod Common
pub mod Abi
pub mod Machine
pub mod Taskstats
pub mod Netlink
pub mod Reply
pub mod GetTaskstats
pub mod Original
pub mod Reader
pub mod Interop
pub mod Tests
