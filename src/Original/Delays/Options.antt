-- ===== src/Original/Delays/Options.antt =====
-- The loop over the options in `main` of so-src/original/delays.c. getopt is a parameter of the
-- model by its results: the characters that it returns before -1, each with the bytes of optarg.
-- So is atoi.
pub mod Ready
pub mod Overrun
use universe_native_linux_in.Common.{
  ℕ, ◌+◌, Bool, true, false, List, [], ◌∷◌, ◌++◌, ℤ, pos, negsuc, is_negative, length, ◌==◌,
  if◌then◌else◌,
}
use universe_native_linux_in.Machine.{
  State, M, Run, returns, exits, faults, diverges, Message, pure, gets, modify, checked, print,
  exit, ◌>>=◌, ◌>>◌,
}
use universe_native_linux_in.Machine.Memory.{strncpy, c_string}
use universe_native_linux_in.Taskstats.{
  taskstats_cmd_attr_unspec, taskstats_cmd_attr_pid, taskstats_cmd_attr_tgid,
}
use universe_native_linux_in.Netlink.Socket.{is_nonzero}
use universe_native_linux_in.Original.Delays.{cpumask_size}

-- The locals that the options set.
pub record Locals : Type 0 where
  pub cmd_type : ℕ
  pub tid : ℤ
  pub write_file : Bool
  pub maskset : Bool
  pub logfile : List ℕ
  pub loop : Bool
  pub containerset : Bool
  pub containerpath : List ℕ

-- As they are declared. containerpath is not initialised; logfile, which is NULL, is not used
-- before it is set.
unfoldable pub initial : List ℕ → Locals
initial junk = record {
  cmd_type = taskstats_cmd_attr_unspec;
  tid = pos 0;
  write_file = false;
  maskset = false;
  logfile = [];
  loop = false;
  containerset = false;
  containerpath = junk;
}

-- `err(code, …)`
abbrev pub err : {S A : Type 0} → ℤ → Message → M S A
err code m = print m >> exit code

module _ {S : Type 0} (atoi : List ℕ → ℤ) where
  -- The options `t` and `p`.
  unfoldable pub task_option : ℕ → Message → List ℕ → Locals → M S Locals
  task_option cmd_type invalid optarg l =
      if is_nonzero (atoi optarg)
      then pure (record l { tid = atoi optarg; cmd_type = cmd_type })
      else err (pos 1) invalid

  unfoldable pub rcvbuf_option : List ℕ → Locals → M S Locals
  rcvbuf_option optarg l = do
    modify (λ s. record s { rcvbufsz = atoi optarg })
    print (Message.rcvbuf_size (atoi optarg))
    if is_negative (atoi optarg) then err (pos 1) Message.invalid_rcvbuf else pure l

  unfoldable pub cpumask_option : List ℕ → Locals → M S Locals
  cpumask_option optarg l = do
    old ← gets (λ s. s.cpumask)
    mask ← checked (strncpy old optarg cpumask_size)
    modify (λ s. record s { cpumask = mask })
    text ← checked (c_string mask)
    print (Message.cpumask_set text)
    pure (record l { maskset = true })

  unfoldable pub container_option : List ℕ → Locals → M S Locals
  container_option optarg l = do
    path ← checked (strncpy l.containerpath optarg (length optarg + 1))
    pure (record l { containerset = true; containerpath = path })

  -- The switch on what getopt returned.
  unfoldable pub option : ℕ → List ℕ → Locals → M S Locals
  unfolding task_option rcvbuf_option cpumask_option container_option
  option c optarg l =
      if c == b'd'
      then print Message.delays_on >> modify (λ s. record s { print_delays = true }) >> pure l
      else if c == b'i'
      then print Message.io_accounting_on
        >> modify (λ s. record s { print_io_accounting = true })
        >> pure l
      else if c == b'q'
      then print Message.switch_counts_on
        >> modify (λ s. record s { print_task_context_switch_counts = true })
        >> pure l
      else if c == b'C'
      then container_option optarg l
      else if c == b'w'
      then print (Message.log_file optarg)
        >> pure (record l { logfile = optarg; write_file = true })
      else if c == b'r'
      then rcvbuf_option optarg l
      else if c == b'm'
      then cpumask_option optarg l
      else if c == b't'
      then task_option taskstats_cmd_attr_tgid Message.invalid_tgid optarg l
      else if c == b'p'
      then task_option taskstats_cmd_attr_pid Message.invalid_pid optarg l
      else if c == b'v'
      then print Message.debug_on >> modify (λ s. record s { dbg = true }) >> pure l
      else if c == b'l'
      then print Message.listen_forever >> pure (record l { loop = true })
      else err (negsuc 0) Message.usage_lines

  unfoldable pub options : List (ℕ × List ℕ) → Locals → M S Locals
  options [] l = pure l
  options ((c, optarg) ∷ rest) l = option c optarg l >>= options rest
