-- ===== src/Machine/Output.antt =====
-- The lines that the programs print, and the trace of what a process has done.
use universe_native_linux_in.Common.{ℕ, List, ℤ}

-- The lines that the code prints.
pub data Message : Type 0 where
  rcvbuf_failed : ℤ → Message
  socket_failed : Message
  family_failed : ℕ → Message
  family_id : ℕ → Message
  sent_pid_tgid : ℤ → Message
  send_failed : Message
  received_bytes : ℤ → Message
  nonfatal_reply : ℕ → Message
  fatal_reply : ℤ → Message
  header_sizes : ℕ → ℕ → ℤ → Message
  arrived_pid : ℤ → Message
  arrived_tgid : ℤ → Message
  unknown_nested : ℕ → Message
  unknown_type : ℕ → Message
  container_failed : Message
  cgroup_failed : Message
  -- Lines of so-src/original only
  pid_line : ℤ → Message
  tgid_line : ℤ → Message
  delays_on : Message
  io_accounting_on : Message
  switch_counts_on : Message
  log_file : List ℕ → Message
  rcvbuf_size : ℤ → Message
  invalid_rcvbuf : Message
  cpumask_set : List ℕ → Message
  invalid_tgid : Message
  invalid_pid : Message
  debug_on : Message
  listen_forever : Message
  usage_lines : Message
  no_log_file : Message
  no_socket : Message
  no_family : ℕ → Message
  sent_register_cpumask : ℤ → Message
  register_cpumask_failed : Message
  not_both : Message
  task_cmd_failed : Message
  no_container : Message
  cgroup_cmd_failed : Message
  recv_failed : ℕ → Message
  reply_failed : ℤ → Message
  delay_lines : List ℕ → Message
  io_line : List ℕ → List ℕ → Message
  switch_counts : List ℕ → Message
  cgroup_line : List ℕ → Message
  unknown_nested_type : ℕ → Message
  write_failed : Message
  sent_deregister_mask : ℤ → Message
  deregister_cpumask_failed : Message

-- What the process has done to its surroundings.
pub data Event : Type 0 where
  opened : ℤ → Event
  configured : ℤ → ℤ → Event
  bound : ℤ → ℤ → Event
  closed : ℤ → Event
  sent : ℤ → List ℕ → ℤ → Event
  received : ℤ → ℤ → List ℕ → Event
  opened_file : List ℕ → ℤ → Event
  wrote : ℤ → List ℕ → ℤ → Event
  printed : Message → Event
