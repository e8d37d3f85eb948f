-- ===== src/Original/Delays/Print.antt =====
-- The functions of so-src/original/delays.c that print statistics. What they point to lies in the
-- message that was received.
use Prim.Native.String.{String}
use universe_native_linux_in.Common.{ℕ, ◌+◌, List, [], ◌∷◌, drop}
use universe_native_linux_in.Abi.{Abi}
use universe_native_linux_in.Machine.{M, Message, pure, checked, print, ◌>>=◌}
use universe_native_linux_in.Machine.Memory.{read, c_string}
use universe_native_linux_in.Taskstats.Layout.{Placed, member}

-- `taskstats` is the layout of the struct taskstats that the program is compiled with.
module _ {S : Type 0} (a : Abi) (taskstats : List Placed) (msg : List ℕ) where
  -- t->name, for a number
  unfoldable pub get_member : ℕ → String → M S ℕ
  unfolding member
  get_member t name = do
    p ← checked (member name taskstats)
    checked (read a msg (t + p.offset) p.size)

  unfoldable pub get_members : ℕ → List String → M S (List ℕ)
  unfolding get_member
  get_members t [] = pure []
  get_members t (name ∷ names) = do v ← get_member t name; vs ← get_members t names; pure (v ∷ vs)

  unfoldable pub print_delayacct : ℕ → M S (Unit {0})
  unfolding get_members
  print_delayacct t = do
    values ← get_members t (
        "cpu_count" ∷ "cpu_run_real_total" ∷ "cpu_run_virtual_total" ∷ "cpu_delay_total"
        ∷ "blkio_count" ∷ "blkio_delay_total" ∷ "swapin_count" ∷ "swapin_delay_total"
        ∷ "freepages_count" ∷ "freepages_delay_total" ∷ [])
    print (Message.delay_lines values)

  unfoldable pub task_context_switch_counts : ℕ → M S (Unit {0})
  unfolding get_members
  task_context_switch_counts t = do
    values ← get_members t ("nvcsw" ∷ "nivcsw" ∷ [])
    print (Message.switch_counts values)

  unfoldable pub print_cgroupstats : ℕ → M S (Unit {0})
  print_cgroupstats c = do
    sleeping ← checked (read a msg (c + a.nr_sleeping_at) 8)
    blocked ← checked (read a msg (c + a.nr_io_wait_at) 8)
    running ← checked (read a msg (c + a.nr_running_at) 8)
    stopped ← checked (read a msg (c + a.nr_stopped_at) 8)
    uninterruptible ← checked (read a msg (c + a.nr_uninterruptible_at) 8)
    print (Message.cgroup_line (sleeping ∷ blocked ∷ running ∷ stopped ∷ uninterruptible ∷ []))

  unfoldable pub print_ioacct : ℕ → M S (Unit {0})
  unfolding get_members
  print_ioacct t = do
    p ← checked (member "ac_comm" taskstats)
    comm ← checked (c_string (drop (t + p.offset) msg))
    values ← get_members t ("read_bytes" ∷ "write_bytes" ∷ "cancelled_write_bytes" ∷ [])
    print (Message.io_line comm values)
