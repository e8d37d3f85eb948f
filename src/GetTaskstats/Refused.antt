-- ===== src/GetTaskstats/Refused.antt =====
-- A whole call of `get_taskstats` whose request is taken, and whose reply is an error message.
use universe_native_linux_in.Common.{
  ℕ, suc, ◌+◌, ◌^◌, ◌≤◌, ◌<◌, ◌≡◌, Bool, false, some, List, ℤ, pos, is_negative, signed32, length,
  arith, ◌||◌,
}
use universe_native_linux_in.Abi.{Abi, IsLinux}
use universe_native_linux_in.Machine.{Os, IsOs, State, Message, note, received, returns, ◌>>=◌}
use universe_native_linux_in.Machine.Memory.{read, read-patch_inside}
use universe_native_linux_in.Netlink.{msgtemplate_size}
use universe_native_linux_in.Reply.Steps.{say_if}
use universe_native_linux_in.GetTaskstats.{
  selected, select_task, handle_reply, receive, get_taskstats,
}
use universe_native_linux_in.GetTaskstats.Kernel.{Phase, stats_asked, Listener}
use universe_native_linux_in.GetTaskstats.Dialog.{get_taskstats_replies}

-- An error message: its header has the type of one, and an error number is behind the header.
pub record IsRefusal (a : Abi) (bytes : List ℕ) : Type 0 where
  pub nlmsg_len : ℕ
  pub error : ℕ
  pub type_is : read a bytes a.nlmsg_type_at 2 ≡ some a.nlmsg_error
  pub len_is : read a bytes a.nlmsg_len_at 4 ≡ some nlmsg_len
  pub error_is : read a bytes (a.nlmsg_hdrlen + a.error_at) 4 ≡ some error

-- The kernel answers the request for statistics with an error message.
abbrev pub Refuses : {S : Type 0} → Os S → Abi → ℤ → (S → Phase) → Type 0
Refuses {S} os a sd phase =
    (id_type id : ℕ) (s : S)
    → phase s ≡ stats_asked id_type id
    → (is_negative (os.recv sd (msgtemplate_size a) s).0 ≡ false)
      × IsRefusal a (os.recv sd (msgtemplate_size a) s).1

module _ {S : Type 0} (os : Os S) (a : Abi) (law : IsLinux a) (docs : IsOs os) (sd : ℤ) (family : ℕ)
    (phase : S → Phase) (kernel : Listener os a sd family phase) (refuses : Refuses os a sd phase)
    (debug : Bool) (target : List ℕ) where
  receive_refused :
      (fuel id_type id : ℕ) (junk : List ℕ) (s : State S)
      → length junk ≡ 4116
      → phase s.os ≡ stats_asked id_type id
      → (t : State S) × (receive os a debug fuel sd junk target s ≡ returns (8, target) t)
  unfolding receive handle_reply ◌>>=◌
  receive_refused fuel id_type id junk s sized asked =
      let (good, refusal) = refuses id_type id s.os asked in
      let r : ℤ = (os.recv sd (msgtemplate_size a) s.os).0 in
      let bytes : List ℕ = (os.recv sd (msgtemplate_size a) s.os).1 in
      let fits : length bytes ≤ length junk =
        omega (arith, docs.recv_fits sd (msgtemplate_size a) s.os) in
      let inside =
        λ (i w v : ℕ) (h : read a bytes i w ≡ some v). read-patch_inside a bytes junk i w fits h in
      let s' : State S =
        say_if (s.dbg || debug) (Message.received_bytes r) (
          note (received sd r bytes)
            (record s { os = (os.recv sd (msgtemplate_size a) s.os).2 })) in
      (
        say_if debug (Message.fatal_reply (signed32 refusal.error)) s',
        rw
            (
              good,
              inside _ 2 _ refusal.type_is,
              inside _ 4 _ refusal.len_is,
              inside _ 4 _ refusal.error_is,
            )
            (ground arith),
      )

  -- With a kernel that takes both requests and answers the one for statistics with an error message,
  -- a call for a thread or a process returns 8, whatever the error is, and leaves the caller's
  -- object as it was.
  pub get_taskstats_refused :
      (fuel pid tgid id_type id : ℕ) (target_length : ℤ) (s : State S)
      → select_task pid tgid ≡ selected id_type id
      → pid < 2 ^ 32
      → tgid < 2 ^ 32
      → length s.name ≡ 100
      → s.rcvbufsz ≡ pos 0
      → (t : State S) × (get_taskstats os a debug
            (suc (suc (suc fuel)))
            pid
            tgid
            target
            target_length
            s
          ≡ returns (8, target) t)
  get_taskstats_refused fuel pid tgid id_type id target_length s chosen pid_small tgid_small named
        nobuf =
      get_taskstats_replies os a law docs sd family phase kernel debug target fuel id_type id
        (8, target)
        (λ junk t sized asked. receive_refused (suc (suc (suc fuel))) id_type id junk t sized asked)
        pid tgid target_length s chosen pid_small tgid_small named nobuf
