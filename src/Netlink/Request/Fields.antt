-- ===== src/Netlink/Request/Fields.antt =====
-- The fields of the message that `send_cmd` sends.
use universe_native_linux_in.Common.{
  ℕ, suc, ◌+◌, ◌%◌, ◌^◌, ◌≤◌, ◌<◌, ◌≡◌, refl, ◌∙◌, ap, some, List, [], ◌∷◌, ◌++◌, length, take,
  drop, slice, patch, arith,
}
use universe_native_linux_in.Abi.{Abi, IsLinux, IsByteOrder, round_up4}
use universe_native_linux_in.Machine.Memory.{
  read, write_lem, Writes, apply, write_all_lem, Fits, Clear, slice-apply, slice-apply-Clear,
  length-apply, read_stored,
}
use universe_native_linux_in.Netlink.{genlmsghdr_at, genlmsg_data, nla_data}
use universe_native_linux_in.Netlink.Request.{header_stores, attr_stores, add_length, fill_msg}

add_length_lem :
    (a : Abi) (law : IsLinux a) (msg : List ℕ) (nlmsg_len nla_len : ℕ)
    → 4 ≤ length msg
    → read a msg (genlmsg_data a + a.nla_len_at) 2 ≡ some nla_len
    → read a msg a.nlmsg_len_at 4 ≡ some nlmsg_len
    → add_length a msg
      ≡ some
          (patch a.nlmsg_len_at (a.order.put 4 ((nlmsg_len + a.nlmsg_align nla_len) % 2 ^ 32)) msg)
unfolding add_length
add_length_lem a law msg nlmsg_len nla_len h e f =
    rw (e, f) (write_lem msg a.nlmsg_len_at _ (omega (arith, IsByteOrder.length-put law.order)))

-- What the receiver finds in a message of `send_cmd`.
pub record IsRequest (a : Abi) (nlmsg_type nlmsg_pid genl_cmd nla_type : ℕ) (bytes msg : List ℕ)
    : Type 0 where
  pub nlmsg_len : read a msg a.nlmsg_len_at 4 ≡ some (20 + round_up4 (length bytes + 5))
  pub nlmsg_type_is : read a msg a.nlmsg_type_at 2 ≡ some nlmsg_type
  pub nlmsg_flags : read a msg a.nlmsg_flags_at 2 ≡ some a.nlm_f_request
  pub nlmsg_seq : read a msg a.nlmsg_seq_at 4 ≡ some 0
  pub nlmsg_pid_is : read a msg a.nlmsg_pid_at 4 ≡ some nlmsg_pid
  pub cmd : read a msg (genlmsghdr_at a + a.cmd_at) 1 ≡ some genl_cmd
  pub version : read a msg (genlmsghdr_at a + a.version_at) 1 ≡ some 1
  pub nla_len : read a msg (genlmsg_data a + a.nla_len_at) 2 ≡ some (length bytes + 5)
  pub nla_type_is : read a msg (genlmsg_data a + a.nla_type_at) 2 ≡ some nla_type
  pub payload : slice (nla_data a (genlmsg_data a)) (length bytes) msg ≡ bytes

module _ (a : Abi) (law : IsLinux a) (junk bytes : List ℕ)
    (nlmsg_type nlmsg_pid genl_cmd nla_type : ℕ) {room : ℕ} (sized : length junk ≡ room)
    (holds : 24 + length bytes ≤ room) (fits : length bytes + 5 < 2 ^ 16)
    (type_small : nlmsg_type < 2 ^ 16) (pid_small : nlmsg_pid < 2 ^ 32)
    (cmd_small : genl_cmd < 2 ^ 8) (nla_small : nla_type < 2 ^ 16) where
  first_stores : Writes
  unfolding header_stores
  first_stores = header_stores a nlmsg_type nlmsg_pid genl_cmd

  second_stores : Writes
  unfolding attr_stores
  second_stores = attr_stores a nla_type bytes

  before_length : Writes
  unfolding first_stores second_stores
  before_length = first_stores ++ second_stores

  last_store : ℕ × List ℕ
  last_store = (a.nlmsg_len_at, a.order.put 4 ((20 + a.nlmsg_align (length bytes + 5)) % 2 ^ 32))

  all_stores : Writes
  unfolding before_length last_store
  all_stores = before_length ++ (last_store ∷ [])

  length-put : (w n : ℕ) → length (a.order.put w n) ≡ w
  length-put = IsByteOrder.length-put law.order

  message : List ℕ
  unfolding all_stores
  message = apply all_stores junk

  size : (ws : Writes) → length (apply ws junk) ≡ room
  size ws = length-apply ws junk ∙ sized

  first-Fits : Fits (length junk) first_stores
  unfolding first_stores
  first-Fits = omega (arith, length-put)

  second-Fits : Fits (length (apply first_stores junk)) second_stores
  unfolding second_stores
  second-Fits = rw (size first_stores) (omega (arith, length-put))

  read_len : read a (apply before_length junk) a.nlmsg_len_at 4 ≡ some 20
  unfolding before_length
  read_len =
      read_stored a law.order (drop 1 before_length) junk a.nlmsg_len_at 4
        (a.nlmsg_length a.genl_hdrlen) (omega (arith, law.nlmsg_length)) (omega arith)
        (omega (arith, length-put))
      ∙ ap some (omega (arith, law.nlmsg_length))

  attr_len : (length bytes + 1 + a.nla_hdrlen) % 2 ^ 16 ≡ length bytes + 5
  attr_len = omega arith

  read_nla_len :
      read a (apply before_length junk) (genlmsg_data a + a.nla_len_at) 2 ≡ some (length bytes + 5)
  unfolding before_length
  read_nla_len =
      read_stored a law.order (drop 9 before_length) (apply (take 8 before_length) junk)
        (genlmsg_data a + a.nla_len_at) 2 ((length bytes + 1 + a.nla_hdrlen) % 2 ^ 16) (omega arith)
        (omega (arith, size (take 8 before_length))) (omega (arith, length-put))
      ∙ ap some attr_len

  fill_msg_lem : fill_msg a junk nlmsg_type nlmsg_pid genl_cmd nla_type bytes ≡ some message
  unfolding fill_msg message
  fill_msg_lem = rw (write_all_lem first_stores junk first-Fits) (
      rw (write_all_lem second_stores (apply first_stores junk) second-Fits) (
        add_length_lem a law (apply before_length junk) 20 (length bytes + 5)
          (omega (arith, size before_length)) read_nla_len read_len))

  total_small : (20 + a.nlmsg_align (length bytes + 5)) % 2 ^ 32 ≡ 20 + round_up4 (length bytes + 5)
  total_small = omega (arith, law.nlmsg_align)

  -- The number of the k-th store, if the later stores leave it alone.
  stored :
      (k i w v : ℕ)
      → (v < 256 ^ w) × (i + w ≤ room) × Clear i w (drop (suc k) all_stores)
      → read a
          (apply
            (drop (suc k) all_stores)
            (patch i (a.order.put w v) (apply (take k all_stores) junk)))
          i
          w
        ≡ some v
  stored k i w v (small, inside, clear) =
      read_stored a law.order (drop (suc k) all_stores) (apply (take k all_stores) junk) i w v small
        (rw (size (take k all_stores)) inside) clear

  message-IsRequest : IsRequest a nlmsg_type nlmsg_pid genl_cmd nla_type bytes message
  unfolding message
  message-IsRequest = record {
    nlmsg_len =
        stored 10 a.nlmsg_len_at 4 _ (omega (arith, length-put, law.nlmsg_align))
        ∙ ap some total_small;
    nlmsg_type_is =
        stored 1 a.nlmsg_type_at 2 nlmsg_type (omega (arith, length-put, law.nlmsg_align));
    nlmsg_flags =
        stored 2 a.nlmsg_flags_at 2 a.nlm_f_request (omega (arith, length-put, law.nlmsg_align));
    nlmsg_seq = stored 3 a.nlmsg_seq_at 4 0 (omega (arith, length-put, law.nlmsg_align));
    nlmsg_pid_is = stored 4 a.nlmsg_pid_at 4 nlmsg_pid (omega (arith, length-put, law.nlmsg_align));
    cmd =
        stored 5 (genlmsghdr_at a + a.cmd_at) 1 genl_cmd
          (omega (arith, length-put, law.nlmsg_align));
    version =
        stored 6 (genlmsghdr_at a + a.version_at) 1 1 (omega (arith, length-put, law.nlmsg_align));
    nla_len =
        stored 8 (genlmsg_data a + a.nla_len_at) 2 _ (omega (arith, length-put, law.nlmsg_align))
        ∙ ap some attr_len;
    nla_type_is =
        stored 7 (genlmsg_data a + a.nla_type_at) 2 nla_type
          (omega (arith, length-put, law.nlmsg_align));
    payload =
        slice-apply (drop 10 all_stores) (apply (take 9 all_stores) junk) bytes
          (nla_data a (genlmsg_data a)) (length bytes) refl
          (omega (arith, size (take 9 all_stores))) (omega (arith, length-put));
  }

  -- `send_cmd` builds its message without an access outside of msg, whatever the stack held: the
  -- message has the length, type, flags, sequence number, pid, command and version that the code
  -- assigns, and one attribute with the type and the bytes that the caller gave, whose nla_len is
  -- one more than its header and these bytes take. The parameters fit their fields, the
  -- headers and the bytes fit msg, of whichever size it is, and nla_len fits its field.
  pub fill_msg-IsRequest :
      (msg : List ℕ) × (fill_msg a junk nlmsg_type nlmsg_pid genl_cmd nla_type bytes ≡ some msg)
      × (length msg ≡ room)
      × IsRequest a nlmsg_type nlmsg_pid genl_cmd nla_type bytes msg
  unfolding message
  fill_msg-IsRequest = (message, fill_msg_lem, size all_stores, message-IsRequest)

  -- The byte that nla_len counts behind the caller's bytes is the one that the stack held there.
  pub fill_msg_keeps_stack :
      (msg : List ℕ) × (fill_msg a junk nlmsg_type nlmsg_pid genl_cmd nla_type bytes ≡ some msg)
      × (read a msg (genlmsg_data a + a.nla_len_at) 2 ≡ some (a.nla_hdrlen + length bytes + 1))
      × (slice (nla_data a (genlmsg_data a) + length bytes) 1 msg
          ≡ slice (nla_data a (genlmsg_data a) + length bytes) 1 junk)
  unfolding message
  fill_msg_keeps_stack = (
    message,
    fill_msg_lem,
    message-IsRequest.nla_len ∙ ap some (omega arith),
    slice-apply-Clear all_stores junk _ 1 (omega (arith, length-put)),
  )
