-- ===== src/Netlink/Request.antt =====
-- The message that `send_cmd` builds in its local `msg`.
pub mod Fields
pub mod Length
use universe_native_linux_in.Common.{
  ℕ, ◌+◌, ◌*◌, ◌/◌, ◌%◌, ◌^◌, ◌≤◌, ◌<◌, ◌≡◌, Option, none, some, List, [], ◌∷◌, length,
}
use universe_native_linux_in.Abi.{Abi}
use universe_native_linux_in.Machine.Memory.{read, write, Writes, write_all}
use universe_native_linux_in.Netlink.{genlmsghdr_at, genlmsg_data, nla_data}

infixl 5 ◌>>=◌
abbrev ◌>>=◌ {ℓ κ} : {A : Type ℓ} {B : Type κ} → Option A → (A → Option B) → Option B
none >>= f = none
some x >>= f = f x

module _ (a : Abi) where
  -- The stores `msg.n.nlmsg_len = NLMSG_LENGTH(GENL_HDRLEN)` to `msg.g.version = 0x1`, in order.
  unfoldable pub header_stores : ℕ → ℕ → ℕ → Writes
  header_stores nlmsg_type nlmsg_pid genl_cmd =
      (a.nlmsg_len_at, a.order.put 4 (a.nlmsg_length a.genl_hdrlen))
      ∷ (a.nlmsg_type_at, a.order.put 2 nlmsg_type)
      ∷ (a.nlmsg_flags_at, a.order.put 2 a.nlm_f_request)
      ∷ (a.nlmsg_seq_at, a.order.put 4 0)
      ∷ (a.nlmsg_pid_at, a.order.put 4 nlmsg_pid)
      ∷ (genlmsghdr_at a + a.cmd_at, a.order.put 1 genl_cmd)
      ∷ (genlmsghdr_at a + a.version_at, a.order.put 1 1)
      ∷ []

  -- `na = GENLMSG_DATA(&msg)` to `memcpy`. The bytes are what nla_data points to, nla_len of them.
  unfoldable pub attr_stores : ℕ → List ℕ → Writes
  attr_stores nla_type bytes =
      (genlmsg_data a + a.nla_type_at, a.order.put 2 nla_type)
      ∷ (genlmsg_data a + a.nla_len_at, a.order.put 2 ((length bytes + 1 + a.nla_hdrlen) % 2 ^ 16))
      ∷ (nla_data a (genlmsg_data a), bytes)
      ∷ []

  -- `msg.n.nlmsg_len += NLMSG_ALIGN(na->nla_len)`
  unfoldable pub add_length : List ℕ → Option (List ℕ)
  add_length msg = do
    nla_len ← read a msg (genlmsg_data a + a.nla_len_at) 2
    nlmsg_len ← read a msg a.nlmsg_len_at 4
    write msg a.nlmsg_len_at (a.order.put 4 ((nlmsg_len + a.nlmsg_align nla_len) % 2 ^ 32))

  -- The whole message, from what the stack held before.
  unfoldable pub fill_msg : List ℕ → ℕ → ℕ → ℕ → ℕ → List ℕ → Option (List ℕ)
  unfolding header_stores attr_stores add_length
  fill_msg junk nlmsg_type nlmsg_pid genl_cmd nla_type bytes = do
    headers ← write_all (header_stores nlmsg_type nlmsg_pid genl_cmd) junk
    attr ← write_all (attr_stores nla_type bytes) headers
    add_length attr
