-- ===== src/Netlink.antt =====
-- The netlink half of so-src/get_taskstats.c: the message buffer and its macros, the socket, the
-- request that `send_cmd` builds and sends, and the query for the family id.
pub mod Request
pub mod Socket
pub mod Send
pub mod Family
use universe_native_linux_in.Common.{ℕ, ◌+◌, ◌-◌, ◌%◌, ◌^◌, ℤ, signed32, sub_ℕ}
use universe_native_linux_in.Abi.{Abi}

-- MAX_MSG_SIZE
abbrev pub max_msg_size : ℕ
max_msg_size = 4096

module _ (a : Abi) where
  -- sizeof (struct msgtemplate)
  abbrev pub msgtemplate_size : ℕ
  msgtemplate_size = a.sizeof_nlmsghdr + a.sizeof_genlmsghdr + max_msg_size

  -- The offset of the member `g` of struct msgtemplate
  abbrev pub genlmsghdr_at : ℕ
  genlmsghdr_at = a.sizeof_nlmsghdr

  -- GENLMSG_DATA(&msg), as an offset into msg
  abbrev pub genlmsg_data : ℕ
  genlmsg_data = a.nlmsg_hdrlen + a.genl_hdrlen

  -- GENLMSG_PAYLOAD(&msg.n), assigned to an int
  abbrev pub genlmsg_payload : ℕ → ℤ
  genlmsg_payload nlmsg_len =
      signed32 ((a.nlmsg_payload nlmsg_len + 2 ^ 32 - a.genl_hdrlen) % 2 ^ 32)

  -- NLA_DATA(na), as an offset
  abbrev pub nla_data : ℕ → ℕ
  nla_data na = na + a.nla_hdrlen

  -- NLA_PAYLOAD(len)
  abbrev pub nla_payload : ℕ → ℤ
  nla_payload len = sub_ℕ len a.nla_hdrlen
