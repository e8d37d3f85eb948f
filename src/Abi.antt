-- ===== src/Abi.antt =====
-- What the program takes from outside the repository: the byte order of the machine, and the
-- macros, structure layouts and constants of the system headers linux/netlink.h,
-- linux/genetlink.h, linux/cgroupstats.h and errno.h. They are parameters of the model;
-- `IsLinux` states what the headers document, and Abi/Linux.antt has values that meet it.
pub mod Linux
use universe_native_linux_in.Common.{
  ℕ, ◌+◌, ◌-◌, ◌*◌, ◌/◌, ◌%◌, ◌^◌, ◌<◌, ◌≤◌, ◌≡◌, ◌&&◌, ◌≢◌, Bool, List, ℤ, pos, leb, ltb_ℤ, not,
  length,
}

-- The bytes of an unsigned number in memory, and the number that bytes hold.
pub record ByteOrder : Type 0 where
  pub get : List ℕ → ℕ
  pub put : ℕ → ℕ → List ℕ

pub record IsByteOrder (o : ByteOrder) : Type 0 where
  pub length-put : (w n : ℕ) → length (o.put w n) ≡ w
  pub get-put : (w n : ℕ) → n < 256 ^ w → o.get (o.put w n) ≡ n
  pub get-lt : (bytes : List ℕ) → o.get bytes < 256 ^ length bytes

pub record Abi : Type 0 where
  pub order : ByteOrder
  -- sizeof (struct nlmsghdr), sizeof (struct genlmsghdr), and the macros
  pub sizeof_nlmsghdr : ℕ
  pub sizeof_genlmsghdr : ℕ
  pub nlmsg_hdrlen : ℕ
  pub genl_hdrlen : ℕ
  pub nla_hdrlen : ℕ
  pub nlmsg_align : ℕ → ℕ
  pub nla_align : ℕ → ℕ
  pub nlmsg_length : ℕ → ℕ
  pub nlmsg_payload : ℕ → ℕ
  pub nlmsg_ok : ℕ → ℤ → Bool
  -- Offsets of the fields of struct nlmsghdr, genlmsghdr, nlattr and nlmsgerr
  pub nlmsg_len_at : ℕ
  pub nlmsg_type_at : ℕ
  pub nlmsg_flags_at : ℕ
  pub nlmsg_seq_at : ℕ
  pub nlmsg_pid_at : ℕ
  pub cmd_at : ℕ
  pub version_at : ℕ
  pub nla_len_at : ℕ
  pub nla_type_at : ℕ
  pub error_at : ℕ
  -- Constants
  pub netlink_generic : ℕ
  pub nlm_f_request : ℕ
  pub nlmsg_error : ℕ
  pub genl_id_ctrl : ℕ
  pub ctrl_cmd_getfamily : ℕ
  pub ctrl_attr_family_id : ℕ
  pub ctrl_attr_family_name : ℕ
  pub cgroupstats_type_cgroup_stats : ℕ
  pub cgroupstats_cmd_get : ℕ
  pub cgroupstats_cmd_attr_fd : ℕ
  pub eagain : ℕ
  -- Offsets of the fields of struct cgroupstats
  pub nr_sleeping_at : ℕ
  pub nr_running_at : ℕ
  pub nr_stopped_at : ℕ
  pub nr_uninterruptible_at : ℕ
  pub nr_io_wait_at : ℕ

-- n rounded up to a multiple of four
abbrev pub round_up4 : ℕ → ℕ
round_up4 n = (n + 3) / 4 * 4

-- What linux/netlink.h and linux/genetlink.h document.
pub record IsLinux (a : Abi) : Type 0 where
  pub order : IsByteOrder a.order
  pub sizeof_nlmsghdr : a.sizeof_nlmsghdr ≡ 16
  pub sizeof_genlmsghdr : a.sizeof_genlmsghdr ≡ 4
  pub nlmsg_hdrlen : a.nlmsg_hdrlen ≡ 16
  pub genl_hdrlen : a.genl_hdrlen ≡ 4
  pub nla_hdrlen : a.nla_hdrlen ≡ 4
  pub nlmsg_align : (n : ℕ) → a.nlmsg_align n ≡ round_up4 n
  pub nla_align : (n : ℕ) → a.nla_align n ≡ round_up4 n
  pub nlmsg_length : (n : ℕ) → a.nlmsg_length n ≡ n + 16
  pub nlmsg_payload : (n : ℕ) → a.nlmsg_payload n ≡ (n + 2 ^ 32 - 16) % 2 ^ 32
  pub nlmsg_ok :
      (n : ℕ) (r : ℤ)
      → a.nlmsg_ok n r ≡ (leb 16 n && not (ltb_ℤ r (pos 16)) && not (ltb_ℤ r (pos n)))
  pub nlmsg_len_at : a.nlmsg_len_at ≡ 0
  pub nlmsg_type_at : a.nlmsg_type_at ≡ 4
  pub nlmsg_flags_at : a.nlmsg_flags_at ≡ 6
  pub nlmsg_seq_at : a.nlmsg_seq_at ≡ 8
  pub nlmsg_pid_at : a.nlmsg_pid_at ≡ 12
  pub cmd_at : a.cmd_at ≡ 0
  pub version_at : a.version_at ≡ 1
  pub nla_len_at : a.nla_len_at ≡ 0
  pub nla_type_at : a.nla_type_at ≡ 2
  pub nlm_f_request : a.nlm_f_request ≡ 1
  pub nlmsg_error : a.nlmsg_error ≡ 2
  pub genl_id_ctrl : a.genl_id_ctrl ≡ 16
  pub ctrl_cmd_getfamily : a.ctrl_cmd_getfamily ≡ 3
  pub ctrl_attr_family_id : a.ctrl_attr_family_id ≡ 1
  pub ctrl_attr_family_name : a.ctrl_attr_family_name ≡ 2
