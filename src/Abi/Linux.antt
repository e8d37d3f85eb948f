-- ===== src/Abi/Linux.antt =====
-- Both byte orders, and the values of the Linux headers, which meet `IsLinux`.
use mathlib.Core.List.{reverse, reverse-append, reverse-reverse}
use native.Mathlib.Nat.{pow-suc}
use universe_native_linux_in.Common.{
  ℕ, zero, suc, ◌+◌, ◌-◌, ◌*◌, ◌/◌, ◌%◌, ◌^◌, ◌<◌, ◌≡◌, refl, ap, ◌∙◌, ◌&&◌, List, [], ◌∷◌, length,
  length-append, not, leb, ltb_ℤ, pos, arith,
}
use universe_native_linux_in.Abi.{ByteOrder, IsByteOrder, Abi, IsLinux, round_up4}

abbrev pub get_le : List ℕ → ℕ
get_le [] = 0
get_le (b ∷ bs) = b % 256 + 256 * get_le bs

abbrev pub put_le : ℕ → ℕ → List ℕ
put_le zero n = []
put_le (suc w) n = (n % 256) ∷ put_le w (n / 256)

abbrev pub little_endian : ByteOrder
little_endian = record { get = get_le; put = put_le }

abbrev pub big_endian : ByteOrder
big_endian = record { get = λ bs. get_le (reverse bs); put = λ w n. reverse (put_le w n) }

length-put_le : (w n : ℕ) → length (put_le w n) ≡ w
length-put_le zero n = refl
length-put_le (suc w) n = ap suc (length-put_le w (n / 256))

get-put_le : (w n : ℕ) → n < 256 ^ w → get_le (put_le w n) ≡ n
get-put_le zero n h = omega arith
get-put_le (suc w) n h = omega (arith, get-put_le w (n / 256) (omega (arith, pow-suc 256 w)))

get_le-lt : (bs : List ℕ) → get_le bs < 256 ^ length bs
get_le-lt [] = omega arith
get_le-lt (b ∷ bs) = omega (arith, get_le-lt bs, pow-suc 256 (length bs))

pub little_endian-IsByteOrder : IsByteOrder little_endian
little_endian-IsByteOrder = record {
  length-put = length-put_le;
  get-put = get-put_le;
  get-lt = get_le-lt;
}

length-reverse : (xs : List ℕ) → length (reverse xs) ≡ length xs
length-reverse [] = refl
length-reverse (x ∷ xs) =
    ap length (reverse-append (x ∷ []) xs)
    ∙ omega (arith, length-append (reverse xs) (x ∷ []), length-reverse xs)

pub big_endian-IsByteOrder : IsByteOrder big_endian
big_endian-IsByteOrder = record {
  length-put = λ w n. length-reverse (put_le w n) ∙ length-put_le w n;
  get-put = λ w n h. rw reverse-reverse (get-put_le w n h);
  get-lt = λ bs. rw (← length-reverse bs) (get_le-lt (reverse bs));
}

abbrev pub linux : ByteOrder → Abi
linux order = record {
  order = order;
  sizeof_nlmsghdr = 16;
  sizeof_genlmsghdr = 4;
  nlmsg_hdrlen = 16;
  genl_hdrlen = 4;
  nla_hdrlen = 4;
  nlmsg_align = round_up4;
  nla_align = round_up4;
  nlmsg_length = λ n. n + 16;
  nlmsg_payload = λ n. (n + 2 ^ 32 - 16) % 2 ^ 32;
  nlmsg_ok = λ n r. leb 16 n && not (ltb_ℤ r (pos 16)) && not (ltb_ℤ r (pos n));
  nlmsg_len_at = 0;
  nlmsg_type_at = 4;
  nlmsg_flags_at = 6;
  nlmsg_seq_at = 8;
  nlmsg_pid_at = 12;
  cmd_at = 0;
  version_at = 1;
  nla_len_at = 0;
  nla_type_at = 2;
  error_at = 0;
  netlink_generic = 16;
  nlm_f_request = 1;
  nlmsg_error = 2;
  genl_id_ctrl = 16;
  ctrl_cmd_getfamily = 3;
  ctrl_attr_family_id = 1;
  ctrl_attr_family_name = 2;
  cgroupstats_type_cgroup_stats = 1;
  cgroupstats_cmd_get = 4;
  cgroupstats_cmd_attr_fd = 1;
  eagain = 11;
  nr_sleeping_at = 0;
  nr_running_at = 8;
  nr_stopped_at = 16;
  nr_uninterruptible_at = 24;
  nr_io_wait_at = 32;
}

pub linux-IsLinux : (o : ByteOrder) → IsByteOrder o → IsLinux (linux o)
linux-IsLinux o h = record {
  order = h;
  sizeof_nlmsghdr = refl;
  sizeof_genlmsghdr = refl;
  nlmsg_hdrlen = refl;
  genl_hdrlen = refl;
  nla_hdrlen = refl;
  nlmsg_align = λ n. refl;
  nla_align = λ n. refl;
  nlmsg_length = λ n. refl;
  nlmsg_payload = λ n. refl;
  nlmsg_ok = λ n r. refl;
  nlmsg_len_at = refl;
  nlmsg_type_at = refl;
  nlmsg_flags_at = refl;
  nlmsg_seq_at = refl;
  nlmsg_pid_at = refl;
  cmd_at = refl;
  version_at = refl;
  nla_len_at = refl;
  nla_type_at = refl;
  nlm_f_request = refl;
  nlmsg_error = refl;
  genl_id_ctrl = refl;
  ctrl_cmd_getfamily = refl;
  ctrl_attr_family_id = refl;
  ctrl_attr_family_name = refl;
}
