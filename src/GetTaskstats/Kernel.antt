-- ===== src/GetTaskstats/Kernel.antt =====
-- What the kernel promises to the one who asks it over a netlink socket: the abstract service that
-- `get_taskstats` of so-src/get_taskstats.c uses.
use universe_native_linux_in.Common.{
  ℕ, ◌+◌, ◌^◌, ◌<◌, ◌≡◌, ◌≢◌, true, false, some, List, [], ◌∷◌, ◌++◌, ℤ, pos, is_negative, ltb_ℤ,
  length, slice,
}
use universe_native_linux_in.Abi.{Abi, round_up4}
use universe_native_linux_in.Machine.{Os}
use universe_native_linux_in.Machine.Memory.{read}
use universe_native_linux_in.Taskstats.{get_ts_size_bv, taskstats_cmd_get, taskstats_genl_name}
use universe_native_linux_in.Netlink.{msgtemplate_size, genlmsg_data, genlmsg_payload, nla_data}
use universe_native_linux_in.Netlink.Request.Fields.{IsRequest}
use universe_native_linux_in.Netlink.Family.{ans_size}
use universe_native_linux_in.Reply.Steps.{IsStatsReply, second_at}

-- The controller's answer: an attribute with the name of the family, and one with its number.
pub record IsFamilyAnswer (a : Abi) (family : ℕ) (bytes : List ℕ) : Type 0 where
  pub nlmsg_type : ℕ
  pub nlmsg_len : ℕ
  pub first_len : ℕ
  pub type_is : read a bytes a.nlmsg_type_at 2 ≡ some nlmsg_type
  pub no_error : nlmsg_type ≢ a.nlmsg_error
  pub len_is : read a bytes a.nlmsg_len_at 4 ≡ some nlmsg_len
  pub ok : a.nlmsg_ok nlmsg_len (pos (length bytes)) ≡ true
  pub first : read a bytes (genlmsg_data a + a.nla_len_at) 2 ≡ some first_len
  pub second :
      read a bytes ((genlmsg_data a + a.nla_align first_len) + a.nla_type_at) 2
      ≡ some a.ctrl_attr_family_id
  pub family_is : read a bytes (nla_data a (genlmsg_data a + a.nla_align first_len)) 2 ≡ some family

-- An answer with these statistics.
pub record IsStatsAnswer (a : Abi) (stats bytes : List ℕ) : Type 0 where
  pub nlmsg_type : ℕ
  pub nlmsg_len : ℕ
  pub aggr_type : ℕ
  pub aggr_len : ℕ
  pub id_type : ℕ
  pub id_len : ℕ
  pub version : ℕ
  pub type_is : read a bytes a.nlmsg_type_at 2 ≡ some nlmsg_type
  pub no_error : nlmsg_type ≢ a.nlmsg_error
  pub len_is : read a bytes a.nlmsg_len_at 4 ≡ some nlmsg_len
  pub ok : a.nlmsg_ok nlmsg_len (pos (length bytes)) ≡ true
  pub has_attributes : ltb_ℤ (pos 0) (genlmsg_payload a nlmsg_len) ≡ true
  pub reply : IsStatsReply a bytes aggr_type aggr_len id_type id_len version
  pub stats_are : slice (nla_data a (second_at a id_len)) (get_ts_size_bv version) bytes ≡ stats

-- What a socket's owner has asked and not yet received.
pub data Phase : Type 0 where
  idle : Phase
  family_asked : Phase
  stats_asked : ℕ → ℕ → Phase

-- The bytes of a request with this many bytes of payload.
abbrev pub wire_bytes : ℕ → List ℕ → List ℕ
wire_bytes n msg = slice 0 (20 + round_up4 (n + 5)) msg

-- The kernel makes the socket `sd`, takes a whole request at once, and answers the one for the number
-- of the family. What becomes of the request for statistics is not said.
pub record Listener {S : Type 0} (os : Os S) (a : Abi) (sd : ℤ) (family : ℕ) (phase : S → Phase)
    : Type 0 where
  pub sd_valid : is_negative sd ≡ false
  pub family_known : family ≢ 0
  pub family_small : family < 2 ^ 16
  pub pid_small : (s : S) → os.getpid s < 2 ^ 32
  pub opens : (s : S) → (os.socket a.netlink_generic s).0 ≡ sd
  pub binds : (s : S) → is_negative (os.bind sd s).0 ≡ false
  pub opens_idle : (s : S) → phase (os.bind sd (os.socket a.netlink_generic s).1).1 ≡ idle
  pub takes_family :
      (pid : ℕ) (msg : List ℕ) (s : S)
      → phase s ≡ idle
      → IsRequest a a.genl_id_ctrl pid a.ctrl_cmd_getfamily a.ctrl_attr_family_name
          (taskstats_genl_name ++ (0 ∷ []))
          msg
      → ((os.sendto sd (wire_bytes 10 msg) s).0 ≡ pos (length (wire_bytes 10 msg)))
        × (phase (os.sendto sd (wire_bytes 10 msg) s).1 ≡ family_asked)
  pub answers_family :
      (s : S)
      → phase s ≡ family_asked
      → ((os.recv sd (ans_size os a) s).0 ≡ pos (length (os.recv sd (ans_size os a) s).1))
        × IsFamilyAnswer a family (os.recv sd (ans_size os a) s).1
        × (phase (os.recv sd (ans_size os a) s).2 ≡ idle)
  pub takes_stats :
      (pid id_type id : ℕ) (msg : List ℕ) (s : S)
      → phase s ≡ idle
      → id < 2 ^ 32
      → IsRequest a family pid taskstats_cmd_get id_type (a.order.put 4 id) msg
      → ((os.sendto sd (wire_bytes 4 msg) s).0 ≡ pos (length (wire_bytes 4 msg)))
        × (phase (os.sendto sd (wire_bytes 4 msg) s).1 ≡ stats_asked id_type id)

-- It also answers the request for statistics, with those of the task that the request names. `stats`
-- gives these from the type of the attribute (a thread or a process) and the id.
pub record Kernel {S : Type 0} (os : Os S) (a : Abi) (sd : ℤ) (family : ℕ) (stats : ℕ → ℕ → List ℕ)
    (phase : S → Phase) : Type 0 where
  pub listener : Listener os a sd family phase
  pub answers_stats :
      (id_type id : ℕ) (s : S)
      → phase s ≡ stats_asked id_type id
      → ((os.recv sd (msgtemplate_size a) s).0 ≡ pos (length (os.recv sd (msgtemplate_size a) s).1))
        × IsStatsAnswer a (stats id_type id) (os.recv sd (msgtemplate_size a) s).1
