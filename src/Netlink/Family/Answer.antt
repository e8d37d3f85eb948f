-- ===== src/Netlink/Family/Answer.antt =====
-- What `get_family_id` reads from the controller's answer.
use universe_native_linux_in.Common.{
  ℕ, ◌+◌, ◌≡◌, ◌≢◌, ◌⊎◌, true, false, some, List, ℤ, is_negative, arith, if◌then◌else◌, ◌==◌, ne→==,
}
use universe_native_linux_in.Abi.{Abi}
use universe_native_linux_in.Machine.{Os, State, returns, ◌>>=◌}
use universe_native_linux_in.Machine.Memory.{read}
use universe_native_linux_in.Netlink.{genlmsg_data, nla_data}
use universe_native_linux_in.Netlink.Family.{family_of_answer}

module _ {S : Type 0} (os : Os S) (a : Abi) (ans : List ℕ) (rep_len : ℤ) (s : State S)
    (nlmsg_type nlmsg_len : ℕ) (type_is : read a ans a.nlmsg_type_at 2 ≡ some nlmsg_type)
    (len_is : read a ans a.nlmsg_len_at 4 ≡ some nlmsg_len) where
  -- An error message, a failed recv or a message that NLMSG_OK rejects gives the family id 0, which
  -- stands for none.
  family_refused :
      (nlmsg_type ≡ a.nlmsg_error)
        ⊎ (is_negative rep_len ≡ true)
        ⊎ (a.nlmsg_ok nlmsg_len rep_len ≡ false)
      → family_of_answer os a ans rep_len s ≡ returns 0 s
  unfolding family_of_answer ◌>>=◌
  family_refused bad = rw (type_is, len_is) (ground arith)

  -- In an answer that is no error, `get_family_id` skips the first attribute by its aligned length,
  -- and returns the two bytes of the second one if that has the type of a family id, 0 if not.
  pub family_found :
      (first_len second_type id : ℕ)
      → nlmsg_type ≢ a.nlmsg_error
      → is_negative rep_len ≡ false
      → a.nlmsg_ok nlmsg_len rep_len ≡ true
      → read a ans (genlmsg_data a + a.nla_len_at) 2 ≡ some first_len
      → read a ans ((genlmsg_data a + a.nla_align first_len) + a.nla_type_at) 2 ≡ some second_type
      → read a ans (nla_data a (genlmsg_data a + a.nla_align first_len)) 2 ≡ some id
      → family_of_answer os a ans rep_len s
        ≡ returns (if second_type == a.ctrl_attr_family_id then id else 0) s
  unfolding family_of_answer ◌>>=◌
  family_found first_len second_type id good came ok first second value =
      rw (type_is, len_is, came, ok, ne→== nlmsg_type a.nlmsg_error good, first, second, value)
        (ground arith)
