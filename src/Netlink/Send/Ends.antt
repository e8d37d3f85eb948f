-- ===== src/Netlink/Send/Ends.antt =====
-- `send_cmd` ends on a socket that blocks, whatever it is given.
use universe_native_linux_in.Common.{ℕ, ◌≤◌, ◌<◌, ◌≡◌, some, List, ℤ, length, length-slice, arith}
use universe_native_linux_in.Abi.{Abi, IsLinux}
use universe_native_linux_in.Machine.{Os, IsOs}
use universe_native_linux_in.Machine.Memory.{read_bytes}
use universe_native_linux_in.Machine.Stops.{Stops, stops_read, stops_local}
use universe_native_linux_in.Netlink.{msgtemplate_size}
use universe_native_linux_in.Netlink.Request.Length.{length-fill_msg}
use universe_native_linux_in.Netlink.Send.{send_loop, send_cmd}
use universe_native_linux_in.Netlink.Send.Total.{Blocks, send_loop_returns}

pub length-read_bytes :
    (mem : List ℕ) (n : ℕ) {bytes : List ℕ}
    → read_bytes mem 0 n ≡ some bytes
    → length bytes ≤ length mem
unfolding read_bytes
length-read_bytes mem n h = ground (arith, length-slice 0 n mem)

module _ {S : Type 0} (os : Os S) (a : Abi) (law : IsLinux a) (docs : IsOs os)
    (blocks : Blocks os a) {Z : Type 0} where
  pub send_loop-Stops :
      (fuel : ℕ) (sd : ℤ) (left : List ℕ)
      → length left < fuel
      → Stops (send_loop os a fuel sd left) Z
  send_loop-Stops fuel sd left more = record {
    holds = λ s h.
        let (r, t, run) = send_loop_returns os a blocks fuel sd left s more in absurd (cc run);
  }

  -- It is more than the size of the message that the loop of sendto can need.
  pub send_cmd-Stops :
      (fuel : ℕ) (sd : ℤ) (nlmsg_type nlmsg_pid genl_cmd nla_type : ℕ) (bytes : List ℕ)
      → msgtemplate_size a < fuel
      → Stops (send_cmd os a fuel sd nlmsg_type nlmsg_pid genl_cmd nla_type bytes) Z
  unfolding send_cmd
  send_cmd-Stops fuel sd nlmsg_type nlmsg_pid genl_cmd nla_type bytes more =
      stops_local os (msgtemplate_size a) _ λ u. stops_read _ λ msg filled. stops_read _ λ buflen l.
        stops_read _ λ buf cut. send_loop-Stops fuel sd buf (
          omega (
            arith,
            length-read_bytes msg buflen cut,
            length-fill_msg a (os.stack (msgtemplate_size a) u) nlmsg_type nlmsg_pid genl_cmd
                nla_type bytes filled,
            docs.length-stack (msgtemplate_size a) u,
          ))
