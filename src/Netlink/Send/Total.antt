-- ===== src/Netlink/Send/Total.antt =====
-- The loop of `send_cmd` ends, and what a whole call of `send_cmd` does.
use universe_native_linux_in.Common.{
  ℕ, zero, suc, ◌+◌, ◌^◌, ◌≤◌, ◌<◌, ◌≡◌, refl, ap, ◌∙◌, ◌≢◌, inl, inr, List, ℤ, pos, negsuc, length,
  drop, slice, length-drop, length-slice, some, arith,
}
use universe_native_linux_in.Abi.{Abi, IsLinux, round_up4}
use universe_native_linux_in.Machine.{◌>>=◌, Os, IsOs, State, sent, M, returns, diverges, note}
use universe_native_linux_in.Machine.Memory.{read, read_prefix, slice-prefix, read_bytes_lem}
use universe_native_linux_in.Netlink.{msgtemplate_size, genlmsg_data, nla_data}
use universe_native_linux_in.Netlink.Request.Fields.{
  IsRequest, fill_msg-IsRequest, fill_msg_keeps_stack,
}
use universe_native_linux_in.Netlink.Send.{after_sendto, send_loop, send_cmd}
use universe_native_linux_in.Netlink.Send.Deliver.{
  wire, Delivers, Stalls, progress, sent_all, sent_part, busy, failed, send_loop-Delivers,
}

-- A socket that blocks: sendto does not report EAGAIN.
abbrev pub Blocks : {S : Type 0} → Os S → Abi → Type 0
Blocks {S} os a =
    (sd : ℤ) (bytes : List ℕ) (s : S)
    → Stalls (os.sendto sd bytes s).0 bytes
    → os.errno (os.sendto sd bytes s).1 ≢ a.eagain

-- A socket that takes nothing and reports EAGAIN, for ever.
abbrev pub NeverReady : {S : Type 0} → Os S → Abi → Type 0
NeverReady {S} os a =
    (sd : ℤ) (bytes : List ℕ) (s : S)
    → Stalls (os.sendto sd bytes s).0 bytes × (os.errno (os.sendto sd bytes s).1 ≡ a.eagain)

module _ {S : Type 0} (os : Os S) (a : Abi) where
  -- On a socket that blocks, one round for each byte and one more are enough for the loop of
  -- `send_cmd`: it returns.
  pub send_loop_returns :
      Blocks os a
      → (fuel : ℕ) (sd : ℤ) (left : List ℕ) (s : State S) → length left < fuel
      → (r : ℤ) × (t : State S) × (send_loop os a fuel sd left s ≡ returns r t)
  unfolding send_loop ◌>>=◌
  send_loop_returns blocks zero sd left s h = absurd (omega arith)
  send_loop_returns blocks (suc fuel) sd left s h =
      let r : ℤ = (os.sendto sd left s.os).0 in
      let again : List ℕ → M S ℤ = send_loop os a fuel sd in
      let s' : State S = note (sent sd left r) (record s { os = (os.sendto sd left s.os).1 }) in
      elim (progress r left) [
        | inl (n, e, all) ↦ (
          pos 0,
          s',
          ap (λ x. after_sendto os a x left again s') e ∙ sent_all os a n left again s' all,
        )
        | inr (inl (n, e, one, part)) ↦
            let (v, t, run) =
              send_loop_returns blocks fuel sd (drop n left) s'
                (omega (arith, length-drop n left)) in
            (
              v,
              t,
              ap (λ x. after_sendto os a x left again s') e
                  ∙ sent_part os a n left again s' one part
                  ∙ run,
            )
        | inr (inr stalled) ↦
            (negsuc 0, s', failed os a r left again s' stalled (blocks sd left s.os stalled))
      ]

  -- While the socket takes nothing and reports EAGAIN, the loop of `send_cmd` goes on: it uses up any
  -- number of rounds.
  pub send_loop_spins :
      NeverReady os a
      → (fuel : ℕ) (sd : ℤ) (left : List ℕ) (s : State S) → send_loop os a fuel sd left s ≡ diverges
  unfolding send_loop ◌>>=◌
  send_loop_spins never zero sd left s = refl
  send_loop_spins never (suc fuel) sd left s =
      let (stalled, e) = never sd left s.os in
      busy os a _ left (send_loop os a fuel sd) _ stalled e ∙ send_loop_spins never fuel sd left _

module _ {S : Type 0} (os : Os S) (a : Abi) (law : IsLinux a) (docs : IsOs os) where
  -- The bytes of a message that are sent.
  abbrev pub sent_bytes : List ℕ → List ℕ → List ℕ
  sent_bytes bytes msg = slice 0 (20 + round_up4 (length bytes + 5)) msg

  -- A call of `send_cmd` is its loop, on the first nlmsg_len bytes of a message that has the given
  -- fields.
  pub send_cmd_lem :
      (fuel : ℕ) (sd : ℤ) (nlmsg_type nlmsg_pid genl_cmd nla_type : ℕ) (bytes : List ℕ)
      (s : State S)
      → length bytes ≤ 4000
      → nlmsg_type < 2 ^ 16
      → nlmsg_pid < 2 ^ 32
      → genl_cmd < 2 ^ 8
      → nla_type < 2 ^ 16
      → (msg : List ℕ) × IsRequest a nlmsg_type nlmsg_pid genl_cmd nla_type bytes msg
        × (length msg ≡ 4116)
        × (send_cmd os a fuel sd nlmsg_type nlmsg_pid genl_cmd nla_type bytes s
            ≡ send_loop os a fuel sd (sent_bytes bytes msg) s)
  unfolding send_cmd ◌>>=◌
  send_cmd_lem fuel sd nlmsg_type nlmsg_pid genl_cmd nla_type bytes s fits t p c n =
      let (msg, filled, size, request) =
        fill_msg-IsRequest a law (os.stack (msgtemplate_size a) s.os) bytes nlmsg_type nlmsg_pid
          genl_cmd nla_type {room = 4116}
          (omega (arith, docs.length-stack (msgtemplate_size a) s.os)) (omega arith) (omega arith) t
          p c n in
      (
        msg,
        request,
        size,
        rw
            (
              filled,
              request.nlmsg_len,
              read_bytes_lem msg 0 (20 + round_up4 (length bytes + 5)) (omega arith),
            )
            refl,
      )

  -- On a socket that blocks, with more than 4116 rounds for the loop, parameters that fit their
  -- fields and 4000 bytes at most, `send_cmd` returns. It has
  -- built a message with the fields that it was given; it returns 0 and exactly the message's
  -- nlmsg_len bytes have gone to the socket, or it returns -1 and a part from their start has.
  pub send_cmd_sends :
      Blocks os a
      → (fuel : ℕ) (sd : ℤ) (nlmsg_type nlmsg_pid genl_cmd nla_type : ℕ) (bytes : List ℕ)
        (s : State S)
      → 4116 < fuel
      → length bytes ≤ 4000
      → nlmsg_type < 2 ^ 16
      → nlmsg_pid < 2 ^ 32
      → genl_cmd < 2 ^ 8
      → nla_type < 2 ^ 16
      → (msg : List ℕ) × IsRequest a nlmsg_type nlmsg_pid genl_cmd nla_type bytes msg
        × (r : ℤ) × (t : State S) × (send_cmd os a fuel sd nlmsg_type nlmsg_pid genl_cmd nla_type
              bytes s
            ≡ returns r t)
        × Delivers (wire s.trace) (sent_bytes bytes msg) (returns r t)
  send_cmd_sends blocks fuel sd nlmsg_type nlmsg_pid genl_cmd nla_type bytes s enough fits t p c n =
      let (msg, request, size, run) =
        send_cmd_lem fuel sd nlmsg_type nlmsg_pid genl_cmd nla_type bytes s fits t p c n in
      let left : List ℕ = sent_bytes bytes msg in
      let short : length left < fuel =
        omega (arith, length-slice 0 (20 + round_up4 (length bytes + 5)) msg (omega arith)) in
      let (r, end, loop) = send_loop_returns os a blocks fuel sd left s short in
      (msg, request, r, end, run ∙ loop, rw loop at (send_loop-Delivers os a fuel sd left s))

  -- Inside of the bytes that `send_cmd` sends, the attribute counts one byte behind the caller's
  -- bytes, and that byte is the one that the stack held there before the call: it is sent
  -- uninitialised. The parameters fit their fields, and the caller gives 4000 bytes at most.
  pub send_cmd_sends_stack :
      (fuel : ℕ) (sd : ℤ) (nlmsg_type nlmsg_pid genl_cmd nla_type : ℕ) (bytes : List ℕ)
      (s : State S)
      → length bytes ≤ 4000
      → nlmsg_type < 2 ^ 16
      → nlmsg_pid < 2 ^ 32
      → genl_cmd < 2 ^ 8
      → nla_type < 2 ^ 16
      → (out : List ℕ) × (send_cmd os a fuel sd nlmsg_type nlmsg_pid genl_cmd nla_type bytes s
          ≡ send_loop os a fuel sd out s)
        × (read a out (genlmsg_data a + a.nla_len_at) 2 ≡ some (a.nla_hdrlen + length bytes + 1))
        × (length (slice (nla_data a (genlmsg_data a) + length bytes) 1 out) ≡ 1)
        × (slice (nla_data a (genlmsg_data a) + length bytes) 1 out
            ≡ slice
                (nla_data a (genlmsg_data a) + length bytes)
                1
                (os.stack (msgtemplate_size a) s.os))
  unfolding send_cmd ◌>>=◌
  send_cmd_sends_stack fuel sd nlmsg_type nlmsg_pid genl_cmd nla_type bytes s fits t p c n =
      let stack = os.stack (msgtemplate_size a) s.os in
      let sized : length stack ≡ 4116 =
        omega (arith, docs.length-stack (msgtemplate_size a) s.os) in
      let (msg, filled, size, request) =
        fill_msg-IsRequest a law stack bytes nlmsg_type nlmsg_pid genl_cmd nla_type {room = 4116}
          sized (omega arith) (omega arith) t p c n in
      let (msg', filled', counted, kept) =
        fill_msg_keeps_stack a law stack bytes nlmsg_type nlmsg_pid genl_cmd nla_type {room = 4116}
          sized (omega arith) (omega arith) t p c n in
      let same : msg' ≡ msg = cc in
      let at = nla_data a (genlmsg_data a) + length bytes in
      let all : ℕ = 20 + round_up4 (length bytes + 5) in
      let inside : at + 1 ≤ all = omega arith in
      (
        sent_bytes bytes msg,
        rw (filled, request.nlmsg_len, read_bytes_lem msg 0 all (omega arith)) refl,
        read_prefix a msg all (genlmsg_data a + a.nla_len_at) 2 (omega (arith, law.nlmsg_align))
              (omega arith)
            ∙ (rw same at counted),
        length-slice at 1 (sent_bytes bytes msg)
            (omega (arith, length-slice 0 all msg (omega arith))),
        slice-prefix msg all at 1 inside ∙ (rw same at kept),
      )
