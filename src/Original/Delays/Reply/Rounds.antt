-- ===== src/Original/Delays/Reply/Rounds.antt =====
-- What a round of the receiving loop of so-src/original/delays.c does.
use universe_native_linux_in.Common.{
  List, ℕ, zero, suc, ◌∙◌, ◌≡◌, refl, true, List, ℤ, is_negative, arith,
}
use universe_native_linux_in.Abi.{Abi}
use universe_native_linux_in.Machine.{◌>>=◌, Os, State, diverges, note, received, Message, printed}
use universe_native_linux_in.Taskstats.Layout.{Placed}
use universe_native_linux_in.Reply.Steps.{say_if}
use universe_native_linux_in.Original.Delays.{msgtemplate_size}
use universe_native_linux_in.Original.Delays.Reply.{receive}

-- A socket whose recv fails, whenever it is called.
abbrev pub NeverReceives : {S : Type 0} → Os S → Type 0
NeverReceives {S} os = (fd : ℤ) (n : ℕ) (s : S) → is_negative (os.recv fd n s).0 ≡ true

module _ {S : Type 0} (os : Os S) (a : Abi) (taskstats : List Placed) (fd : ℤ) where
  -- A round with a recv that fails is followed by the next one.
  receive_again :
      (fuel : ℕ) (nl_sd : ℤ) (msg : List ℕ) (s : State S)
      → is_negative (os.recv nl_sd (msgtemplate_size a) s.os).0 ≡ true
      → (t : State S) × (receive os a taskstats true fd (suc fuel) nl_sd msg s
          ≡ receive os a taskstats true fd fuel nl_sd msg t)
  unfolding receive ◌>>=◌
  receive_again fuel nl_sd msg s bad =
      let r : ℤ = (os.recv nl_sd (msgtemplate_size a) s.os).0 in
      let s' : State S = say_if s.dbg (Message.received_bytes r) (
        note (received nl_sd r (os.recv nl_sd (msgtemplate_size a) s.os).1)
          (record s { os = (os.recv nl_sd (msgtemplate_size a) s.os).2 })) in
      (note (printed (Message.recv_failed (os.errno s'.os))) s', ground arith)

  -- Told to listen for ever, on a socket whose recv fails whenever it is called, the program never
  -- leaves its loop: a failure of recv, whatever errno says, does not end it, and it uses up any
  -- number of rounds.
  pub receive_retries :
      NeverReceives os
      → (fuel : ℕ) (nl_sd : ℤ) (msg : List ℕ) (s : State S)
      → receive os a taskstats true fd fuel nl_sd msg s ≡ diverges
  unfolding receive
  receive_retries fails zero nl_sd msg s = refl
  receive_retries fails (suc fuel) nl_sd msg s =
      let (t, run) = receive_again fuel nl_sd msg s (fails nl_sd (msgtemplate_size a) s.os) in
      run ∙ receive_retries fails fuel nl_sd msg t
