-- ===== src/GetTaskstats/Outcome.antt =====
-- What `get_taskstats` returns and leaves behind, on every run.
use universe_native_linux_in.Common.{
  ℕ, ◌≡◌, refl, ap, ◌≢◌, ◌⊎◌, inl, inr, Bool, true, false, not, ◌||◌, none, some, List, ◌∷◌, ℤ,
  negsuc, is_negative, patch, Bool-cases, ◌==◌, arith,
}
use universe_native_linux_in.Abi.{Abi}
use universe_native_linux_in.Machine.{◌>>=◌, Os, State, returns, Event, closed, pure}
use universe_native_linux_in.Machine.Ensures.{Ensures}
use universe_native_linux_in.Machine.Triple.{
  Triple, triple_pre, triple_step, triple_if, triple_ensures, triple_bind, triple_then,
  checked-Keeps,
}
use universe_native_linux_in.Reply.{Walk, goto_done, ended, walk}
use universe_native_linux_in.Reply.Copy.{IsCopy, Copies, walk-Copies}
use universe_native_linux_in.Netlink.{msgtemplate_size}
use universe_native_linux_in.GetTaskstats.Asking.{set_dbg}
use universe_native_linux_in.GetTaskstats.Selected.{close_socket, query_lem}
use universe_native_linux_in.GetTaskstats.Labels.{Reported, no_cfd, leave, finish}
use universe_native_linux_in.GetTaskstats.Traces.{
  opened_by, last_received, Opened, IsDescriptor, create_nl_socket-IsDescriptor, send_cmd-Keeps,
  get_family_id-Keeps, print_if-Keeps, printf_dbg-Keeps, walk-Keeps,
}
use universe_native_linux_in.GetTaskstats.{
  nothing_selected, selected, select_task, handle_reply, receive, query, talk, get_taskstats,
}

-- What an open socket nl_sd gave: the statistics of the last message that recv took from nl_sd into
-- an object whose bytes were junk, or nothing.
pub data IsAnswer (a : Abi) (junk target : List ℕ) (nl_sd : ℤ) (code : ℕ) (target' : List ℕ)
    (trace : List Event) : Type 0 where
  copied :
      (bytes : List ℕ)
      → code ≡ 0
      → last_received trace ≡ some (nl_sd, bytes)
      → IsCopy a (patch 0 bytes junk) target target'
      → IsAnswer a junk target nl_sd code target' trace
  unchanged :
      (code ≡ 0) ⊎ (code ≡ 3) ⊎ (code ≡ 4) ⊎ (code ≡ 8)
      → target' ≡ target
      → IsAnswer a junk target nl_sd code target' trace

-- What a call leaves: the answer, with the descriptor that socket gave closed; or, where there is no
-- socket, the object as it was, and a close of -1, which is no descriptor.
pub data IsOutcome (a : Abi) (junk target : List ℕ) (code : ℕ) (target' : List ℕ)
    (trace : List Event) : Type 0 where
  on_socket :
      (nl_sd : ℤ) (rest : List Event)
      → IsAnswer a junk target nl_sd code target' rest
      → is_negative nl_sd ≡ false
      → opened_by rest ≡ some nl_sd
      → trace ≡ closed nl_sd ∷ rest
      → IsOutcome a junk target code target' trace
  no_socket :
      (rest : List Event)
      → (code ≡ 1) ⊎ (code ≡ 2)
      → target' ≡ target
      → trace ≡ closed (negsuc 0) ∷ rest
      → IsOutcome a junk target code target' trace

module _ {S : Type 0} (os : Os S) (a : Abi) (debug : Bool) (junk target : List ℕ) where
  -- As postconditions: of what is done before the label `err`, and of all.
  abbrev Answer : ℤ → Reported → List Event → Type 0
  Answer nl_sd out trace = Opened os a nl_sd trace × IsAnswer a junk target nl_sd out.0 out.1 trace

  abbrev Outcome : Reported → List Event → Type 0
  Outcome out trace = IsOutcome a junk target out.0 out.1 trace

  -- Behind the call of recv.
  abbrev Taken : ℤ → List ℕ → List Event → Type 0
  Taken nl_sd bytes trace = Opened os a nl_sd trace × (last_received trace ≡ some (nl_sd, bytes))

  walk-Ensures :
      (fuel : ℕ) (msg : List ℕ) (na len : ℕ) (rep_len : ℤ)
      → Ensures (walk {S = S} a debug msg fuel na len rep_len target) (λ w _. Copies a msg target w)
  walk-Ensures fuel msg na len rep_len = record {
    holds = λ s w t h. walk-Copies a debug msg fuel na len rep_len target s w t h;
  }

  walk-Answer :
      (nl_sd : ℤ) (bytes : List ℕ) (w : Walk (List ℕ))
      → Triple {S = S}
          (λ trace. Taken nl_sd bytes trace × Copies a (patch 0 bytes junk) target w)
          (elim w [ goto_done d ↦ pure (0, d) | ended d ↦ pure (0, d) ])
          (Answer nl_sd)
  walk-Answer nl_sd bytes (goto_done d) = triple_step λ s p. (p.0.0, copied bytes refl p.0.1 p.1)
  walk-Answer nl_sd bytes (ended d) = triple_step λ s p. (p.0.0, unchanged (inl refl) p.1)

  handle_reply-Answer :
      (fuel : ℕ) (nl_sd : ℤ) (bytes : List ℕ) (rep_len : ℤ)
      → Triple
          (Taken nl_sd bytes)
          (handle_reply os a debug fuel (patch 0 bytes junk) rep_len target)
          (Answer nl_sd)
  unfolding handle_reply
  handle_reply-Answer fuel nl_sd bytes rep_len = triple_then (checked-Keeps _) λ nlmsg_type.
      triple_then (checked-Keeps _) λ nlmsg_len.
        triple_if (nlmsg_type == a.nlmsg_error || not (a.nlmsg_ok nlmsg_len rep_len))
          (λ _.
            triple_then
              (triple_if debug (λ _. triple_then (checked-Keeps _) λ error. triple_step λ s p. p)
                (λ _. triple_step λ s p. p))
              λ _. triple_step λ s p. (p.0, unchanged (omega arith) refl))
          (λ _. triple_then (printf_dbg-Keeps (Taken nl_sd bytes) (λ m trace p. p) debug _) λ _.
            triple_bind
              (triple_ensures (walk-Ensures fuel _ _ _ _)
                (walk-Keeps (Taken nl_sd bytes) (λ m trace p. p) a debug _ fuel _ _ _ target))
              (walk-Answer nl_sd bytes))

  receive-Answer :
      (fuel : ℕ) (nl_sd : ℤ)
      → Triple (Opened os a nl_sd) (receive os a debug fuel nl_sd junk target) (Answer nl_sd)
  unfolding receive
  receive-Answer fuel nl_sd =
      triple_bind {R = λ r. Taken nl_sd r.1} (triple_step λ s p. (p, refl)) λ (rep_len, bytes).
        triple_then (printf_dbg-Keeps (Taken nl_sd bytes) (λ m trace p. p) debug _) λ _.
          triple_if (is_negative rep_len)
            (λ _. triple_then (triple_step λ s p. p) λ errno.
              triple_then (print_if-Keeps (Taken nl_sd bytes) (λ m trace p. p) debug _)
                λ _. triple_step λ s p. (p.0, unchanged (inl refl) refl))
            (λ _. handle_reply-Answer fuel nl_sd bytes rep_len)

  close_socket-Outcome :
      (nl_sd : ℤ) (out : Reported)
      → is_negative nl_sd ≡ false
      → Triple {S = S} (Answer nl_sd out) (close_socket os a debug nl_sd out) Outcome
  close_socket-Outcome nl_sd out live =
      triple_bind {R = λ _. Outcome out}
        (triple_step λ s p. on_socket nl_sd s.trace p.1 live p.0 refl) λ _. triple_step λ s p. p

  -- A failure with the object as it was.
  close_socket-unchanged :
      (nl_sd : ℤ) (code : ℕ)
      → is_negative nl_sd ≡ false
      → (code ≡ 0) ⊎ (code ≡ 3) ⊎ (code ≡ 4) ⊎ (code ≡ 8)
      → Triple {S = S} (Opened os a nl_sd) (close_socket os a debug nl_sd (code, target)) Outcome
  close_socket-unchanged nl_sd code live c =
      triple_bind {R = λ _. Outcome (code, target)}
        (triple_step λ s p. on_socket nl_sd s.trace (unchanged c refl) live p refl)
        λ _. triple_step λ s p. p

  close_nothing :
      {P : List Event → Type 0} (code : ℕ)
      → (code ≡ 1) ⊎ (code ≡ 2)
      → Triple {S = S} P (close_socket os a debug (negsuc 0) (code, target)) Outcome
  close_nothing code c =
      triple_bind {R = λ _. Outcome (code, target)}
        (triple_step λ s p. no_socket s.trace c refl refl) λ _. triple_step λ s p. p

  query-Outcome :
      (fuel : ℕ) (nl_sd : ℤ) (id mypid cmd_type tid : ℕ)
      → is_negative nl_sd ≡ false
      → tid ≢ 0
      → Triple
          (Opened os a nl_sd)
          (query os a debug fuel nl_sd id mypid cmd_type tid junk target)
          Outcome
  query-Outcome fuel nl_sd id mypid cmd_type tid live nonzero =
      rw (query_lem os a debug fuel nl_sd id mypid cmd_type tid junk target) (
        triple_if (tid == 0) (λ e. absurd (nonzero (ground arith)))
          (λ _. triple_then (send_cmd-Keeps os a nl_sd fuel nl_sd _ _ _ _ _) λ rc.
            triple_then (printf_dbg-Keeps (Opened os a nl_sd) (λ m trace p. p) debug _) λ _.
              triple_if (is_negative rc)
                (λ _.
                  triple_then (print_if-Keeps (Opened os a nl_sd) (λ m trace p. p) debug _)
                    λ _. close_socket-unchanged nl_sd 4 live (omega arith))
                (λ _.
                  triple_bind (receive-Answer fuel nl_sd)
                    λ out. close_socket-Outcome nl_sd out live)))

  minus_one :
      (nl_sd : ℤ) (trace : List Event)
      → is_negative nl_sd ≡ true
      → IsDescriptor nl_sd trace
      → nl_sd ≡ negsuc 0
  minus_one nl_sd trace bad (inl e) = e
  minus_one nl_sd trace bad (inr (good, e)) = absurd (cc)

  socket_of :
      (nl_sd : ℤ) (trace : List Event)
      → is_negative nl_sd ≡ false
      → IsDescriptor nl_sd trace
      → Opened os a nl_sd trace
  socket_of nl_sd trace good (inl e) =
      let bad : is_negative nl_sd ≡ true = ap is_negative e in absurd (cc)
  socket_of nl_sd trace good (inr (live, e)) = e

  close_negative :
      (nl_sd : ℤ)
      → is_negative nl_sd ≡ true
      → Triple {S = S} (IsDescriptor nl_sd) (close_socket os a debug nl_sd (2, target)) Outcome
  close_negative nl_sd bad =
      triple_bind {R = λ _. Outcome (2, target)}
        (triple_step λ s p.
          no_socket s.trace (inr refl) refl
            (ap (λ fd. closed fd ∷ s.trace) (minus_one nl_sd s.trace bad p)))
        λ _. triple_step λ s p. p

  talk-Outcome :
      (fuel cmd_type tid : ℕ)
      → tid ≢ 0
      → Triple (λ _. Unit {0}) (talk os a debug fuel cmd_type tid junk target) Outcome
  unfolding talk finish leave
  talk-Outcome fuel cmd_type tid nonzero =
      triple_bind (create_nl_socket-IsDescriptor os a a.netlink_generic) λ nl_sd.
        triple_if (is_negative nl_sd)
          (λ bad.
            triple_then (print_if-Keeps (IsDescriptor nl_sd) (λ m trace p. p) debug _)
              λ _. close_negative nl_sd bad)
          (λ good.
            triple_pre (λ trace p. socket_of nl_sd trace good p)
              (triple_then (triple_step λ s p. p) λ mypid.
                triple_then (get_family_id-Keeps os a nl_sd fuel nl_sd) λ id.
                  triple_if (id == 0)
                    (λ _. triple_then (triple_step λ s p. p) λ errno.
                      triple_then (print_if-Keeps (Opened os a nl_sd) (λ m trace p. p) debug _)
                        λ _. close_socket-unchanged nl_sd 3 good (omega arith))
                    (λ _.
                      triple_then (printf_dbg-Keeps (Opened os a nl_sd) (λ m trace p. p) debug _)
                        λ _. query-Outcome fuel nl_sd id mypid cmd_type tid good nonzero)))

  selected-Outcome :
      (fuel pid tgid : ℕ)
      → Triple
          (λ _. Unit {0})
          (elim (select_task pid tgid) [
            | nothing_selected ↦ finish os a debug fuel none (negsuc 0) no_cfd (1, target)
            | selected cmd_type tid ↦ talk os a debug fuel cmd_type tid junk target
          ])
          Outcome
  unfolding select_task finish leave
  selected-Outcome fuel pid tgid = elim (Bool-cases (pid == 0)) [
    | inr p ↦ rw p (talk-Outcome fuel _ pid (λ e. ground arith))
    | inl p ↦ elim (Bool-cases (tgid == 0)) [
      | inr q ↦ rw (p, q) (talk-Outcome fuel _ tgid (λ e. ground arith))
      | inl q ↦ rw (p, q) (close_nothing 1 (inl refl))
    ]
  ]

-- Whatever the system answers, each run of `get_taskstats` that returns is one of these. On a socket
-- that is open: returnError is 0 and the start of the caller's object has one copy of statistics out
-- of the last message that recv took from that socket, as it lies over what the stack had in msg; or
-- returnError is 0, 3, 4 or 8 and the object is unchanged; and the last thing done is to close the
-- descriptor that socket gave. Without a socket: returnError is 1 or 2, the object is unchanged, and
-- the last thing done is close(-1), of no descriptor. It never returns 5, 6 or 7.
pub get_taskstats-IsOutcome :
    {S : Type 0} (os : Os S) (a : Abi) (debug : Bool) (fuel pid tgid : ℕ) (target : List ℕ)
    (target_length : ℤ) (s : State S) (code : ℕ) (target' : List ℕ) (t : State S)
    → get_taskstats os a debug fuel pid tgid target target_length s ≡ returns (code, target') t
    → IsOutcome a (os.stack (msgtemplate_size a) s.os) target code target' t.trace
unfolding get_taskstats finish leave ◌>>=◌
get_taskstats-IsOutcome os a debug fuel pid tgid target target_length s code target' t run =
    let junk = os.stack (msgtemplate_size a) s.os in
    let kept : (set_dbg debug s).os ≡ s.os = ground arith in
    (selected-Outcome os a debug junk target fuel pid tgid).holds (set_dbg debug s) (code, target')
      t tt (rw kept at run)
