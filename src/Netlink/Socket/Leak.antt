-- ===== src/Netlink/Socket/Leak.antt =====
-- What `create_nl_socket` leaves open.
use universe_native_linux_in.Common.{
  ℕ, ◌≡◌, refl, ◌⊎◌, inl, inr, true, false, ◌∷◌, ℤ, pos, negsuc, is_negative, Bool-cases,
}
use universe_native_linux_in.Machine.{
  Os, State, opened, configured, bound, closed, printed, rcvbuf_failed, returns, note, ◌>>=◌,
}
use universe_native_linux_in.Netlink.Socket.{is_nonzero, set_rcvbuf, create_nl_socket}

module _ {S : Type 0} (os : Os S) (protocol : ℕ) (s : State S) where
  abbrev pub fd : ℤ
  fd = (os.socket protocol s.os).0

  abbrev pub bind_result : ℤ
  bind_result = (os.bind fd (os.socket protocol s.os).1).0

  abbrev pub with_socket : State S
  with_socket = note (opened fd) (record s { os = (os.socket protocol s.os).1 })

  abbrev pub with_bound : State S
  with_bound =
      note (bound fd bind_result) (record with_socket { os = (os.bind fd with_socket.os).1 })

  -- A socket that is made and bound.
  pub create_nl_socket_opens :
      s.rcvbufsz ≡ pos 0
      → is_negative fd ≡ false
      → is_negative bind_result ≡ false
      → create_nl_socket os protocol s ≡ returns fd with_bound
  unfolding create_nl_socket set_rcvbuf ◌>>=◌
  create_nl_socket_opens e good fine = rw (good, e, fine)

  abbrev set_result : ℤ
  set_result = (os.setsockopt fd s.rcvbufsz with_socket.os).0

  abbrev with_option : State S
  with_option =
      note (configured fd set_result)
        (record with_socket { os = (os.setsockopt fd s.rcvbufsz with_socket.os).1 })

  -- With no receive buffer size set, as in the library, `create_nl_socket` returns in one of three
  -- ways: socket failed, the result is -1 and nothing else was called; or bind failed, the result is
  -- -1 and the new descriptor was closed; or the result is the new descriptor, open and bound.
  pub create_nl_socket_keeps :
      s.rcvbufsz ≡ pos 0
      → (r : ℤ) × (t : State S) × (create_nl_socket os protocol s ≡ returns r t)
        × (((is_negative fd ≡ true) × (r ≡ negsuc 0) × (t.trace ≡ opened fd ∷ s.trace))
            ⊎ ((is_negative fd ≡ false)
                × (is_negative bind_result ≡ true)
                × (r ≡ negsuc 0)
                × (t.trace ≡ closed fd ∷ bound fd bind_result ∷ opened fd ∷ s.trace))
            ⊎ ((is_negative fd ≡ false)
                × (is_negative bind_result ≡ false)
                × (r ≡ fd)
                × (t.trace ≡ bound fd bind_result ∷ opened fd ∷ s.trace)))
  unfolding create_nl_socket set_rcvbuf ◌>>=◌
  create_nl_socket_keeps e = elim (Bool-cases (is_negative fd)) [
    | inl bad ↦ (
      negsuc 0,
      note (opened fd) (record s { os = (os.socket protocol s.os).1 }),
      rw bad,
      inl (bad, refl, refl),
    )
    | inr good ↦ elim (Bool-cases (is_negative bind_result)) [
      | inl bad ↦ (
        negsuc 0,
        note (closed fd) (record with_bound { os = os.close fd with_bound.os }),
        rw (good, e, bad),
        inr (inl (good, bad, refl, refl)),
      )
      | inr fine ↦
          (fd, with_bound, create_nl_socket_opens e good fine, inr (inr (good, fine, refl, refl)))
    ]
  ]

  -- With a receive buffer size set, when socket gives a descriptor and setsockopt fails on it,
  -- `create_nl_socket` returns -1 and leaves the new descriptor open: it is never closed.
  pub create_nl_socket_leaks :
      is_nonzero s.rcvbufsz ≡ true
      → is_negative fd ≡ false
      → is_negative set_result ≡ true
      → (t : State S) × (create_nl_socket os protocol s ≡ returns (negsuc 0) t)
        × (t.trace
            ≡ printed (rcvbuf_failed s.rcvbufsz) ∷ configured fd set_result ∷ opened fd ∷ s.trace)
  unfolding create_nl_socket set_rcvbuf ◌>>=◌
  create_nl_socket_leaks size good bad = (
    note (printed (rcvbuf_failed s.rcvbufsz)) with_option,
    rw (good, set_rcvbuf, size, bad),
    refl,
  )
