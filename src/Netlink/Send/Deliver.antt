-- ===== src/Netlink/Send/Deliver.antt =====
-- What the loop of `send_cmd` hands to the socket, and when it ends.
use Prim.Native.Nat.add
use native.Mathlib.Decide.{dec_lt, ℕ_discrete}
use mathlib.Core.List.{append-nil, append_assoc}
use universe_native_linux_in.Common.{
  ℕ, zero, suc, ◌+◌, ◌≤◌, ◌<◌, ◌≡◌, refl, sym, ap, ◌∙◌, ◌≢◌, ◌⊎◌, inl, inr, List, [], ◌∷◌, ◌++◌, ℤ,
  pos, negsuc, length, take, drop, take_all, arith,
}
use universe_native_linux_in.Abi.{Abi}
use universe_native_linux_in.Machine.{
  ◌>>=◌, Os, State, Event, sent, M, Run, returns, exits, faults, diverges, note,
}
use universe_native_linux_in.Netlink.Send.{after_sendto, send_loop}

-- The bytes that the kernel has taken, by the return values of sendto.
abbrev pub wire : List Event → List ℕ
wire [] = []
wire (sent fd bytes (pos n) ∷ t) = wire t ++ take n bytes
wire (_ ∷ t) = wire t

-- The loop returns 0 when it has sent all, and -1 when it has sent a part.
abbrev pub Delivers : {S : Type 0} → List ℕ → List ℕ → Run S ℤ → Type 0
Delivers before left (returns (pos zero) s) = wire s.trace ≡ before ++ left
Delivers before left (returns (pos (suc n)) s) = ⊥
Delivers before left (returns (negsuc zero) s) = (k : ℕ) × (wire s.trace ≡ before ++ take k left)
Delivers before left (returns (negsuc (suc n)) s) = ⊥
Delivers before left (exits c s) = ⊥
Delivers before left faults = ⊥
Delivers before left diverges = Unit

take-append_drop : (n k : ℕ) (xs : List ℕ) → take n xs ++ take k (drop n xs) ≡ take (n + k) xs
take-append_drop zero k xs = ap (λ t. take t xs) (sym (add.zero k))
take-append_drop (suc n) zero [] = rw add.suc
take-append_drop (suc n) (suc k) [] = rw add.suc
take-append_drop (suc n) k (x ∷ xs) = rw add.suc (ap (λ t. x ∷ t) (take-append_drop n k xs))

take-append-drop : (n : ℕ) (xs : List ℕ) → take n xs ++ drop n xs ≡ xs
take-append-drop zero xs = refl
take-append-drop (suc n) [] = refl
take-append-drop (suc n) (x ∷ xs) = ap (λ t. x ∷ t) (take-append-drop n xs)

-- Sending a part and then the rest sends the whole.
Delivers-part :
    {S : Type 0} (before left : List ℕ) (n : ℕ) (r : Run S ℤ)
    → Delivers (before ++ take n left) (drop n left) r
    → Delivers before left r
Delivers-part before left n (returns (pos zero) s) h =
    h
    ∙ append_assoc before (take n left) (drop n left)
    ∙ ap (λ t. before ++ t) (take-append-drop n left)
Delivers-part before left n (returns (negsuc zero) s) (k, h) = (
  n + k,
  h
      ∙ append_assoc before (take n left) (take k (drop n left))
      ∙ ap (λ t. before ++ t) (take-append_drop n k left),
)
Delivers-part before left n (returns (pos (suc m)) s) h = h
Delivers-part before left n (returns (negsuc (suc m)) s) h = h
Delivers-part before left n (exits c s) h = h
Delivers-part before left n faults h = h
Delivers-part before left n diverges h = h

-- sendto has taken nothing, though there was something to send.
abbrev pub Stalls : ℤ → List ℕ → Type 0
Stalls (pos n) left = (n ≡ 0) × (0 < length left)
Stalls (negsuc n) left = Unit

pub progress :
    (r : ℤ) (left : List ℕ)
    → ((n : ℕ) × (r ≡ pos n) × (length left ≤ n))
      ⊎ ((n : ℕ) × (r ≡ pos n) × (0 < n) × (n < length left))
      ⊎ Stalls r left
progress (pos zero) left = elim (dec_lt 0 (length left)) [
  | yes h ↦ inr (inr (refl, h))
  | no h ↦ inl (0, refl, omega arith)
]
progress (pos (suc n)) left = elim (dec_lt (suc n) (length left)) [
  | yes h ↦ inr (inl (suc n, refl, omega arith, h))
  | no h ↦ inl (suc n, refl, omega arith)
]
progress (negsuc n) left = inr (inr tt)

module _ {S : Type 0} (os : Os S) (a : Abi) where
  -- The four ways on from sendto.
  pub sent_all :
      (n : ℕ) (left : List ℕ) (again : List ℕ → M S ℤ) (s : State S)
      → length left ≤ n
      → after_sendto os a (pos n) left again s ≡ returns (pos 0) s
  unfolding after_sendto ◌>>=◌
  sent_all n left again s h = ground arith

  pub sent_part :
      (n : ℕ) (left : List ℕ) (again : List ℕ → M S ℤ) (s : State S)
      → 0 < n
      → n < length left
      → after_sendto os a (pos n) left again s ≡ again (drop n left) s
  unfolding after_sendto ◌>>=◌
  sent_part n left again s h k = ground arith

  pub busy :
      (r : ℤ) (left : List ℕ) (again : List ℕ → M S ℤ) (s : State S)
      → Stalls r left
      → os.errno s.os ≡ a.eagain
      → after_sendto os a r left again s ≡ again left s
  unfolding after_sendto ◌>>=◌
  busy (pos n) left again s h e = ground arith
  busy (negsuc n) left again s h e = ground arith

  pub failed :
      (r : ℤ) (left : List ℕ) (again : List ℕ → M S ℤ) (s : State S)
      → Stalls r left
      → os.errno s.os ≢ a.eagain
      → after_sendto os a r left again s ≡ returns (negsuc 0) s
  unfolding after_sendto ◌>>=◌
  failed (pos n) left again s h e = ground arith
  failed (negsuc n) left again s h e = ground arith

  wire_stalled :
      (r sd : ℤ) (left : List ℕ) (s : State S)
      → Stalls r left
      → wire (sent sd left r ∷ s.trace) ≡ wire s.trace
  wire_stalled (pos zero) sd left s h = append-nil (wire s.trace)
  wire_stalled (pos (suc n)) sd left s h = absurd (omega arith)
  wire_stalled (negsuc n) sd left s h = refl

  after_sendto-Delivers :
      (r sd : ℤ) (left : List ℕ) (again : List ℕ → M S ℤ) (s : State S)
      → ((rest : List ℕ) (t : State S) → Delivers (wire t.trace) rest (again rest t))
      → Delivers (wire s.trace) left (after_sendto os a r left again (note (sent sd left r) s))
  after_sendto-Delivers r sd left again s ih = elim (progress r left) [
    | inl (n, e, all) ↦
        rw (e, sent_all n left again (note (sent sd left (pos n)) s) all)
          (ap (λ t. wire s.trace ++ t) (take_all n left all))
    | inr (inl (n, e, some, part)) ↦
        rw (e, sent_part n left again (note (sent sd left (pos n)) s) some part)
          (Delivers-part (wire s.trace) left n _ (ih (drop n left) (note (sent sd left (pos n)) s)))
    | inr (inr stalled) ↦ elim (ℕ_discrete (os.errno s.os) a.eagain) [
      | yes e ↦
          rw (busy r left again (note (sent sd left r) s) stalled e)
            (rw (wire_stalled r sd left s stalled) at (ih left (note (sent sd left r) s)))
      | no e ↦
          rw (failed r left again (note (sent sd left r) s) stalled e)
            (0, wire_stalled r sd left s stalled ∙ sym (append-nil _))
    ]
  ]

  pub send_loop-Delivers :
      (fuel : ℕ) (sd : ℤ) (left : List ℕ) (s : State S)
      → Delivers (wire s.trace) left (send_loop os a fuel sd left s)
  unfolding send_loop ◌>>=◌
  send_loop-Delivers zero sd left s = tt
  send_loop-Delivers (suc fuel) sd left s =
      after_sendto-Delivers (os.sendto sd left s.os).0 sd left (send_loop os a fuel sd) _
        (λ rest t. send_loop-Delivers fuel sd rest t)
