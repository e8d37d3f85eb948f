-- ===== src/Machine/Memory.antt =====
-- Reads and writes of C objects, with a fault outside of their bounds.
use mathlib.Core.Path.{subst}
use universe_native_linux_in.Common.{
  Bool-cases, Option-cases, length-slice, ℕ, ◌+◌, ◌^◌, ◌<◌, ◌≤◌, ◌≡◌, sym, ap, Option, none, some,
  List, ◌&&◌, length, leb, slice, patch, if◌then◌else◌, [], ◌∷◌, ◌∙◌, ◌⊎◌, inl, inr, refl,
  length-patch, slice-patch_before, slice-patch_after, slice-patch_self, le→leb, slice-slice, arith,
  ◌==◌, take, replicate, ◌++◌,
}
use native.Mathlib.Nat.{zero-add}
use mathlib.Core.Option
use universe_native_linux_in.Abi.{Abi, IsByteOrder}

-- The number in the w bytes at an offset.
unfoldable pub read : Abi → List ℕ → ℕ → ℕ → Option ℕ
read a mem i w =
    let v = a.order.get (slice i w mem) in if leb (i + w) (length mem) then some v else none

-- The n bytes at an offset.
unfoldable pub read_bytes : List ℕ → ℕ → ℕ → Option (List ℕ)
read_bytes mem i n = if leb (i + n) (length mem) then some (slice i n mem) else none

-- The bytes from an offset on are overwritten.
unfoldable pub write : List ℕ → ℕ → List ℕ → Option (List ℕ)
write mem i bytes = if leb (i + length bytes) (length mem) then some (patch i bytes mem) else none

-- memcpy(to, from + i, n)
unfoldable pub memcpy : List ℕ → List ℕ → ℕ → ℕ → Option (List ℕ)
memcpy to from i n =
    if leb (i + n) (length from) && leb n (length to)
    then some (patch 0 (slice i n from) to)
    else none

pub read_lem :
    (a : Abi) (mem : List ℕ) (i w : ℕ)
    → i + w ≤ length mem
    → read a mem i w ≡ some (a.order.get (slice i w mem))
unfolding read
read_lem a mem i w h = rw (le→leb _ _ h)

pub write_lem :
    (mem : List ℕ) (i : ℕ) (bytes : List ℕ)
    → i + length bytes ≤ length mem
    → write mem i bytes ≡ some (patch i bytes mem)
unfolding write
write_lem mem i bytes h = rw (le→leb _ _ h)

pub read_bytes_lem :
    (mem : List ℕ) (i n : ℕ) → i + n ≤ length mem → read_bytes mem i n ≡ some (slice i n mem)
unfolding read_bytes
read_bytes_lem mem i n h = rw (le→leb _ _ h)

pub memcpy_lem :
    (to from : List ℕ) (i n : ℕ)
    → i + n ≤ length from
    → n ≤ length to
    → memcpy to from i n ≡ some (patch 0 (slice i n from) to)
unfolding memcpy
memcpy_lem to from i n h k = rw (le→leb _ _ h, le→leb _ _ k)

-- A run of writes: each is an offset and the bytes.
abbrev pub Writes : Type 0
Writes = List (ℕ × List ℕ)

abbrev pub apply : Writes → List ℕ → List ℕ
apply [] mem = mem
apply ((i, bytes) ∷ ws) mem = apply ws (patch i bytes mem)

abbrev pub Fits : ℕ → Writes → Type 0
Fits n [] = Unit
Fits n ((i, bytes) ∷ ws) = (i + length bytes ≤ n) × Fits n ws

-- No write touches the n bytes at i.
abbrev pub Clear : ℕ → ℕ → Writes → Type 0
Clear i n [] = Unit
Clear i n ((o, bytes) ∷ ws) = ((i + n ≤ o) ⊎ (o + length bytes ≤ i)) × Clear i n ws

abbrev pub write_all : Writes → List ℕ → Option (List ℕ)
write_all [] mem = some mem
write_all ((i, bytes) ∷ ws) mem = elim (write mem i bytes) [ none ↦ none | some m ↦ write_all ws m ]

pub write_all_lem :
    (ws : Writes) (mem : List ℕ) → Fits (length mem) ws → write_all ws mem ≡ some (apply ws mem)
write_all_lem [] mem h = refl
write_all_lem ((i, bytes) ∷ ws) mem (h, hs) =
    rw (write_lem mem i bytes h, write_all)
      (write_all_lem ws (patch i bytes mem) (rw (length-patch i bytes mem) hs))

pub length-apply : (ws : Writes) (mem : List ℕ) → length (apply ws mem) ≡ length mem
length-apply [] mem = refl
length-apply ((i, bytes) ∷ ws) mem = length-apply ws (patch i bytes mem) ∙ length-patch i bytes mem

pub slice-apply-Clear :
    (ws : Writes) (mem : List ℕ) (i n : ℕ) → Clear i n ws → slice i n (apply ws mem) ≡ slice i n mem
slice-apply-Clear [] mem i n h = refl
slice-apply-Clear ((o, bytes) ∷ ws) mem i n (inl h, hs) =
    slice-apply-Clear ws _ i n hs ∙ slice-patch_before i n o bytes mem h
slice-apply-Clear ((o, bytes) ∷ ws) mem i n (inr h, hs) =
    slice-apply-Clear ws _ i n hs ∙ slice-patch_after i n o bytes mem h

-- What the last write that touches a place left there.
pub slice-apply :
    (ws : Writes) (mem bytes : List ℕ) (i n : ℕ)
    → n ≡ length bytes
    → i + n ≤ length mem
    → Clear i n ws
    → slice i n (apply ws (patch i bytes mem)) ≡ bytes
slice-apply ws mem bytes i n e h c =
    slice-apply-Clear ws (patch i bytes mem) i n c ∙ slice-patch_self i n bytes mem e h

-- A number that was stored is read back, if no later store touches it.
pub read_stored :
    (a : Abi) (law : IsByteOrder a.order) (ws : Writes) (mem : List ℕ) (i w v : ℕ)
    → v < 256 ^ w
    → i + w ≤ length mem
    → Clear i w ws
    → read a (apply ws (patch i (a.order.put w v) mem)) i w ≡ some v
read_stored a law ws mem i w v small h c =
    let bytes : List ℕ = a.order.put w v in
    let size : length (apply ws (patch i bytes mem)) ≡ length mem =
      length-apply ws (patch i bytes mem) ∙ length-patch i bytes mem in
    read_lem a (apply ws (patch i bytes mem)) i w (rw size h)
    ∙ ap some (
        ap a.order.get (slice-apply ws mem bytes i w (sym (law.length-put w v)) h c)
        ∙ law.get-put w v small)

-- A number in w bytes is below 256 ^ w.
pub read-lt :
    (a : Abi) (law : IsByteOrder a.order) (mem : List ℕ) (i w : ℕ) {v : ℕ}
    → read a mem i w ≡ some v
    → v < 256 ^ w
unfolding read
read-lt a law mem i w {v} h = elim (Bool-cases (leb (i + w) (length mem))) [
  | inl inside ↦
      let e : a.order.get (slice i w mem) ≡ v = ground (arith, inside) in
      let size : length (slice i w mem) ≡ w = length-slice i w mem (ground (arith, inside)) in
      subst (λ t. t < 256 ^ w) e
        (subst (λ t. a.order.get (slice i w mem) < 256 ^ t) size (law.get-lt (slice i w mem)))
  | inr outside ↦ absurd (ground (arith, outside))
]

pub length-write :
    (mem : List ℕ) (i : ℕ) (bytes : List ℕ) {to : List ℕ}
    → write mem i bytes ≡ some to
    → length to ≡ length mem
unfolding write
length-write mem i bytes h = ground (arith, length-patch i bytes mem)

pub length-write_all :
    (ws : Writes) (mem : List ℕ) {to : List ℕ} → write_all ws mem ≡ some to → length to ≡ length mem
length-write_all [] mem h = ground arith
length-write_all ((i, bytes) ∷ ws) mem h = elim (Option-cases (write mem i bytes)) [
  | inl e ↦ absurd (ground (arith, e))
  | inr (m, e) ↦ length-write_all ws m (rw (e, write_all) at h) ∙ length-write mem i bytes e
]

pub read_fits :
    (a : Abi) (mem : List ℕ) (i w : ℕ) {v : ℕ} → read a mem i w ≡ some v → i + w ≤ length mem
unfolding read
read_fits a mem i w h = ground arith

-- What lies in an object whose start was overwritten.
pub slice-patch_inside :
    (bytes junk : List ℕ) (i w : ℕ)
    → i + w ≤ length bytes
    → length bytes ≤ length junk
    → slice i w (patch 0 bytes junk) ≡ slice i w bytes
slice-patch_inside bytes junk i w h k =
    ap (λ t. slice t w (patch 0 bytes junk)) (sym (zero-add i))
    ∙ sym (slice-slice i w 0 (length bytes) (patch 0 bytes junk) h)
    ∙ ap (λ t. slice i w t) (slice-patch_self 0 (length bytes) bytes junk refl (rw zero-add k))

-- What lies inside of the first n bytes lies there in the whole.
pub slice-prefix :
    (mem : List ℕ) (n i w : ℕ) → i + w ≤ n → slice i w (slice 0 n mem) ≡ slice i w mem
slice-prefix mem n i w inside =
    slice-slice i w 0 n mem inside ∙ ap (λ k. slice k w mem) (zero-add i)

pub read_prefix :
    (a : Abi) (mem : List ℕ) (n i w : ℕ)
    → i + w ≤ n
    → n ≤ length mem
    → read a (slice 0 n mem) i w ≡ read a mem i w
read_prefix a mem n i w inside fits =
    rw
      (
        read_lem a (slice 0 n mem) i w (omega (arith, length-slice 0 n mem (omega arith))),
        read_lem a mem i w (omega arith),
        slice-prefix mem n i w inside,
      )
      refl

pub read-patch_inside :
    (a : Abi) (bytes junk : List ℕ) (i w : ℕ) {v : ℕ}
    → length bytes ≤ length junk
    → read a bytes i w ≡ some v
    → read a (patch 0 bytes junk) i w ≡ some v
read-patch_inside a bytes junk i w k h =
    let inside : i + w ≤ length bytes = read_fits a bytes i w h in
    read_lem a (patch 0 bytes junk) i w (rw (length-patch 0 bytes junk) (omega arith))
    ∙ ap (λ t. some (a.order.get t)) (slice-patch_inside bytes junk i w inside k)
    ∙ sym (read_lem a bytes i w inside)
    ∙ h

-- The bytes of a C string at the start of an object, without the 0 that ends it; none if no 0 does.
unfoldable pub c_string : List ℕ → Option (List ℕ)
c_string [] = none
c_string (c ∷ cs) = if c == 0 then some [] else Option.map (λ t. c ∷ t) (c_string cs)

-- strncpy(dest, src, n) for a string src: n bytes are written, with zeros behind the string.
unfoldable pub strncpy : List ℕ → List ℕ → ℕ → Option (List ℕ)
unfolding write
strncpy dest src n = write dest 0 (take n (src ++ replicate n 0))
