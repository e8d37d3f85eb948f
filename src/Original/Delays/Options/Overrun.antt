-- ===== src/Original/Delays/Options/Overrun.antt =====
-- Arguments of options that are longer than the buffers they are copied to.
use universe_native_linux_in.Common.{
  Bool-cases, inl, inr, leb, if◌then◌else◌, ℕ, zero, suc, ◌+◌, ◌≡◌, ◌≢◌, ◌≤◌, ◌<◌, refl, ap, ◌∙◌,
  true, none, some, List, [], ◌∷◌, ◌++◌, ℤ, length, length-append, length-take, length-replicate,
  take, replicate, patch, arith, ne→==, patch_whole,
}
use universe_native_linux_in.Machine.{State, returns, faults, ◌>>=◌, note, Message, printed}
use universe_native_linux_in.Machine.Memory.{strncpy, write, write_lem, c_string}
use universe_native_linux_in.Original.Delays.{cpumask_size}
use universe_native_linux_in.Original.Delays.Options.{Locals, option}

-- A C string has no 0 before its end.
abbrev pub NoZero : List ℕ → Type 0
NoZero [] = Unit
NoZero (c ∷ cs) = (c ≢ 0) × NoZero cs

c_string_cut :
    (n : ℕ) (cs zs : List ℕ) → NoZero cs → n ≤ length cs → c_string (take n (cs ++ zs)) ≡ none
unfolding c_string
c_string_cut zero cs zs h k = refl
c_string_cut (suc n) [] zs h k = absurd (omega arith)
c_string_cut (suc n) (c ∷ cs) zs (h, hs) k =
    rw (ne→== c 0 h, c_string_cut n cs zs hs (omega arith)) refl

c_string_whole :
    (n m : ℕ) (cs : List ℕ)
    → NoZero cs
    → length cs < n
    → c_string (take n (cs ++ replicate (suc m) 0)) ≡ some cs
unfolding c_string
c_string_whole zero m cs h k = absurd (omega arith)
c_string_whole (suc n) m [] h k = refl
c_string_whole (suc n) m (c ∷ cs) (h, hs) k =
    rw (ne→== c 0 h, c_string_whole n m cs hs (omega arith)) refl

length-padded : (cs : List ℕ) (n : ℕ) → length (take n (cs ++ replicate n 0)) ≡ n
length-padded cs n = omega (
  arith,
  length-take n (cs ++ replicate n 0),
  length-append cs (replicate n 0),
  length-replicate {A = ℕ} n 0,
)

strncpy_outside : (dest src : List ℕ) (n : ℕ) → length dest < n → strncpy dest src n ≡ none
unfolding strncpy write
strncpy_outside dest src n h = ground (arith, length-padded src n)

strncpy_inside :
    (dest src : List ℕ) (n : ℕ)
    → n ≤ length dest
    → strncpy dest src n ≡ some (patch 0 (take n (src ++ replicate n 0)) dest)
unfolding strncpy
strncpy_inside dest src n h =
    write_lem dest 0 (take n (src ++ replicate n 0)) (omega (arith, length-padded src n))

strncpy_whole :
    (dest src : List ℕ) (n : ℕ)
    → length dest ≡ n
    → strncpy dest src n ≡ some (take n (src ++ replicate n 0))
strncpy_whole dest src n h =
    strncpy_inside dest src n (omega arith)
    ∙ ap some
        (patch_whole (take n (src ++ replicate n 0)) dest (omega (arith, length-padded src n)))

take_padded :
    (cs : List ℕ) (n : ℕ) → take (length cs + 1) (cs ++ replicate (n + 1) 0) ≡ cs ++ (0 ∷ [])
take_padded [] n = let e : n + 1 ≡ suc n = omega arith in rw e refl
take_padded (c ∷ cs) n =
    let e : suc (length cs) + 1 ≡ suc (length cs + 1) = omega arith in
    rw e (ap (λ t. c ∷ t) (take_padded cs n))

module _ {S : Type 0} (atoi : List ℕ → ℤ) (optarg : List ℕ) (l : Locals) (s : State S) where
  -- What strncpy makes of cpumask.
  abbrev pub mask : List ℕ
  mask = take cpumask_size (optarg ++ replicate cpumask_size 0)

  -- An argument of `-C` that leaves no room for its 0 is copied past the end of containerpath. A
  -- shorter one is put, with its 0, over the start of containerpath.
  pub container_option_overruns : option atoi b'C' optarg l s ≡ (
      if leb (length l.containerpath) (length optarg)
      then faults
      else returns
          (record l {
            containerset = true;
            containerpath = patch 0 (optarg ++ (0 ∷ [])) l.containerpath;
          })
          s)
  unfolding option ◌>>=◌
  container_option_overruns = elim (Bool-cases (leb (length l.containerpath) (length optarg))) [
    | inl long ↦
        rw (long, strncpy_outside l.containerpath optarg (length optarg + 1) (ground arith)) refl
    | inr short ↦
        rw
          (
            short,
            strncpy_inside l.containerpath optarg (length optarg + 1) (ground arith),
            take_padded optarg (length optarg),
          )
          refl
  ]

  -- The argument of `-m` is a text without a 0, and cpumask has its size. A text that is as long as
  -- the buffer, or longer, leaves cpumask without a 0, and the line that is printed about it reads
  -- past its end. With a shorter one that line shows it, and cpumask holds it as a string.
  pub cpumask_option_overruns :
      NoZero optarg
      → length s.cpumask ≡ cpumask_size
      → (option atoi b'm' optarg l s ≡ (
          if leb cpumask_size (length optarg)
          then faults
          else returns
              (record l { maskset = true })
              (note (printed (Message.cpumask_set optarg)) (record s { cpumask = mask }))))
        × (c_string mask ≡ (if leb cpumask_size (length optarg) then none else some optarg))
  unfolding option ◌>>=◌
  cpumask_option_overruns text sized = elim (Bool-cases (leb cpumask_size (length optarg))) [
    | inl long ↦
        let cut = c_string_cut cpumask_size optarg (replicate cpumask_size 0) text (ground arith) in
        (rw (long, strncpy_whole s.cpumask optarg cpumask_size sized, cut) refl, rw long cut)
    | inr short ↦
        let whole = c_string_whole cpumask_size 291 optarg text (ground arith) in
        (rw (short, strncpy_whole s.cpumask optarg cpumask_size sized, whole) refl, rw short whole)
  ]
