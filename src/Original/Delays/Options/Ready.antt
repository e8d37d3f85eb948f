-- ===== src/Original/Delays/Options/Ready.antt =====
-- What holds when the options have been read.
use universe_native_linux_in.Common.{
  ℕ, ◌+◌, ◌≡◌, ap, ◌≢◌, ◌⊎◌, inl, inr, refl, true, false, none, some, Option, List, [], ◌∷◌, ℤ, pos,
  is_negative, length, length-patch, arith, Option-cases, take, ◌++◌, replicate,
}
use universe_native_linux_in.Machine.{State, returns, ◌>>=◌}
use universe_native_linux_in.Machine.Ensures.{after_returns}
use universe_native_linux_in.Machine.Memory.{strncpy, write, c_string}
use universe_native_linux_in.Taskstats.{
  taskstats_cmd_attr_unspec, taskstats_cmd_attr_pid, taskstats_cmd_attr_tgid,
}
use universe_native_linux_in.Netlink.Socket.{is_nonzero}
use universe_native_linux_in.Original.Delays.{cpumask_size, containerpath_size}
use universe_native_linux_in.Original.Delays.Options.{Locals, initial, option, options}

-- A task is named together with the kind of its id, the buffers have their sizes, the receive
-- buffer size is none or positive, and a cpumask that was set is a string.
pub record IsReady {S : Type 0} (l : Locals) (s : State S) : Type 0 where
  pub named :
      ((is_nonzero l.tid ≡ true)
        × ((l.cmd_type ≡ taskstats_cmd_attr_pid) ⊎ (l.cmd_type ≡ taskstats_cmd_attr_tgid)))
      ⊎ ((is_nonzero l.tid ≡ false) × (l.cmd_type ≡ taskstats_cmd_attr_unspec))
  pub path_sized : length l.containerpath ≡ containerpath_size
  pub mask_sized : length s.cpumask ≡ cpumask_size
  pub rcvbufsz_valid : is_negative s.rcvbufsz ≡ false
  pub mask_ends : (l.maskset ≡ false) ⊎ (c_string s.cpumask ≢ none)

pub length-strncpy :
    (dest src : List ℕ) (n : ℕ) {to : List ℕ}
    → strncpy dest src n ≡ some to
    → length to ≡ length dest
unfolding strncpy write
length-strncpy dest src n h = ground (arith, length-patch 0 (take n (src ++ replicate n 0)) dest)

-- The size of what strncpy leaves, where it stays in the object.
abbrev Sized : List ℕ → Option (List ℕ) → Type 0
Sized dest none = Unit
Sized dest (some to) = length to ≡ length dest

strncpy-Sized : (dest src : List ℕ) (n : ℕ) → Sized dest (strncpy dest src n)
strncpy-Sized dest src n = elim (Option-cases (strncpy dest src n)) [
  | inl e ↦ rw e tt
  | inr (to, e) ↦ rw e (length-strncpy dest src n e)
]

module _ {S : Type 0} (atoi : List ℕ → ℤ) where
  option-IsReady :
      (c : ℕ) (optarg : List ℕ) (l l' : Locals) (s t : State S)
      → IsReady l s
      → option atoi c optarg l s ≡ returns l' t
      → IsReady l' t
  unfolding option ◌>>=◌
  option-IsReady c optarg l l' s t ready h = ground (
    arith,
    strncpy-Sized l.containerpath optarg (length optarg + 1),
    strncpy-Sized s.cpumask optarg cpumask_size,
  )

  -- When the program goes on behind its options, what holds of its locals and globals before them
  -- still holds: a task is named together with the kind of its id, or none is; the buffers have
  -- their sizes; the receive buffer size is not negative; and a cpumask that was set ends within its
  -- buffer.
  pub options-IsReady :
      (opts : List (ℕ × List ℕ)) (l l' : Locals) (s t : State S)
      → IsReady l s
      → options atoi opts l s ≡ returns l' t
      → IsReady l' t
  unfolding options ◌>>=◌
  options-IsReady [] l l' s t ready h = ground arith
  options-IsReady ((c, optarg) ∷ rest) l l' s t ready h =
      let (next, u, one, more) =
        after_returns (option atoi c optarg l s) (options atoi rest) l' t h in
      options-IsReady rest next l' u t (option-IsReady c optarg l next s u ready one) more

pub initial-IsReady :
    {S : Type 0} (junk : List ℕ) (s : State S)
    → length junk ≡ containerpath_size
    → length s.cpumask ≡ cpumask_size
    → s.rcvbufsz ≡ pos 0
    → IsReady (initial junk) s
unfolding initial
initial-IsReady junk s sized mask nobuf = record {
  named = inr (refl, refl);
  path_sized = sized;
  mask_sized = mask;
  rcvbufsz_valid = ap is_negative nobuf;
  mask_ends = inl refl;
}
