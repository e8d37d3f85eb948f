-- ===== src/Taskstats/Layout.antt =====
-- The rule by which a C compiler places the members of a structure, and what it gives for the
-- headers taskstats-v7.h to taskstats-v10.h.
use Prim.Native.String.{String}
use Prim.Native.Nat.{max}
use text.Mathlib.Text.{◌==◌ as str_eq}
use universe_native_linux_in.Common.{
  ℕ, ◌+◌, ◌-◌, ◌*◌, ◌/◌, ◌≡◌, ◌⊎◌, Option, none, some, List, [], ◌∷◌, ◌==◌, if◌then◌else◌,
}
use universe_native_linux_in.Taskstats.Fields.{
  Field, taskstats_v7, taskstats_v8, taskstats_v9, taskstats_v10,
}

-- A member with its offset and size
pub record Placed : Type 0 where
  pub name : String
  pub offset : ℕ
  pub size : ℕ

abbrev pub round_up : ℕ → ℕ → ℕ
round_up n a = (n + a - 1) / a * a

-- The members from an offset on.
unfoldable pub place : ℕ → List Field → List Placed
place at [] = []
place at (f ∷ fs) =
    let start = round_up at f.align in
    record { name = f.name; offset = start; size = f.size } ∷ place (start + f.size) fs

-- The offset behind the last member.
unfoldable pub end_of : ℕ → List Field → ℕ
end_of at [] = at
end_of at (f ∷ fs) = end_of (round_up at f.align + f.size) fs

unfoldable pub align_of : List Field → ℕ
align_of [] = 1
align_of (f ∷ fs) = max f.align (align_of fs)

unfoldable pub sizeof : List Field → ℕ
unfolding end_of align_of
sizeof fs = round_up (end_of 0 fs) (align_of fs)

-- The header of a version; there is none for other numbers than 7 to 10.
unfoldable pub taskstats_fields : ℕ → ℕ → List Field
unfolding taskstats_v7 taskstats_v8 taskstats_v9 taskstats_v10
taskstats_fields wide version =
    if version == 7
    then taskstats_v7 wide
    else if version == 8
    then taskstats_v8 wide
    else if version == 9
    then taskstats_v9 wide
    else if version == 10
    then taskstats_v10 wide
    else []

-- The alignments that compilers give a __u64 member.
abbrev pub IsWide : ℕ → Type 0
IsWide wide = (wide ≡ 4) ⊎ (wide ≡ 8)

-- The member of a structure with a name.
unfoldable pub member : String → List Placed → Option Placed
member name [] = none
member name (p ∷ ps) = if str_eq p.name name then some p else member name ps
