-- ===== src/Tests/Endless.antt =====
-- A message over which the walks do not end.
use universe_native_linux_in.Common.{ℕ, List, [], ◌∷◌, pos, length, take}
use universe_native_linux_in.Machine.{Os}
use universe_native_linux_in.Original.Delays.Reply as Tool
use universe_native_linux_in.Original.Delays.Reply.Spins
use universe_native_linux_in.Tests.Mock.{mock}

-- An attribute of an unknown type with nla_len 0.
abbrev stuck : List ℕ
stuck =
    24 ∷ 0 ∷ 0 ∷ 0 ∷ 24 ∷ 0 ∷ 0 ∷ 0 ∷ 0 ∷ 0 ∷ 0 ∷ 0 ∷ 100 ∷ 0 ∷ 0 ∷ 0 ∷ 2 ∷ 1 ∷ 0 ∷ 0 ∷ 0 ∷ 0 ∷ 7
    ∷ 0 ∷ []

-- A system that answers every recv with it.
abbrev babbling : Os ℕ
babbling = record mock { recv = λ fd n s. (pos (length (take n stuck)), take n stuck, s) }
