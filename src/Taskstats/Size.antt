-- ===== src/Taskstats/Size.antt =====
-- The size table of so-src/get_taskstats.c against the headers.
use universe_native_linux_in.Common.{
  ℕ, ◌+◌, ◌≤◌, ◌<◌, ◌≡◌, ◌⊎◌, inl, inr, List, ◌++◌, drop, length, arith,
}
use universe_native_linux_in.Taskstats.{get_ts_size_bv}
use universe_native_linux_in.Taskstats.Layout.{Placed, place, sizeof, taskstats_fields, IsWide}

unfoldable pub Known : ℕ → Type 0
Known v = (v ≡ 7) ⊎ (v ≡ 8) ⊎ (v ≡ 9) ⊎ (v ≡ 10)

pub known : (v : ℕ) → 7 ≤ v → v ≤ 10 → Known v
unfolding Known
known v lo hi = omega arith

-- For a version from 7 to 10, and a __u64 aligned to 4 or to 8 bytes, the number of bytes that
-- `get_ts_size_bv` returns is the size of struct taskstats in the header of that version.
pub get_ts_size_bv-sizeof :
    (wide version : ℕ)
    → IsWide wide
    → 7 ≤ version
    → version ≤ 10
    → get_ts_size_bv version ≡ sizeof (taskstats_fields wide version)
unfolding get_ts_size_bv sizeof taskstats_fields Known
get_ts_size_bv-sizeof wide version w lo hi = elim (known version lo hi) [
  | inl v ↦ elim w [ inl e ↦ rw (v, e) | inr e ↦ rw (v, e) ]
  | inr (inl v) ↦ elim w [ inl e ↦ rw (v, e) | inr e ↦ rw (v, e) ]
  | inr (inr (inl v)) ↦ elim w [ inl e ↦ rw (v, e) | inr e ↦ rw (v, e) ]
  | inr (inr (inr v)) ↦ elim w [ inl e ↦ rw (v, e) | inr e ↦ rw (v, e) ]
]

-- `get_ts_size_bv` never falls when the version grows, and returns 328 bytes at least and 352 at
-- most, on every version.
pub get_ts_size_bv_mono :
    (v w : ℕ)
    → v ≤ w
    → (get_ts_size_bv v ≤ get_ts_size_bv w) × (328 ≤ get_ts_size_bv v) × (get_ts_size_bv w ≤ 352)
unfolding get_ts_size_bv
get_ts_size_bv_mono v w h = ground arith

-- The placed members of the header of a version.
abbrev pub members : ℕ → ℕ → List Placed
members wide version = place 0 (taskstats_fields wide version)

-- For a version from 7 to 9, and a __u64 aligned to 4 or to 8 bytes, the header of the next version
-- has every member of this one, in the same order and at the same offset, before its own.
pub members_stay :
    (wide version : ℕ)
    → IsWide wide
    → 7 ≤ version
    → version < 10
    → members wide (version + 1)
      ≡ members wide version ++ drop (length (members wide version)) (members wide (version + 1))
unfolding place taskstats_fields Known
members_stay wide version w lo hi = elim (known version lo (omega arith)) [
  | inl v ↦ elim w [ inl e ↦ rw (v, e) | inr e ↦ rw (v, e) ]
  | inr (inl v) ↦ elim w [ inl e ↦ rw (v, e) | inr e ↦ rw (v, e) ]
  | inr (inr (inl v)) ↦ elim w [ inl e ↦ rw (v, e) | inr e ↦ rw (v, e) ]
  | inr (inr (inr v)) ↦ absurd (omega arith)
]
