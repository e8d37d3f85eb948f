-- ===== src/Reader/Offsets.antt =====
-- The offsets in Get_Impl against the headers taskstats-v7.h to taskstats-v10.h.
use Prim.Native.String.{String}
use universe_native_linux_in.Common.{
  ℕ, ◌≡◌, ◌≤◌, inl, inr, none, some, List, [], ◌∷◌, ℤ, pos, if◌then◌else◌,
}
use universe_native_linux_in.Taskstats.Layout.{Placed, place, taskstats_fields, IsWide, member}
use universe_native_linux_in.Taskstats.Size.{Known, known, members}
use universe_native_linux_in.Reader.{Column, columns, is_read}

-- A property with an offset and a size.
abbrev pub Place : Type 0
Place = String × ℕ × ℕ

-- The member of struct taskstats that each property is meant to have the value of.
abbrev pub meant : List (String × String)
meant =
    ("Nice", "ac_nice")
    ∷ ("BlockIoCount", "blkio_count")
    ∷ ("BlockIoDelay", "blkio_delay_total")
    ∷ ("SwapinCount", "swapin_count")
    ∷ ("SwapinDelay", "swapin_delay_total")
    ∷ ("UserId", "ac_uid")
    ∷ ("GroupId", "ac_gid")
    ∷ ("Pid", "ac_pid")
    ∷ ("ParentPid", "ac_ppid")
    ∷ ("BeginTime32", "ac_btime")
    ∷ ("ElapsedTime", "ac_etime")
    ∷ ("UserTime", "ac_utime")
    ∷ ("KernelTime", "ac_stime")
    ∷ ("MinorPageFaults", "ac_minflt")
    ∷ ("MajorPageFaults", "ac_majflt")
    ∷ ("ReadBytes", "read_char")
    ∷ ("WriteBytes", "write_char")
    ∷ ("ReadSysCalls", "read_syscalls")
    ∷ ("WriteSysCalls", "write_syscalls")
    ∷ ("ReadBlockBackedBytes", "read_bytes")
    ∷ ("WriteBlockBackedBytes", "write_bytes")
    ∷ ("VoluntaryContextSwitches", "nvcsw")
    ∷ ("InvoluntaryContextSwitches", "nivcsw")
    ∷ ("UserTimeSmtScaled", "ac_utimescaled")
    ∷ ("KernelTimeSmtScaled", "ac_stimescaled")
    ∷ ("RealTimeSmtScaled", "cpu_scaled_run_real_total")
    ∷ ("MemoryPageReclaimCounter", "freepages_count")
    ∷ ("MemoryPageReclaimDelay", "freepages_delay_total")
    ∷ ("MemoryPageTrashingCounter", "thrashing_count")
    ∷ ("MemoryPageTrashingDelay", "thrashing_delay_total")
    ∷ ("BeginTime64", "ac_btime64")
    ∷ []

-- Where the members lie; a property whose member the header does not have is left out.
abbrev pub member_places : List Placed → List (String × String) → List Place
member_places layout [] = []
member_places layout ((property, name) ∷ rest) =
    let places = member_places layout rest in
    elim (member name layout) [ none ↦ places | some p ↦ (property, p.offset, p.size) ∷ places ]

-- What is read for a version; a property that is null is left out.
abbrev pub read_places : ℤ → List Column → List Place
read_places version [] = []
read_places version (c ∷ cs) =
    let places = read_places version cs in
    if is_read c.since version then (c.property, c.offset, c.size) ∷ places else places

-- For a version from 7 to 10, and a __u64 aligned to 4 or to 8 bytes, the reader takes each property
-- from the offset, and with the size, that its member has in the header of that version, and those
-- properties are null whose member the header does not have.
pub columns-members :
    (wide version : ℕ)
    → IsWide wide
    → 7 ≤ version
    → version ≤ 10
    → read_places (pos version) columns ≡ member_places (members wide version) meant
unfolding columns place taskstats_fields member Known
columns-members wide version w lo hi = elim (known version lo hi) [
  | inl v ↦ elim w [ inl e ↦ rw (v, e) | inr e ↦ rw (v, e) ]
  | inr (inl v) ↦ elim w [ inl e ↦ rw (v, e) | inr e ↦ rw (v, e) ]
  | inr (inr (inl v)) ↦ elim w [ inl e ↦ rw (v, e) | inr e ↦ rw (v, e) ]
  | inr (inr (inr v)) ↦ elim w [ inl e ↦ rw (v, e) | inr e ↦ rw (v, e) ]
]
