-- ===== src/Reader.antt =====
-- Get_Impl of Universe.LinuxTaskStats/Universe.LinuxTaskStats/LinuxTaskStatsReader.cs, and its two
-- callers. The structure that it returns is the list of its properties with their values.
pub mod Offsets
pub mod Serve
pub mod Version
pub mod Errors
pub mod Unanswered
pub mod Refused
use Prim.Native.String.{String}
use universe_native_linux_in.Common.{
  ℕ, ◌+◌, ◌-◌, ◌*◌, ◌^◌, Bool, true, false, not, Option, none, some, List, [], ◌∷◌, ℤ, pos, negsuc,
  ltb, ltb_ℤ, ◌==◌, if◌then◌else◌,
}
use universe_native_linux_in.Abi.{Abi}
use universe_native_linux_in.Machine.{
  Os, M, returns, exits, faults, diverges, pure, checked, local_object, ◌>>=◌,
}
use universe_native_linux_in.Machine.Memory.{read}
use universe_native_linux_in.GetTaskstats.{get_taskstats}

-- The number of a type of that many bytes, from its bit pattern.
abbrev pub signed : ℕ → ℕ → ℤ
signed size w = if ltb w (2 ^ (8 * size - 1)) then pos w else negsuc (2 ^ (8 * size) - w - 1)

-- A property: the offset and size that are read for it, whether the number is signed, and the
-- version from which on it is not null.
pub record Column : Type 0 where
  pub property : String
  pub offset : ℕ
  pub size : ℕ
  pub is_signed : Bool
  pub since : Option ℕ

-- *(byte*), *(int*), *(long*), and the conditional on version
abbrev byte_at : String → ℕ → Column
byte_at n i = record { property = n; offset = i; size = 1; is_signed = false; since = none }

abbrev int_at : String → ℕ → Column
int_at n i = record { property = n; offset = i; size = 4; is_signed = true; since = none }

abbrev long_at : String → ℕ → Column
long_at n i = record { property = n; offset = i; size = 8; is_signed = true; since = none }

abbrev long_since : ℕ → String → ℕ → Column
long_since v n i = record { property = n; offset = i; size = 8; is_signed = true; since = some v }

unfoldable pub columns : List Column
columns =
    byte_at "Nice" 9
    ∷ long_at "BlockIoCount" 32
    ∷ long_at "BlockIoDelay" 40
    ∷ long_at "SwapinCount" 48
    ∷ long_at "SwapinDelay" 56
    ∷ int_at "UserId" 120
    ∷ int_at "GroupId" 124
    ∷ int_at "Pid" 128
    ∷ int_at "ParentPid" 132
    ∷ int_at "BeginTime32" 136
    ∷ long_at "ElapsedTime" 144
    ∷ long_at "UserTime" 152
    ∷ long_at "KernelTime" 160
    ∷ long_at "MinorPageFaults" 168
    ∷ long_at "MajorPageFaults" 176
    ∷ long_at "ReadBytes" 216
    ∷ long_at "WriteBytes" 224
    ∷ long_at "ReadSysCalls" 232
    ∷ long_at "WriteSysCalls" 240
    ∷ long_at "ReadBlockBackedBytes" 248
    ∷ long_at "WriteBlockBackedBytes" 256
    ∷ long_at "VoluntaryContextSwitches" 272
    ∷ long_at "InvoluntaryContextSwitches" 280
    ∷ long_at "UserTimeSmtScaled" 288
    ∷ long_at "KernelTimeSmtScaled" 296
    ∷ long_at "RealTimeSmtScaled" 304
    ∷ long_at "MemoryPageReclaimCounter" 312
    ∷ long_at "MemoryPageReclaimDelay" 320
    ∷ long_since 9 "MemoryPageTrashingCounter" 328
    ∷ long_since 9 "MemoryPageTrashingDelay" 336
    ∷ long_since 10 "BeginTime64" 344
    ∷ []

abbrev pub is_read : Option ℕ → ℤ → Bool
is_read none version = true
is_read (some v) version = not (ltb_ℤ version (pos v))

abbrev pub Values : Type 0
Values = List (String × Option ℤ)

-- It returns the statistics with their version, or null, or throws.
pub data StatsResult : Type 0 where
  stats : ℤ → Values → StatsResult
  no_stats : StatsResult
  throws_error : ℕ → StatsResult

module _ {S : Type 0} (a : Abi) (task_stat : List ℕ) (version : ℤ) where
  unfoldable pub read_column : Column → M S (String × Option ℤ)
  read_column c =
      if is_read c.since version
      then (do
        raw ← checked (read a task_stat c.offset c.size)
        pure (c.property, some (if c.is_signed then signed c.size raw else pos raw)))
      else pure (c.property, none)

  unfoldable pub read_columns : List Column → M S Values
  unfolding read_column
  read_columns [] = pure []
  read_columns (c ∷ cs) = do v ← read_column c; vs ← read_columns cs; pure (v ∷ vs)

-- `var version = *(short*) taskStat`, and the object initialiser.
unfoldable pub read_stats : {S : Type 0} → Abi → List ℕ → M S StatsResult
unfolding read_columns columns
read_stats a task_stat = do
  raw ← checked (read a task_stat 0 2)
  values ← read_columns a task_stat (signed 2 raw) columns
  pure (stats (signed 2 raw) values)

-- throw_exception and verbose are bits of ErrorAction; IsDebug is false in a release, and
-- DebugMessage, which prints the verbose lines, is compiled away. pid and tid are bit patterns.
module _ {S : Type 0} (os : Os S) (a : Abi) (throw_exception verbose : Bool) where
  unfoldable pub get_impl : ℕ → ℕ → ℕ → M S StatsResult
  unfolding read_stats
  get_impl fuel pid tid = do
    task_stat ← local_object os 640
    (is_ok, filled) ← get_taskstats os a verbose fuel pid tid task_stat (pos 640)
    if is_ok == 0
        then read_stats a filled
        else if throw_exception
        then pure (throws_error is_ok)
        else pure no_stats

  unfoldable pub get_by_thread : ℕ → ℕ → M S StatsResult
  unfolding get_impl
  get_by_thread fuel thread_id = get_impl fuel 0 thread_id

  unfoldable pub get_by_process : ℕ → ℕ → M S StatsResult
  unfolding get_impl
  get_by_process fuel process_id = get_impl fuel process_id 0
