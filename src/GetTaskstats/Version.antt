-- ===== src/GetTaskstats/Version.antt =====
-- `get_taskstats_version`, and its reader on the other side, `GetTaskStatVersion` of
-- Universe.LinuxTaskStats/Universe.LinuxTaskStats/LinuxTaskStatsReader.cs.
use universe_native_linux_in.Common.{
  ℕ, ◌≡◌, ◌<◌, ◌/◌, Bool, negsuc, signed32, arith, ◌+◌, ◌*◌, ◌%◌, ◌^◌, false, List, ℤ, pos, ◌==◌,
  if◌then◌else◌,
}
use universe_native_linux_in.Abi.{Abi}
use universe_native_linux_in.Machine.{Os, M, returns, pure, checked, call_getpid, ◌>>=◌, ◌>>◌}
use universe_native_linux_in.Machine.Memory.{read}
use universe_native_linux_in.GetTaskstats.{get_taskstats}

-- `(__u64)(((__u64)isOk) << 32) | ((__u64) ret)`. isOk is an error number and ret a __u16, so no
-- sign is extended; the low half of the shifted number is 0, so `|` adds.
unfoldable pub pack_version : ℕ → ℕ → ℕ
pack_version is_ok ret = is_ok * 2 ^ 32 % 2 ^ 64 + ret

abbrev is_zero : ℤ → Bool
is_zero (pos n) = n == 0
is_zero (negsuc n) = false

-- `isOk` and `ver` of the reader, from the number as a `long` bit pattern: `(int) (verRaw >> 32)`
-- and `(int) (verRaw & 0xFFFFFFFF)`.
unfoldable pub raw_is_ok : ℕ → ℤ
raw_is_ok raw = signed32 (raw / 2 ^ 32 % 2 ^ 32)

unfoldable pub raw_version : ℕ → ℤ
raw_version raw = signed32 (raw % 2 ^ 32)

-- What the reader does: it returns the version or null, or throws.
pub data VersionResult : Type 0 where
  found : ℤ → VersionResult
  null : VersionResult
  throws : ℤ → VersionResult

-- `GetTaskStatVersion`, with the ThrowException bit of ErrorAction. DebugMessage, which prints the
-- verbose output, is compiled away in a release.
unfoldable pub get_task_stat_version : Bool → ℕ → VersionResult
get_task_stat_version throw_exception raw =
    if is_zero (raw_is_ok raw)
    then found (raw_version raw)
    else if throw_exception
    then throws (raw_is_ok raw)
    else null

-- `GeTaskStatsVersion`, the same number cast to int
unfoldable pub ge_task_stats_version : ℕ → ℤ
ge_task_stats_version raw = signed32 (raw % 2 ^ 32)

-- The cast drops the error number: the result is the low half, whatever the error number is.
ge_task_stats_version-pack_version :
    (is_ok version : ℕ)
    → is_ok < 2 ^ 31
    → version < 2 ^ 16
    → ge_task_stats_version (pack_version is_ok version) ≡ pos version
unfolding ge_task_stats_version pack_version
ge_task_stats_version-pack_version is_ok version h k = ground arith

raw_is_ok-pack_version :
    (is_ok version : ℕ)
    → is_ok < 2 ^ 31
    → version < 2 ^ 16
    → raw_is_ok (pack_version is_ok version) ≡ pos is_ok
unfolding raw_is_ok pack_version
raw_is_ok-pack_version is_ok version h k = ground arith

raw_version-pack_version :
    (is_ok version : ℕ)
    → is_ok < 2 ^ 31
    → version < 2 ^ 16
    → raw_version (pack_version is_ok version) ≡ pos version
unfolding raw_version pack_version
raw_version-pack_version is_ok version h k = ground arith

-- For error numbers below 2 ^ 31 and versions below 2 ^ 16 the reader undoes the packing: from the
-- error number 0 and a version it returns that version; from another error number it returns null,
-- or throws that number where exceptions are asked for.
pub get_task_stat_version-pack_version :
    (throw_exception : Bool) (is_ok version : ℕ)
    → is_ok < 2 ^ 31
    → version < 2 ^ 16
    → get_task_stat_version throw_exception (pack_version is_ok version) ≡ (
        if is_ok == 0
        then found (pos version)
        else if throw_exception
        then throws (pos is_ok)
        else null)
unfolding get_task_stat_version
get_task_stat_version-pack_version throw_exception is_ok version h k =
    rw (raw_is_ok-pack_version is_ok version h k, raw_version-pack_version is_ok version h k)

module _ {S : Type 0} (os : Os S) (a : Abi) where
  abbrev pub call_malloc : ℕ → M S (List ℕ)
  call_malloc n s = let (t, r) = os.malloc n s.os in returns t (record s { os = r })

  abbrev pub call_free : M S (Unit {0})
  call_free s = returns tt (record s { os = os.free s.os })

  unfoldable pub get_taskstats_version : ℕ → M S ℕ
  unfolding pack_version
  get_taskstats_version fuel = do
    t ← call_malloc 1024
    pid ← call_getpid os
    (is_ok, t') ← get_taskstats os a false fuel pid 0 t (pos 1024)
    ret ← (if is_ok == 0 then checked (read a t' 0 2) else pure 0)
    call_free
    pure (pack_version is_ok ret)
