-- ===== src/Reader/Serve.antt =====
-- What the reader returns with a kernel that keeps its promises.
use universe_native_linux_in.Common.{
  ℕ, suc, ◌+◌, ◌^◌, ◌<◌, ◌≤◌, ◌≡◌, ◌≢◌, ◌∙◌, refl, inl, inr, Bool, List, [], ◌∷◌, ℤ, pos, none,
  some, Option, slice, length, patch, length-patch, arith, ne→==, if◌then◌else◌, Bool-cases,
}
use universe_native_linux_in.Abi.{Abi, IsLinux}
use universe_native_linux_in.Machine.{Os, IsOs, State, returns, ◌>>=◌}
use universe_native_linux_in.Machine.Memory.{read_lem}
use universe_native_linux_in.Taskstats.{taskstats_cmd_attr_pid, taskstats_cmd_attr_tgid}
use universe_native_linux_in.GetTaskstats.{selected, select_task}
use universe_native_linux_in.GetTaskstats.Kernel.{Phase, Kernel}
use universe_native_linux_in.GetTaskstats.Serve.{get_taskstats_serves}
use universe_native_linux_in.Reader.{
  Column, Values, StatsResult, stats, columns, is_read, signed, read_column, read_columns,
  read_stats, get_impl, get_by_thread, get_by_process,
}

-- Every column lies in the first n bytes.
abbrev Within : ℕ → List Column → Type 0
Within n [] = Unit
Within n (c ∷ cs) = (c.offset + c.size ≤ n) × Within n cs

columns-Within : (n : ℕ) → 640 ≤ n → Within n columns
unfolding columns
columns-Within n h = omega arith

-- The value of a property in an object that holds it.
abbrev pub value_in : Abi → List ℕ → ℤ → Column → Option ℤ
value_in a t version c =
    if is_read c.since version
    then some (
        if c.is_signed
        then signed c.size (a.order.get (slice c.offset c.size t))
        else pos (a.order.get (slice c.offset c.size t)))
    else none

abbrev pub values_in : Abi → List ℕ → ℤ → List Column → Values
values_in a t version [] = []
values_in a t version (c ∷ cs) = (c.property, value_in a t version c) ∷ values_in a t version cs

-- The statistics that an object holds.
abbrev pub stats_in : Abi → List ℕ → StatsResult
stats_in a t =
    let version = signed 2 (a.order.get (slice 0 2 t)) in
    stats version (values_in a t version columns)

module _ {S : Type 0} (a : Abi) (t : List ℕ) where
  read_column_lem :
      (version : ℤ) (c : Column) (s : State S)
      → c.offset + c.size ≤ length t
      → read_column a t version c s ≡ returns (c.property, value_in a t version c) s
  unfolding read_column ◌>>=◌
  read_column_lem version c s inside = elim (Bool-cases (is_read c.since version)) [
    | inl y ↦ rw (y, read_lem a t c.offset c.size inside) refl
    | inr n ↦ rw n refl
  ]

  read_columns_lem :
      (version : ℤ) (cs : List Column) (s : State S)
      → Within (length t) cs
      → read_columns a t version cs s ≡ returns (values_in a t version cs) s
  unfolding read_columns ◌>>=◌
  read_columns_lem version [] s inside = refl
  read_columns_lem version (c ∷ cs) s (first, rest) =
      rw (read_column_lem version c s first, read_columns_lem version cs s rest) refl

  pub read_stats_lem : (s : State S) → length t ≡ 640 → read_stats a t s ≡ returns (stats_in a t) s
  unfolding read_stats ◌>>=◌
  read_stats_lem s sized =
      rw
        (
          read_lem a t 0 2 (omega arith),
          read_columns_lem (signed 2 (a.order.get (slice 0 2 t))) columns s
              (columns-Within (length t) (omega arith)),
        )
        refl

module _ {S : Type 0} (os : Os S) (a : Abi) (law : IsLinux a) (docs : IsOs os) (sd : ℤ) (family : ℕ)
    (known : ℕ → ℕ → List ℕ) (phase : S → Phase) (kernel : Kernel os a sd family known phase)
    (throw_exception verbose : Bool) where
  get_impl_serves :
      (fuel pid tid id_type id : ℕ) (s : State S)
      → select_task pid tid ≡ selected id_type id
      → pid < 2 ^ 32
      → tid < 2 ^ 32
      → length s.name ≡ 100
      → s.rcvbufsz ≡ pos 0
      → (t : State S) × (get_impl os a throw_exception verbose (suc (suc (suc fuel))) pid tid s
          ≡ returns (stats_in a (patch 0 (known id_type id) (os.stack 640 s.os))) t)
  unfolding get_impl ◌>>=◌
  get_impl_serves fuel pid tid id_type id s chosen pid_small tid_small named nobuf =
      let junk : List ℕ = os.stack 640 s.os in
      let sized : length junk ≡ 640 = docs.length-stack 640 s.os in
      let (t, run) =
        get_taskstats_serves os a law docs sd family known phase kernel verbose junk (omega arith)
          fuel pid tid id_type id (pos 640) s chosen pid_small tid_small named nobuf in
      (
        t,
        rw run (
            read_stats_lem a (patch 0 (known id_type id) junk) t
              (length-patch 0 (known id_type id) junk ∙ sized)),
      )

  -- With a kernel that keeps its promises, and the library's globals as they start, the reader
  -- returns the statistics for every id but 0, whatever ErrorAction says. For a process they are
  -- those that the kernel has of the thread with the id (TASKSTATS_CMD_ATTR_PID), and for a thread
  -- those of the process with the id (TASKSTATS_CMD_ATTR_TGID).
  pub readers_serve :
      (fuel id : ℕ) (s : State S)
      → id ≢ 0
      → id < 2 ^ 32
      → length s.name ≡ 100
      → s.rcvbufsz ≡ pos 0
      → ((t : State S) × (get_by_process os a throw_exception verbose (suc (suc (suc fuel))) id s
            ≡ returns
                (stats_in a (patch 0 (known taskstats_cmd_attr_pid id) (os.stack 640 s.os)))
                t))
        × ((t : State S) × (get_by_thread os a throw_exception verbose (suc (suc (suc fuel))) id s
              ≡ returns
                  (stats_in a (patch 0 (known taskstats_cmd_attr_tgid id) (os.stack 640 s.os)))
                  t))
  unfolding get_by_process get_by_thread select_task
  readers_serve fuel id s nonzero small named nobuf = (
    get_impl_serves fuel id 0 taskstats_cmd_attr_pid id s (rw (ne→== id 0 nonzero) refl) small
        (omega arith) named nobuf,
    get_impl_serves fuel 0 id taskstats_cmd_attr_tgid id s (rw (ne→== id 0 nonzero) refl)
        (omega arith) small named nobuf,
  )
