-- ===== src/Taskstats/Show.antt =====
-- so-src/show-taskstat-info.c: what it prints about the header that it is compiled with, and
-- so-src/taskstats-internals/show-taskstats-offsetof.c, which a script compiles once for each member.
use Prim.Native.String.{String}
use mathlib.Core.Option
use universe_native_linux_in.Common.{ℕ, Option, List, [], ◌∷◌}
use universe_native_linux_in.Taskstats.{ts_comm_len}
use universe_native_linux_in.Taskstats.Fields.{
  Field, taskstats_v7, taskstats_v8, taskstats_v9, taskstats_v10,
}
use universe_native_linux_in.Taskstats.Layout.{Placed, place, sizeof, member}

-- A header: struct taskstats and TASKSTATS_VERSION.
pub record Header : Type 0 where
  pub fields : List Field
  pub taskstats_version : ℕ

module _ (wide : ℕ) where
  unfoldable pub header_v7 : Header
  unfolding taskstats_v7
  header_v7 = record { fields = taskstats_v7 wide; taskstats_version = 7 }

  unfoldable pub header_v8 : Header
  unfolding taskstats_v8
  header_v8 = record { fields = taskstats_v8 wide; taskstats_version = 8 }

  unfoldable pub header_v9 : Header
  unfolding taskstats_v9
  header_v9 = record { fields = taskstats_v9 wide; taskstats_version = 9 }

  unfoldable pub header_v10 : Header
  unfolding taskstats_v10
  header_v10 = record { fields = taskstats_v10 wide; taskstats_version = 10 }

  -- The headers of the repository.
  unfoldable pub headers : List Header
  unfolding header_v7 header_v8 header_v9 header_v10
  headers = header_v7 ∷ header_v8 ∷ header_v9 ∷ header_v10 ∷ []

-- The numbers in the line that `main` prints.
pub record Info : Type 0 where
  pub sizeof_int : ℕ
  pub sizeof_taskstat : ℕ
  pub version : ℕ
  pub comm_len : ℕ

-- `main`. On the systems of the library an int has 4 bytes.
unfoldable pub show_info : Header → Info
unfolding sizeof
show_info h = record {
  sizeof_int = 4;
  sizeof_taskstat = sizeof h.fields;
  version = h.taskstats_version;
  comm_len = ts_comm_len;
}

-- offsetof and sizeof of a member, which the compiler refuses if there is none of the name.
unfoldable pub show_field : String → List Placed → Option (String × ℕ × ℕ)
unfolding member
show_field name layout = Option.map (λ p. (name, p.offset, p.size)) (member name layout)

-- The offset in a line of PRINT_FIELD.
unfoldable pub print_field : List Placed → String → String × Option ℕ
unfolding member
print_field layout name = (name, Option.map (λ p. p.offset) (member name layout))

unfoldable pub print_taskstats_structure : Header → List (String × Option ℕ)
unfolding place print_field
print_taskstats_structure h =
    let layout = place 0 h.fields in
    print_field layout "version"
    ∷ print_field layout "ac_exitcode"
    ∷ print_field layout "ac_exitcode"
    ∷ print_field layout "ac_flag"
    ∷ print_field layout "ac_nice"
    ∷ print_field layout "cpu_count"
    ∷ print_field layout "cpu_delay_total"
    ∷ []
