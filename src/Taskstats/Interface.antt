-- ===== src/Taskstats/Interface.antt =====
-- The enumerations and the names at the end of each header taskstats-v7.h to taskstats-v10.h, beside
-- the constants that the models of the code use.
use Prim.Native.String.{String}
use mathlib.Core.Option
use text.Mathlib.Text.{◌==◌ as str_eq}
use universe_native_linux_in.Common.{
  ℕ, suc, ◌≡◌, refl, Option, none, some, List, [], ◌∷◌, if◌then◌else◌,
}
use universe_native_linux_in.Taskstats.{
  taskstats_cmd_get, taskstats_type_pid, taskstats_type_tgid, taskstats_type_stats,
  taskstats_type_aggr_pid, taskstats_type_aggr_tgid, taskstats_cmd_attr_unspec,
  taskstats_cmd_attr_pid, taskstats_cmd_attr_tgid, taskstats_cmd_attr_register_cpumask,
  taskstats_cmd_attr_deregister_cpumask,
}

-- The enumerators of the three enumerations in order, TASKSTATS_GENL_NAME and TASKSTATS_GENL_VERSION.
-- The first enumerator of each is given the value 0.
pub record Interface : Type 0 where
  pub commands : List String
  pub types : List String
  pub attrs : List String
  pub genl_name : String
  pub genl_version : ℕ

unfoldable pub interface_v7 : Interface
interface_v7 = record {
  commands =
      "TASKSTATS_CMD_UNSPEC" ∷ "TASKSTATS_CMD_GET" ∷ "TASKSTATS_CMD_NEW" ∷ "__TASKSTATS_CMD_MAX"
      ∷ [];
  types =
      "TASKSTATS_TYPE_UNSPEC" ∷ "TASKSTATS_TYPE_PID" ∷ "TASKSTATS_TYPE_TGID"
      ∷ "TASKSTATS_TYPE_STATS" ∷ "TASKSTATS_TYPE_AGGR_PID" ∷ "TASKSTATS_TYPE_AGGR_TGID"
      ∷ "__TASKSTATS_TYPE_MAX" ∷ [];
  attrs =
      "TASKSTATS_CMD_ATTR_UNSPEC" ∷ "TASKSTATS_CMD_ATTR_PID" ∷ "TASKSTATS_CMD_ATTR_TGID"
      ∷ "TASKSTATS_CMD_ATTR_REGISTER_CPUMASK" ∷ "TASKSTATS_CMD_ATTR_DEREGISTER_CPUMASK"
      ∷ "__TASKSTATS_CMD_ATTR_MAX" ∷ [];
  genl_name = "TASKSTATS";
  genl_version = 1;
}

unfoldable pub interface_v8 : Interface
interface_v8 = record {
  commands =
      "TASKSTATS_CMD_UNSPEC" ∷ "TASKSTATS_CMD_GET" ∷ "TASKSTATS_CMD_NEW" ∷ "__TASKSTATS_CMD_MAX"
      ∷ [];
  types =
      "TASKSTATS_TYPE_UNSPEC" ∷ "TASKSTATS_TYPE_PID" ∷ "TASKSTATS_TYPE_TGID"
      ∷ "TASKSTATS_TYPE_STATS" ∷ "TASKSTATS_TYPE_AGGR_PID" ∷ "TASKSTATS_TYPE_AGGR_TGID"
      ∷ "TASKSTATS_TYPE_NULL" ∷ "__TASKSTATS_TYPE_MAX" ∷ [];
  attrs =
      "TASKSTATS_CMD_ATTR_UNSPEC" ∷ "TASKSTATS_CMD_ATTR_PID" ∷ "TASKSTATS_CMD_ATTR_TGID"
      ∷ "TASKSTATS_CMD_ATTR_REGISTER_CPUMASK" ∷ "TASKSTATS_CMD_ATTR_DEREGISTER_CPUMASK"
      ∷ "__TASKSTATS_CMD_ATTR_MAX" ∷ [];
  genl_name = "TASKSTATS";
  genl_version = 1;
}

unfoldable pub interface_v9 : Interface
interface_v9 = record {
  commands =
      "TASKSTATS_CMD_UNSPEC" ∷ "TASKSTATS_CMD_GET" ∷ "TASKSTATS_CMD_NEW" ∷ "__TASKSTATS_CMD_MAX"
      ∷ [];
  types =
      "TASKSTATS_TYPE_UNSPEC" ∷ "TASKSTATS_TYPE_PID" ∷ "TASKSTATS_TYPE_TGID"
      ∷ "TASKSTATS_TYPE_STATS" ∷ "TASKSTATS_TYPE_AGGR_PID" ∷ "TASKSTATS_TYPE_AGGR_TGID"
      ∷ "TASKSTATS_TYPE_NULL" ∷ "__TASKSTATS_TYPE_MAX" ∷ [];
  attrs =
      "TASKSTATS_CMD_ATTR_UNSPEC" ∷ "TASKSTATS_CMD_ATTR_PID" ∷ "TASKSTATS_CMD_ATTR_TGID"
      ∷ "TASKSTATS_CMD_ATTR_REGISTER_CPUMASK" ∷ "TASKSTATS_CMD_ATTR_DEREGISTER_CPUMASK"
      ∷ "__TASKSTATS_CMD_ATTR_MAX" ∷ [];
  genl_name = "TASKSTATS";
  genl_version = 1;
}

unfoldable pub interface_v10 : Interface
interface_v10 = record {
  commands =
      "TASKSTATS_CMD_UNSPEC" ∷ "TASKSTATS_CMD_GET" ∷ "TASKSTATS_CMD_NEW" ∷ "__TASKSTATS_CMD_MAX"
      ∷ [];
  types =
      "TASKSTATS_TYPE_UNSPEC" ∷ "TASKSTATS_TYPE_PID" ∷ "TASKSTATS_TYPE_TGID"
      ∷ "TASKSTATS_TYPE_STATS" ∷ "TASKSTATS_TYPE_AGGR_PID" ∷ "TASKSTATS_TYPE_AGGR_TGID"
      ∷ "TASKSTATS_TYPE_NULL" ∷ "__TASKSTATS_TYPE_MAX" ∷ [];
  attrs =
      "TASKSTATS_CMD_ATTR_UNSPEC" ∷ "TASKSTATS_CMD_ATTR_PID" ∷ "TASKSTATS_CMD_ATTR_TGID"
      ∷ "TASKSTATS_CMD_ATTR_REGISTER_CPUMASK" ∷ "TASKSTATS_CMD_ATTR_DEREGISTER_CPUMASK"
      ∷ "__TASKSTATS_CMD_ATTR_MAX" ∷ [];
  genl_name = "TASKSTATS";
  genl_version = 1;
}

-- The value of an enumerator: each is one more than the one before it.
unfoldable pub enumerator : String → List String → Option ℕ
enumerator name [] = none
enumerator name (other ∷ rest) =
    let later = Option.map suc (enumerator name rest) in if str_eq other name then some 0 else later

-- The constants of the models are those of a header.
pub record HasConstants (i : Interface) : Type 0 where
  pub cmd_get : enumerator "TASKSTATS_CMD_GET" i.commands ≡ some taskstats_cmd_get
  pub type_pid : enumerator "TASKSTATS_TYPE_PID" i.types ≡ some taskstats_type_pid
  pub type_tgid : enumerator "TASKSTATS_TYPE_TGID" i.types ≡ some taskstats_type_tgid
  pub type_stats : enumerator "TASKSTATS_TYPE_STATS" i.types ≡ some taskstats_type_stats
  pub type_aggr_pid : enumerator "TASKSTATS_TYPE_AGGR_PID" i.types ≡ some taskstats_type_aggr_pid
  pub type_aggr_tgid : enumerator "TASKSTATS_TYPE_AGGR_TGID" i.types ≡ some taskstats_type_aggr_tgid
  pub cmd_attr_unspec :
      enumerator "TASKSTATS_CMD_ATTR_UNSPEC" i.attrs ≡ some taskstats_cmd_attr_unspec
  pub cmd_attr_pid : enumerator "TASKSTATS_CMD_ATTR_PID" i.attrs ≡ some taskstats_cmd_attr_pid
  pub cmd_attr_tgid : enumerator "TASKSTATS_CMD_ATTR_TGID" i.attrs ≡ some taskstats_cmd_attr_tgid
  pub cmd_attr_register_cpumask :
      enumerator "TASKSTATS_CMD_ATTR_REGISTER_CPUMASK" i.attrs
      ≡ some taskstats_cmd_attr_register_cpumask
  pub cmd_attr_deregister_cpumask :
      enumerator "TASKSTATS_CMD_ATTR_DEREGISTER_CPUMASK" i.attrs
      ≡ some taskstats_cmd_attr_deregister_cpumask

pub interface_v7-HasConstants : HasConstants interface_v7
unfolding interface_v7 enumerator
interface_v7-HasConstants = record {
  cmd_get = refl;
  type_pid = refl;
  type_tgid = refl;
  type_stats = refl;
  type_aggr_pid = refl;
  type_aggr_tgid = refl;
  cmd_attr_unspec = refl;
  cmd_attr_pid = refl;
  cmd_attr_tgid = refl;
  cmd_attr_register_cpumask = refl;
  cmd_attr_deregister_cpumask = refl;
}

pub interface_v8-HasConstants : HasConstants interface_v8
unfolding interface_v8 enumerator
interface_v8-HasConstants = record {
  cmd_get = refl;
  type_pid = refl;
  type_tgid = refl;
  type_stats = refl;
  type_aggr_pid = refl;
  type_aggr_tgid = refl;
  cmd_attr_unspec = refl;
  cmd_attr_pid = refl;
  cmd_attr_tgid = refl;
  cmd_attr_register_cpumask = refl;
  cmd_attr_deregister_cpumask = refl;
}

pub interface_v9-HasConstants : HasConstants interface_v9
unfolding interface_v9 enumerator
interface_v9-HasConstants = record {
  cmd_get = refl;
  type_pid = refl;
  type_tgid = refl;
  type_stats = refl;
  type_aggr_pid = refl;
  type_aggr_tgid = refl;
  cmd_attr_unspec = refl;
  cmd_attr_pid = refl;
  cmd_attr_tgid = refl;
  cmd_attr_register_cpumask = refl;
  cmd_attr_deregister_cpumask = refl;
}

pub interface_v10-HasConstants : HasConstants interface_v10
unfolding interface_v10 enumerator
interface_v10-HasConstants = record {
  cmd_get = refl;
  type_pid = refl;
  type_tgid = refl;
  type_stats = refl;
  type_aggr_pid = refl;
  type_aggr_tgid = refl;
  cmd_attr_unspec = refl;
  cmd_attr_pid = refl;
  cmd_attr_tgid = refl;
  cmd_attr_register_cpumask = refl;
  cmd_attr_deregister_cpumask = refl;
}
