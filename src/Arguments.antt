-- ===== src/Arguments.antt =====
-- src/executor/arguments.rs: the command-line arguments of `firecracker` and `jailer`. The order in
-- which a `HashMap` is iterated is a parameter of `join`.
mod Tables
pub mod Printing
pub mod Build
pub mod Lookup
pub mod Order
pub mod Reading
mod Tests
unfoldable pub use Tables.*
use fctools.Base.{
  ℕ, Bool, true, false, not, Option, none, some, List, [], ◌∷◌, ◌++◌, map, if◌then◌else◌,
}
use fctools.Text.{Text, txt, space, is_empty}
use fctools.Text.Words.{join}
use fctools.FilePath.{FilePath}
use Printing.{decimal}

-- `VmmApiSocket`
pub data VmmApiSocket : Type 0 where
  disabled : VmmApiSocket
  enabled : FilePath → VmmApiSocket

-- `VmmLogLevel`
pub data VmmLogLevel : Type 0 where
  off trace debug info warn error : VmmLogLevel

unfoldable pub log_level_to_string : VmmLogLevel → Text
log_level_to_string off = txt "Off"
log_level_to_string trace = txt "Trace"
log_level_to_string debug = txt "Debug"
log_level_to_string info = txt "Info"
log_level_to_string warn = txt "Warn"
log_level_to_string error = txt "Error"

pub record VmmArguments : Type 0 where
  pub api_socket : VmmApiSocket
  pub config_path : Option FilePath
  pub log_level : Option VmmLogLevel
  pub log_path : Option FilePath
  pub show_log_origin : Bool
  pub log_module : Option Text
  pub show_log_level : Bool
  pub enable_boot_timer : Bool
  pub api_max_payload_bytes : Option ℕ
  pub metadata_path : Option FilePath
  pub metrics_path : Option FilePath
  pub mmds_size_limit : Option ℕ
  pub disable_seccomp : Bool
  pub seccomp_path : Option FilePath

-- `ConfigurationFileOverride`
pub data ConfigurationFileOverride : Type 0 where
  no_override disable : ConfigurationFileOverride
  enable : FilePath → ConfigurationFileOverride

pub data JailerCgroupVersion : Type 0 where
  v1 v2 : JailerCgroupVersion

-- The two maps are lists of pairs, in the order of their iteration.
pub record JailerArguments : Type 0 where
  pub uid : ℕ
  pub gid : ℕ
  pub jail_id : Text
  pub cgroup_values : TextTable Text
  pub cgroup_version : Option JailerCgroupVersion
  pub chroot_base_dir : Option FilePath
  pub daemonize : Bool
  pub network_namespace_path : Option FilePath
  pub exec_in_new_pid_ns : Bool
  pub parent_cgroup : Option Text
  pub resource_limits : TextTable Text

-- `ArgValue`
pub data ArgValue : Type 0 where
  no_value : ArgValue
  some_borrowed some_value : Text → ArgValue
  many : List Text → ArgValue

abbrev pub ArgTable : Type 0
ArgTable = TextTable ArgValue

-- The two shapes of `if` around an insertion.
abbrev pub insert_when : Bool → Text → ArgTable → ArgTable
insert_when on key args = if on then insert key no_value args else args

abbrev pub insert_some : {A : Type 0} → Option A → Text → (A → ArgValue) → ArgTable → ArgTable
insert_some none key f args = args
insert_some (some a) key f args = insert key (f a) args

abbrev insert_api : VmmApiSocket → ArgTable → ArgTable
insert_api disabled args = insert (txt "no-api") no_value args
insert_api (enabled socket_path) args = insert (txt "api-sock") (some_value socket_path) args

abbrev insert_config : ConfigurationFileOverride → Option FilePath → ArgTable → ArgTable
insert_config no_override config_path args =
    insert_some config_path (txt "config-file") some_value args
insert_config disable config_path args = args
insert_config (enable path) config_path args = insert (txt "config-file") (some_value path) args

-- The map that `VmmArguments::join` builds, insertion by insertion.
unfoldable pub vmm_args : VmmArguments → ConfigurationFileOverride → ArgTable
unfolding log_level_to_string
vmm_args a config_override =
    let args = insert_api a.api_socket [] in
    let args = insert_config config_override a.config_path args in
    let args =
      insert_some a.log_level (txt "level") (λ l. some_value (log_level_to_string l)) args in
    let args = insert_some a.log_path (txt "log-path") some_value args in
    let args = insert_when a.show_log_origin (txt "show-log-origin") args in
    let args = insert_some a.log_module (txt "module") some_borrowed args in
    let args = insert_when a.show_log_level (txt "show-level") args in
    let args = insert_when a.enable_boot_timer (txt "boot-timer") args in
    let args =
      insert_some a.api_max_payload_bytes (txt "http-api-max-payload-size")
        (λ n. some_value (decimal n)) args in
    let args = insert_some a.metadata_path (txt "metadata") some_value args in
    let args = insert_some a.metrics_path (txt "metrics-path") some_value args in
    let args =
      insert_some a.mmds_size_limit (txt "mmds-size-limit") (λ n. some_value (decimal n)) args in
    let args = insert_when a.disable_seccomp (txt "no-seccomp") args in
    insert_some a.seccomp_path (txt "seccomp-filter") some_value args

-- `format!("{k}={v}")` over a map.
abbrev assignments : TextTable Text → List Text
assignments [] = []
assignments ((k, v) ∷ rest) = (k ++ (txt "=" ++ v)) ∷ assignments rest

abbrev insert_many : TextTable Text → Text → ArgTable → ArgTable
insert_many [] key args = args
insert_many (pair ∷ values) key args = insert key (many (assignments (pair ∷ values))) args

abbrev cgroup_version_text : JailerCgroupVersion → Text
cgroup_version_text v1 = txt "1"
cgroup_version_text v2 = txt "2"

-- The map that `JailerArguments::join` builds.
unfoldable pub jailer_args : JailerArguments → FilePath → ArgTable
jailer_args a firecracker_binary_path =
    let args = insert (txt "exec-file") (some_value firecracker_binary_path) [] in
    let args = insert (txt "uid") (some_value (decimal a.uid)) args in
    let args = insert (txt "gid") (some_value (decimal a.gid)) args in
    let args = insert (txt "id") (some_value a.jail_id) args in
    let args = insert_many a.cgroup_values (txt "cgroup") args in
    let args =
      insert_some a.cgroup_version (txt "cgroup-version") (λ v. some_value (cgroup_version_text v))
        args in
    let args = insert_some a.chroot_base_dir (txt "chroot-base-dir") some_value args in
    let args = insert_when a.daemonize (txt "daemonize") args in
    let args = insert_some a.network_namespace_path (txt "netns") some_value args in
    let args = insert_when a.exec_in_new_pid_ns (txt "new-pid-ns") args in
    let args = insert_some a.parent_cgroup (txt "parent-cgroup") some_borrowed args in
    insert_many a.resource_limits (txt "resource-limit") args

-- The text of one entry.
unfoldable pub render : Text × ArgValue → Text
render (key, no_value) = txt "--" ++ key
render (key, some_value value) = txt "--" ++ (key ++ (txt " " ++ value))
render (key, some_borrowed value) = txt "--" ++ (key ++ (txt " " ++ value))
render (key, many values) =
    join space (map (λ value. txt "--" ++ (key ++ (txt " " ++ value))) values)

-- `String::pop`
unfoldable pub pop : Text → Text
pop [] = []
pop (c ∷ []) = []
pop (c ∷ d ∷ s) = c ∷ pop (d ∷ s)

-- The loop of `join_args`.
unfoldable pub push_args : Text → ArgTable → Text
unfolding render
push_args output_str [] = output_str
push_args output_str (entry ∷ args) = push_args ((output_str ++ render entry) ++ (space ∷ [])) args

unfoldable pub join_args : ArgTable → Text
unfolding push_args pop
join_args args = pop (push_args [] args)

module _ (order : ArgTable → ArgTable) where
  -- `VmmArguments::join`
  unfoldable pub join_vmm : VmmArguments → ConfigurationFileOverride → Text
  unfolding vmm_args join_args
  join_vmm a config_override = join_args (order (vmm_args a config_override))

  -- `JailerArguments::join`
  unfoldable pub join_jailer : JailerArguments → FilePath → Text
  unfolding jailer_args join_args
  join_jailer a firecracker_binary_path = join_args (order (jailer_args a firecracker_binary_path))
