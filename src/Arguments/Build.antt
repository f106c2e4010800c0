-- ===== src/Arguments/Build.antt =====
-- The builder methods of src/executor/arguments.rs: each takes the arguments and returns them with a
-- field set.
use fctools.Base.{ℕ, true, false, none, some, List, [], ◌∷◌}
use fctools.Text.{Text}
use fctools.FilePath.{FilePath}
use fctools.Arguments.{
  VmmApiSocket, VmmLogLevel, VmmArguments, JailerArguments, JailerCgroupVersion, TextTable, insert,
}

module _ (a : VmmArguments) where
  unfoldable pub config_path : FilePath → VmmArguments
  config_path p = record a { config_path = some p }

  unfoldable pub log_level : VmmLogLevel → VmmArguments
  log_level l = record a { log_level = some l }

  unfoldable pub log_path : FilePath → VmmArguments
  log_path p = record a { log_path = some p }

  unfoldable pub show_log_level : VmmArguments
  show_log_level = record a { show_log_level = true }

  unfoldable pub show_log_origin : VmmArguments
  show_log_origin = record a { show_log_origin = true }

  unfoldable pub log_module : Text → VmmArguments
  log_module m = record a { log_module = some m }

  unfoldable pub enable_boot_timer : VmmArguments
  enable_boot_timer = record a { enable_boot_timer = true }

  unfoldable pub api_max_payload_bytes : ℕ → VmmArguments
  api_max_payload_bytes amount = record a { api_max_payload_bytes = some amount }

  unfoldable pub metadata_path : FilePath → VmmArguments
  metadata_path p = record a { metadata_path = some p }

  unfoldable pub metrics_path : FilePath → VmmArguments
  metrics_path p = record a { metrics_path = some p }

  unfoldable pub mmds_size_limit : ℕ → VmmArguments
  mmds_size_limit limit = record a { mmds_size_limit = some limit }

  unfoldable pub disable_seccomp : VmmArguments
  disable_seccomp = record a { disable_seccomp = true }

  unfoldable pub seccomp_path : FilePath → VmmArguments
  seccomp_path p = record a { seccomp_path = some p }

-- `VmmArguments::new`
unfoldable pub new_vmm : VmmApiSocket → VmmArguments
new_vmm api_socket = record {
  api_socket = api_socket;
  config_path = none;
  log_level = none;
  log_path = none;
  show_log_origin = false;
  log_module = none;
  show_log_level = false;
  enable_boot_timer = false;
  api_max_payload_bytes = none;
  metadata_path = none;
  metrics_path = none;
  mmds_size_limit = none;
  disable_seccomp = false;
  seccomp_path = none;
}

-- `JailerArguments::new`
unfoldable pub new_jailer : ℕ → ℕ → Text → JailerArguments
new_jailer uid gid jail_id = record {
  uid = uid;
  gid = gid;
  jail_id = jail_id;
  cgroup_values = [];
  cgroup_version = none;
  chroot_base_dir = none;
  daemonize = false;
  network_namespace_path = none;
  exec_in_new_pid_ns = false;
  parent_cgroup = none;
  resource_limits = [];
}

-- `HashMap::extend`
unfoldable pub extend : List (Text × Text) → TextTable Text → TextTable Text
extend [] m = m
extend ((k, v) ∷ rest) m = extend rest (insert k v m)

module _ (a : JailerArguments) where
  unfoldable pub cgroup : Text → Text → JailerArguments
  cgroup key value = record a { cgroup_values = insert key value a.cgroup_values }

  unfoldable pub cgroups : List (Text × Text) → JailerArguments
  unfolding extend
  cgroups pairs = record a { cgroup_values = extend pairs a.cgroup_values }

  unfoldable pub cgroup_version : JailerCgroupVersion → JailerArguments
  cgroup_version v = record a { cgroup_version = some v }

  unfoldable pub chroot_base_dir : FilePath → JailerArguments
  chroot_base_dir p = record a { chroot_base_dir = some p }

  unfoldable pub daemonize : JailerArguments
  daemonize = record a { daemonize = true }

  unfoldable pub network_namespace_path : FilePath → JailerArguments
  network_namespace_path p = record a { network_namespace_path = some p }

  unfoldable pub exec_in_new_pid_ns : JailerArguments
  exec_in_new_pid_ns = record a { exec_in_new_pid_ns = true }

  unfoldable pub parent_cgroup : Text → JailerArguments
  parent_cgroup c = record a { parent_cgroup = some c }

  unfoldable pub resource_limit : Text → Text → JailerArguments
  resource_limit key value = record a { resource_limits = insert key value a.resource_limits }

  unfoldable pub resource_limits : List (Text × Text) → JailerArguments
  unfolding extend
  resource_limits pairs = record a { resource_limits = extend pairs a.resource_limits }
