-- ===== src/Vm/Prepare.antt =====
-- `Vm::prepare_arced` of src/vm/mod.rs: the process is prepared, the configuration gets the mapped
-- paths, and the files that others read are made at their outer paths.
pub mod Made
pub mod Accessible
pub mod Places
pub mod Laws
mod Tests
use fctools.Base.{
  Done, Bool, true, false, Option, none, some, List, [], ◌∷◌, Outcome, ok, err, panic, map_err,
  if◌then◌else◌,
}
use fctools.Base.Action.{Action, pure, raise, ◌>>=◌, ◌>>◌, fail_if, with_err}
use fctools.Text.{Text}
use fctools.FilePath.{FilePath, parent}
use fctools.FilePath.Table.{PathTable}
use fctools.Arguments.{insert}
use fctools.Host.{Host}
use fctools.Host.Calls.{call}
use fctools.ShellSpawner.{ShellSpawner}
use fctools.Executor.{VmmExecutor, VmmInstallation}
use fctools.Models.{Drive, LoggerSystem, MetricsSystem, VsockDevice}
use fctools.Process.{VmmProcess, VmmProcessError, new_arced, inner_to_outer_path}
use fctools.Process
use fctools.Vm.Configuration.{VmConfiguration, VmConfigurationData, data_of}
use fctools.Vm.Machine.{
  Json, Vm, VmError, AccessiblePaths, process_error, io_error, missing_path_mapping,
  disabled_api_socket_is_unsupported,
}
use fctools.Vm.Mappings.{MissingPathMapping, outer_paths_of, map_configuration}

abbrev pub log_path_of : Option LoggerSystem → Option FilePath
log_path_of none = none
log_path_of (some logger) = logger.log_path

abbrev pub metrics_path_of : Option MetricsSystem → Option FilePath
metrics_path_of none = none
metrics_path_of (some metrics) = some metrics.metrics_path

abbrev pub uds_path_of : Option VsockDevice → Option FilePath
uds_path_of none = none
uds_path_of (some vsock) = some vsock.uds_path

abbrev pub no_paths : AccessiblePaths
no_paths = record {
  drive_sockets = [];
  metrics_path = none;
  log_path = none;
  vsock_multiplexer_path = none;
  vsock_listener_paths = [];
}

module _ (H : Host) (J : Json) where
  abbrev pub PrepareAction : Type 0 → Type 0
  PrepareAction A = Action H.World (VmError H J) A

  abbrev create_tree : Option FilePath → PrepareAction Done
  create_tree none = pure tt
  create_tree (some parent_path) = call io_error (H.create_dir_all parent_path)

  abbrev create_unless : Bool → FilePath → PrepareAction Done
  create_unless true path = pure tt
  create_unless false path = call io_error (H.create_file path)

  -- `prepare_file`
  unfoldable pub prepare_file : FilePath → Bool → PrepareAction Done
  unfolding parent
  prepare_file path only_tree = create_tree (parent path) >> create_unless only_tree path

  -- The sockets of the drives, by their ids.
  abbrev pub insert_socket :
      VmmProcess H → Text → Option FilePath → List (Text × FilePath) → List (Text × FilePath)
  insert_socket p drive_id none sockets = sockets
  insert_socket p drive_id (some socket) sockets =
      insert drive_id (inner_to_outer_path H p socket) sockets

  unfoldable pub drive_sockets :
      VmmProcess H → List Drive → List (Text × FilePath) → List (Text × FilePath)
  unfolding inner_to_outer_path
  drive_sockets p [] sockets = sockets
  drive_sockets p (drive ∷ drives) sockets =
      drive_sockets p drives (insert_socket p drive.drive_id drive.socket sockets)

  -- A file of a device, if the device has one, at its outer path.
  unfoldable pub prepare_optional :
      VmmProcess H
      → Option FilePath
      → Bool
      → (FilePath → AccessiblePaths → AccessiblePaths)
      → AccessiblePaths
      → PrepareAction AccessiblePaths
  unfolding prepare_file inner_to_outer_path
  prepare_optional p none only_tree assign paths = pure paths
  prepare_optional p (some inner_path) only_tree assign paths = do
    prepare_file (inner_to_outer_path H p inner_path) only_tree
    pure (assign (inner_to_outer_path H p inner_path) paths)

  -- The log and the metrics file are made twice.
  unfoldable pub make_accessible :
      VmmProcess H → VmConfigurationData → PrepareAction AccessiblePaths
  unfolding drive_sockets prepare_optional
  make_accessible p d = do
    paths ←
        prepare_optional p (log_path_of d.logger_system) false
          (λ path r. record r { log_path = some path })
          (record no_paths { drive_sockets = drive_sockets p d.drives [] })
    paths ←
        prepare_optional p (metrics_path_of d.metrics_system) false
          (λ path r. record r { metrics_path = some path }) paths
    paths ←
        prepare_optional p (uds_path_of d.vsock_device) true
          (λ path r. record r { vsock_multiplexer_path = some path }) paths
    paths ←
        prepare_optional p (log_path_of d.logger_system) false
          (λ path r. record r { log_path = some path }) paths
    prepare_optional p (metrics_path_of d.metrics_system) false
        (λ path r. record r { metrics_path = some path }) paths

  abbrev pub mapped : VmConfiguration → PathTable → PrepareAction VmConfiguration
  mapped configuration path_mappings w =
      (map_err (λ e. missing_path_mapping) (map_configuration configuration path_mappings).0, w)

  abbrev pub is_absent : Option FilePath → Bool
  is_absent none = true
  is_absent (some path) = false

  -- `vmm_process.prepare()`, with the process as it is afterwards.
  abbrev pub with_process :
      Outcome (VmmProcessError H) PathTable
      → VmmProcess H
      → Outcome (VmError H J) (PathTable × VmmProcess H)
  with_process (ok path_mappings) p = ok (path_mappings, p)
  with_process (err e) p = err (process_error e)
  with_process panic p = panic

  abbrev pub prepared_process : VmmProcess H → PrepareAction (PathTable × VmmProcess H)
  prepared_process p w = let (r, s) = Process.prepare H (p, w) in (with_process r s.0, s.1)

  unfoldable pub prepare_arced :
      VmmExecutor H → ShellSpawner H → VmmInstallation → VmConfiguration → PrepareAction (Vm H)
  unfolding new_arced map_configuration make_accessible outer_paths_of data_of
  prepare_arced executor shell_spawner installation configuration = do
    fail_if (is_absent (executor.get_socket_path installation)) disabled_api_socket_is_unsupported
    prepared ←
        prepared_process
          (new_arced H executor shell_spawner installation (outer_paths_of configuration))
    configuration' ← mapped configuration prepared.0
    accessible_paths ← make_accessible prepared.1 (data_of configuration')
    pure (record {
      vmm_process = prepared.1;
      is_paused = false;
      original_configuration_data = data_of configuration;
      configuration = some configuration';
      accessible_paths = accessible_paths;
      executor_traceless = executor.traceless;
      snapshot_traces = [];
    })
