-- ===== src/Vm/Prepare/Tests.antt =====
-- The theorem on `prepare_arced` of src/vm/mod.rs in the simulated host: a machine with a root drive, the
-- socket of another one, a metrics file and a log file.
use fctools.Base.{refl, true, some, [], ◌∷◌, ◌++◌, false, Outcome, ok, err, panic}
use fctools.Text.{txt}
use fctools.ShellSpawner.{same_user}
use fctools.Executor.{VmmExecutor, force_chown}
use fctools.Executor.Unrestricted
use fctools.Arguments.Build.{new_vmm}
use fctools.Process
use fctools.Models.Drives
use fctools.Models.Logger
use fctools.Models.Devices
use fctools.Vm.Configuration.{
  VmConfiguration, VmConfigurationData, new_vm, via_api_calls, new_data, drive, logger_system,
  metrics_system,
}
use fctools.Vm.Machine.{Vm, VmError}
use fctools.Vm.Mappings.{map_configuration}
use fctools.Vm.Prepare.{prepare_arced, prepare_file, make_accessible}
use fctools.Vm.Prepare.Laws.{IsPrepared, prepare_arced-IsPrepared}
use fctools.Vm.Sample.{S, json, vm, process, new_configuration}
use fctools.Simulation.{Machine, idle, is_there}

abbrev sample : VmConfigurationData
sample =
    let d =
      drive new_configuration (Drives.path_on_host (Drives.new (txt "root") true) (txt "/d")) in
    let d = drive d (Drives.socket (Drives.new (txt "shared") false) (txt "/v")) in
    let d = logger_system d (Logger.log_path Logger.new (txt "/log")) in
    metrics_system d (Devices.new_metrics (txt "/m"))

abbrev configuration : VmConfiguration
configuration = new_vm via_api_calls sample

abbrev world : Machine
world = record idle { files = txt "/k" ∷ txt "/d" ∷ []; exit_code = some 0 }

-- Files inside of its jail lie elsewhere outside.
abbrev executor : VmmExecutor S
executor = record process.executor {
  inner_to_outer_path = λ installation path. txt "/jail" ++ path;
}

abbrev answered : Outcome (VmError S json) (Vm S)
answered =
    (prepare_arced S json executor process.shell_spawner process.installation configuration world).0

abbrev machine_of : Outcome (VmError S json) (Vm S) → Vm S
machine_of (ok v) = v
machine_of (err e) = (vm true).0
machine_of panic = (vm true).0

prepare_arced-IsPrepared_example :
    IsPrepared S json executor process.shell_spawner process.installation configuration world
      (machine_of answered)
unfolding prepare_arced prepare_file make_accessible Process.prepare Process.new_arced
    Unrestricted.executor Unrestricted.new new_vmm force_chown new_data drive logger_system
    metrics_system Drives.new Logger.new Logger.log_path Drives.path_on_host Drives.socket
    Devices.new_metrics map_configuration is_there fctools.FilePath.path_eq
    fctools.FilePath.components fctools.Text.Words.split fctools.Text.text_eq same_user
    fctools.FilePath.Table.remove fctools.FilePath.Table.insert
prepare_arced-IsPrepared_example =
    prepare_arced-IsPrepared S json executor process.shell_spawner process.installation
      configuration world {v = machine_of answered} refl
