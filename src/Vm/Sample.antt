-- ===== src/Vm/Sample.antt =====
-- A concrete virtual machine, for the runs at concrete inputs.
use fctools.Base.{Bool, true, false, none, some, [], inl, inr}
use fctools.Text.{txt}
use fctools.Host.{Host}
use fctools.Arguments.{enabled}
use fctools.Arguments.Build.{new_vmm}
use fctools.ShellSpawner.{same_user, default_same_user}
use fctools.Executor.Unrestricted
use fctools.Process.{VmmProcess, started}
use fctools.Vm.Configuration.{VmConfigurationData, new_data}
use fctools.Vm.Machine.{Json, Vm}
use fctools.Simulation.{simulation, idle, Machine}

abbrev pub S : Host
S = simulation

abbrev pub json : Json
json = record {
  SerdeError = Unit {0};
  Value = Unit {0};
  Serializable = Unit {0};
  untyped = λ value. value;
  to_string = λ body. inr [];
  value_from_str = λ text. inl tt;
  api_error_from_str = λ text. inl tt;
  info_from_str = λ text. inl tt;
  version_from_str = λ text. inl tt;
  balloon_from_str = λ text. inl tt;
  statistics_from_str = λ text. inl tt;
  machine_from_str = λ text. inl tt;
  effective_from_str = λ text. inl tt;
}

abbrev pub new_configuration : VmConfigurationData
new_configuration =
    new_data (record { kernel_image_path = txt "/k"; boot_args = none; initrd_path = none })
      (record {
        vcpu_count = 1;
        mem_size_mib = 128;
        smt = none;
        track_dirty_pages = none;
        huge_pages = none;
      })

abbrev pub process : VmmProcess S
process = record {
  executor =
      Unrestricted.executor S (λ args. args)
        (Unrestricted.new (new_vmm (enabled (txt "/tmp/sock"))));
  shell_spawner = same_user S default_same_user;
  installation = record {
    firecracker_path = txt "/bin/firecracker";
    jailer_path = txt "/bin/jailer";
    snapshot_editor_path = txt "/bin/editor";
  };
  child = some (record { handle = tt; stdin = none; stdout = none; stderr = none });
  state = started;
  socket_path = some (txt "/tmp/sock");
  hyper_client = true;
  outer_paths = none;
}

abbrev pub vm : Bool → Vm S × Machine
vm is_paused = (
  record {
    vmm_process = process;
    is_paused = is_paused;
    original_configuration_data = new_configuration;
    configuration = none;
    accessible_paths = record {
      drive_sockets = [];
      metrics_path = none;
      log_path = none;
      vsock_multiplexer_path = none;
      vsock_listener_paths = [];
    };
    executor_traceless = false;
    snapshot_traces = [];
  },
  idle,
)
