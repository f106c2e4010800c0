-- ===== src/Vsock/Tests.antt =====
-- The theorem on src/ext/http_vsock.rs in the simulated host: a prepared machine with a vsock.
use fctools.Base.{refl, true, some, [], ◌∷◌, Outcome, ok, err, panic, inl, inr, Done}
use fctools.Text.{Text, txt}
use fctools.ShellSpawner.{same_user}
use fctools.Executor.{force_chown}
use fctools.Executor.Unrestricted
use fctools.Arguments.Build.{new_vmm}
use fctools.Process
use fctools.Models.Devices
use fctools.Vm.Configuration.{
  VmConfiguration, new_vm, via_api_calls, new_data, vsock_device, data_of,
}
use fctools.Vm.Machine.{Vm, VmError}
use fctools.Vm.Mappings.{map_configuration}
use fctools.Vm.Prepare.{prepare_arced, prepare_file, make_accessible}
use fctools.Vm.Sample.{S, json, vm, process, new_configuration}
use fctools.Vsock.{Clients, vsock_connect_over_http}
use fctools.Vsock.Laws.{Reaches, vsock_connect_over_http-Reaches}
use fctools.Simulation.{Machine, idle, is_there}

-- Clients that connect and are refused the handshake.
abbrev clients : Clients S
clients = record {
  Stream = Done;
  SendRequest = Done;
  Connection = Done;
  connect = λ path port m. (inr tt, m);
  handshake = λ stream m. (inl tt, m);
  spawn = λ connection m. m;
  UriError = Done;
  PoolError = Done;
  Client = Done;
  build = tt;
  firecracker_uri = λ path port uri. inr uri;
  pool_request = λ client uri request m. (inr 200, m);
  Endpoint = Text;
  Channel = Done;
  TonicError = Done;
  try_from = λ text. inr text;
  connect_with_connector = λ endpoint service m. (inr tt, m);
  connect_with_connector_lazy = λ endpoint service. tt;
}

abbrev configuration : VmConfiguration
configuration =
    new_vm via_api_calls (vsock_device new_configuration (Devices.new_vsock 3 (txt "/v.sock")))

abbrev world : Machine
world = record idle { files = txt "/k" ∷ []; exit_code = some 0 }

abbrev answered : Outcome (VmError S json) (Vm S)
answered =
    (prepare_arced S json process.executor process.shell_spawner process.installation configuration
      world).0

abbrev machine_of : Outcome (VmError S json) (Vm S) → Vm S
machine_of (ok v) = v
machine_of (err e) = (vm true).0
machine_of panic = (vm true).0

vsock_connect_over_http-Reaches_example :
    Reaches S json clients
      (machine_of answered)
      (data_of configuration).vsock_device
      8000
      world
      (vsock_connect_over_http S clients (machine_of answered) 8000 world)
unfolding prepare_arced prepare_file make_accessible Process.prepare Process.new_arced
    Unrestricted.executor Unrestricted.new new_vmm force_chown new_data vsock_device
    Devices.new_vsock map_configuration is_there fctools.FilePath.path_eq
    fctools.FilePath.components fctools.Text.Words.split fctools.Text.text_eq same_user
    fctools.FilePath.Table.remove fctools.FilePath.Table.insert
vsock_connect_over_http-Reaches_example =
    vsock_connect_over_http-Reaches S json clients process.executor process.shell_spawner
      process.installation configuration world {v = machine_of answered} refl 8000 world
