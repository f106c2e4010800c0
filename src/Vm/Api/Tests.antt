-- ===== src/Vm/Api/Tests.antt =====
-- The theorems on src/vm/api.rs at a concrete virtual machine in the simulated host.
use fctools.Base.{◌≡◌, refl, true, false, none, ◌++◌}
use fctools.Text.{txt}
use fctools.Executor.Unrestricted
use fctools.Models.{CreateSnapshot}
use fctools.Process.{VmmProcess, started}
use fctools.Vm.Snapshot.{SnapshotData}
use fctools.Vm.Machine.{Vm, paused}
use fctools.Vm.Api.{init_new, api_create_snapshot}
use fctools.Vm.Api.Laws.{puts_of, put_all, init_new-put_all}
use fctools.Vm.Api.Pausing.{found, Remembers, api_create_snapshot-Remembers}
use fctools.Vm.Sample.{S, json, new_configuration, vm}
use fctools.Simulation.{Machine}

init_new-put_all_example :
    init_new S json new_configuration (vm false)
    ≡ put_all S json (puts_of new_configuration) (vm false)
init_new-put_all_example = init_new-put_all S json new_configuration (vm false)

abbrev create : CreateSnapshot
create = record { snapshot_type = none; snapshot_path = txt "/s"; mem_file_path = txt "/m" }

-- A paused virtual machine whose files lie in a jail.
abbrev jailed_vm : Vm S × Machine
jailed_vm =
    let (v, m) = vm true in
    (
      record v {
        vmm_process = record v.vmm_process {
          executor = record v.vmm_process.executor {
            inner_to_outer_path = λ installation path. txt "/jail" ++ path;
          };
        };
      },
      m,
    )

abbrev made : SnapshotData
made = record {
  snapshot_path = txt "/jail/s";
  mem_file_path = txt "/jail/m";
  configuration_data = new_configuration;
}

api_create_snapshot-Remembers_example :
    (found S json jailed_vm ≡ paused)
    × Remembers S json create jailed_vm.0 made (api_create_snapshot S json create jailed_vm).1.0
unfolding api_create_snapshot fctools.Process.state fctools.Process.Socket.send_api_request
    Unrestricted.executor
api_create_snapshot-Remembers_example =
    api_create_snapshot-Remembers S json create jailed_vm {snapshot = made} refl
