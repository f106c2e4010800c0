-- ===== src/Vm/Start/Tests.antt =====
-- The theorem on `Vm::start` of src/vm/mod.rs at a concrete virtual machine in the simulated host.
use fctools.Base.{◌≡◌, refl, false, none, some, panic}
use fctools.Text.{txt}
use fctools.Process
use fctools.Process.{awaiting_start}
use fctools.Executor.Unrestricted
use fctools.Arguments.{disabled}
use fctools.Arguments.Build.{new_vmm}
use fctools.Vm.Configuration.{new_vm, via_json_configuration}
use fctools.Vm.Machine.{Vm, ensure_state, not_started}
use fctools.Vm.Start.{start}
use fctools.Vm.Start.Laws.{start-start}
use fctools.Vm.Sample.{S, json, vm, new_configuration}
use fctools.Simulation.{Machine}

-- A prepared virtual machine without an API socket, on which a start fails before anything has run.
abbrev prepared : Vm S × Machine
prepared =
    let (v, m) = vm false in
    (
      record v {
        vmm_process = record v.vmm_process {
          executor = Unrestricted.executor S (λ args. args) (Unrestricted.new (new_vmm disabled));
          child = none;
          state = awaiting_start;
        };
        configuration = some (new_vm (via_json_configuration (txt "/c")) new_configuration);
      },
      m,
    )

abbrev failed : Vm S × Machine
failed = (start S json 3 false prepared).1

start-start_example : (start S json 3 false failed).0 ≡ panic
unfolding ensure_state Process.state start Process.get_socket_path Unrestricted.executor
    Unrestricted.new new_vmm
start-start_example =
    start-start S json 3 false prepared (ensure_state S json not_started prepared).1
      (ensure_state S json not_started failed).1 refl refl
