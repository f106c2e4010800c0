-- ===== src/Vm/Cleanup/Tests.antt =====
-- The theorem on `Vm::cleanup` of src/vm/mod.rs at a concrete virtual machine in the simulated host.
use fctools.Base.{ℕ, zero, suc, none, ◌≡◌, refl, false, [], ◌∷◌, some, ok}
use fctools.Text.{txt}
use fctools.Process
use fctools.Executor.Unrestricted
use fctools.Vm.Machine.{Vm, ensure_exited_or_crashed}
use fctools.Vm.Cleanup.{cleanup, join_ignored, spawn_removals}
use fctools.Vm.Cleanup.Joining.{Joins, join_ignored-none}
use fctools.Vm.Cleanup.Laws.{HasEnded, removing, cleanup-removes}
use fctools.Vm.Sample.{S, json, vm}
use fctools.Simulation.{Machine, joined}

-- A virtual machine with a log and a snapshot, whose process has exited.
abbrev exited_vm : Vm S × Machine
exited_vm =
    let (v, m) = vm false in
    (
      record v {
        accessible_paths = record v.accessible_paths { log_path = some (txt "/log") };
        snapshot_traces = txt "/s" ∷ txt "/m" ∷ [];
      },
      record m { exit_code = some 0 },
    )

cleanup-removes_example :
    (t : Vm S × Machine) × (ensure_exited_or_crashed S json exited_vm ≡ (ok tt, t))
    × HasEnded S json t.0.vmm_process.state
    × ((cleanup S json exited_vm).1.1
        ≡ join_ignored S (
            removing S
              (txt "/log" ∷ txt "/m" ∷ txt "/s" ∷ [])
              (0, (Process.cleanup S (t.0.vmm_process, t.1)).1.1)))
    × ((cleanup S json exited_vm).1.0.snapshot_traces ≡ [])
unfolding cleanup Process.state Process.cleanup Unrestricted.executor Unrestricted.new
    fctools.Arguments.Build.new_vmm fctools.Simulation.is_there
cleanup-removes_example = cleanup-removes S json exited_vm refl refl

joined-Joins : (n : ℕ) (m : Machine) → Joins S (λ m. m.tasks) n (joined n m)
joined-Joins zero m = refl
joined-Joins (suc n) m = refl

join_ignored-none_example :
    (S.join_next (
      join_ignored S (
        spawn_removals S exited_vm.0.accessible_paths
          (txt "/s" ∷ txt "/m" ∷ [])
          (0, exited_vm.1)))).0
    ≡ none
join_ignored-none_example =
    join_ignored-none S (λ m. m.tasks) (λ task m. refl) (λ m. joined-Joins m.tasks m)
      exited_vm.0.accessible_paths (txt "/s" ∷ txt "/m" ∷ []) exited_vm.1 refl
