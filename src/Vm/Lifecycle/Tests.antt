-- ===== src/Vm/Lifecycle/Tests.antt =====
-- The theorems on the life of a virtual machine at a concrete one in the simulated host.
use fctools.Base.{some, ◌≡◌, refl, arith, false, none, [], ◌∷◌, List}
use fctools.Process.{exited, awaiting_start, get_socket_path}
use fctools.Process.Invariant.{IsSound}
use fctools.Executor.Unrestricted
use fctools.Arguments.Build.{new_vmm}
use fctools.Vm.Lifecycle.Reports.{Tells, state-Tells}
use fctools.Vm.Machine.{state}
use fctools.Vm.Motion.{VmWorld}
use fctools.Vm.Lifecycle.{ended, prepared, pausing, Course, life, IsSoundVm}
use fctools.Vm.Lifecycle.Runs.{
  VmOperation, pauses, resumes, reads_state, cleans_up, starts, after, after-Refines,
}
use fctools.Vm.Lifecycle.Traces.{after_all, after_all-ended, after_all-prepared, StartsNothing}
use fctools.Vm.Sample.{S, json, vm}

-- A machine that runs, one that has ended, and one that waits for its start.
abbrev running : VmWorld S
running = vm false

abbrev done : VmWorld S
done =
    let (v, w) = vm false in (record v { vmm_process = record v.vmm_process { state = exited } }, w)

abbrev waiting : VmWorld S
waiting =
    let (v, w) = vm false in
    (
      record v {
        vmm_process = record v.vmm_process {
          child = none;
          state = awaiting_start;
          hyper_client = false;
        };
      },
      w,
    )

running-IsSoundVm : IsSoundVm S 0 running.0
unfolding IsSoundVm IsSound get_socket_path Unrestricted.executor Unrestricted.new new_vmm
running-IsSoundVm = (((_, refl, refl), refl, omega arith), λ e. absurd cc)

done-IsSoundVm : IsSoundVm S 0 done.0
unfolding IsSoundVm IsSound get_socket_path Unrestricted.executor Unrestricted.new new_vmm
done-IsSoundVm = (((_, refl, refl), refl, omega arith), λ e. absurd cc)

waiting-IsSoundVm : IsSoundVm S 0 waiting.0
unfolding IsSoundVm IsSound get_socket_path Unrestricted.executor Unrestricted.new new_vmm
waiting-IsSoundVm = (((refl, refl, refl), refl, omega arith), λ e. absurd cc)

after-Refines_example :
    IsSoundVm S 0 (after S json pauses running).0
    × Course pausing (life S running.0) (life S (after S json pauses running).0)
after-Refines_example = after-Refines S json pauses running running-IsSoundVm

abbrev some_calls : List (VmOperation S json)
some_calls = reads_state ∷ cleans_up ∷ pauses ∷ resumes ∷ []

after_all-ended_example : life S (after_all S json (starts 3 false ∷ some_calls) done).0 ≡ ended
unfolding life
after_all-ended_example =
    after_all-ended S json (starts 3 false ∷ some_calls) done done-IsSoundVm refl

some_calls-StartsNothing : StartsNothing S json some_calls
some_calls-StartsNothing = (λ e. cc, (λ e. cc, (λ e. cc, (λ e. cc, tt))))

after_all-prepared_example : life S (after_all S json some_calls waiting).0 ≡ prepared
unfolding life
after_all-prepared_example =
    after_all-prepared S json some_calls waiting some_calls-StartsNothing waiting-IsSoundVm refl

-- The machine that runs, in a world in which its child has crashed.
abbrev crashing : VmWorld S
crashing = let (v, m) = vm false in (v, record m { exit_code = some 9 })

state-Tells_example :
    Tells S json crashing.0.vmm_process.child crashing.0 crashing.1 (state S json crashing)
state-Tells_example = state-Tells S json crashing
