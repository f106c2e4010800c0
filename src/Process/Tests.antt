-- ===== src/Process/Tests.antt =====
-- Runs of src/process.rs in the simulated host, and the theorems at concrete processes.
use fctools.Base.{◌≡◌, ◌≢◌, refl, ◌≤◌, ℕ, true, none, some, List, [], ◌∷◌, ok, err, panic, inl, inr}
use fctools.Text.{txt}
use fctools.FilePath.{FilePath}
use fctools.Host.{Request, chunk, trailers, Host}
use fctools.ShellSpawner.{ShellSpawner, same_user, default_same_user}
use fctools.Arguments.{enabled, no_override}
use fctools.Arguments.Build.{new_vmm}
use fctools.Executor.{VmmInstallation, VmmExecutor, expected_resource_missing}
use fctools.Executor.Unrestricted
use fctools.Process.{
  executor_error, VmmProcess, ProcessState, awaiting_prepare, awaiting_start, started, exited,
  new_arced, prepare, take_pipes, send_sigkill, wait_for_exit, update_state, state_eq,
}
use fctools.Process.Socket.{send_api_request, recv_to_buf}
use fctools.Process.Invariant.{IsSound, stage}
use fctools.Process.Steps.{
  after, Reach, created, called, prepares, invokes, waits_for_exit, Reach-IsSound, stage-after,
  child_operations_total, cleans_up,
}
use fctools.Process.Refusals.{permits, Looks, after-refused}
use fctools.Process.Answers.{
  Owned, recv_to_buf_lem, send_api_request-answered, prepare-prepare_failed,
}
use fctools.Simulation.{simulation, idle, Machine}

abbrev S : Host
S = simulation

abbrev shell : ShellSpawner S
shell = same_user S default_same_user

abbrev installed : VmmInstallation
installed = record {
  firecracker_path = txt "/bin/firecracker";
  jailer_path = txt "/bin/jailer";
  snapshot_editor_path = txt "/bin/editor";
}

abbrev plain_executor : VmmExecutor S
plain_executor =
    Unrestricted.executor S (λ args. args) (Unrestricted.new (new_vmm (enabled (txt "/tmp/sock"))))

abbrev fresh : ProcessState S
fresh = (new_arced S plain_executor shell installed [], idle)

abbrev ready : ProcessState S
ready = after S prepares fresh

abbrev running : ProcessState S
running = after S (invokes no_override) ready

running_state : running.0.state ≡ started
unfolding after fctools.Process.invoke prepare new_arced Unrestricted.executor Unrestricted.new
    new_vmm fctools.Simulation.is_there same_user
running_state = refl

fresh-Reach : Reach S plain_executor shell installed [] fresh
fresh-Reach = created idle

running-Reach : Reach S plain_executor shell installed [] running
running-Reach = called (invokes no_override) ready (called prepares fresh fresh-Reach)

Reach-IsSound_example : IsSound S 0 running.0
Reach-IsSound_example = Reach-IsSound S plain_executor shell installed [] running running-Reach

running-IsSound : IsSound S 0 running.0
running-IsSound = Reach-IsSound S plain_executor shell installed [] running running-Reach

stage-after_example : stage S running.0.state ≤ stage S (after S waits_for_exit running).0.state
stage-after_example = stage-after S waits_for_exit running running-IsSound

child_operations_total_example :
    ((take_pipes S running).0 ≢ panic)
    × ((send_sigkill S running).0 ≢ panic)
    × ((wait_for_exit S running).0 ≢ panic)
child_operations_total_example =
    child_operations_total S plain_executor shell installed [] running running-Reach

after-refused_example : Looks S cleans_up running
unfolding permits update_state after fctools.Process.invoke prepare new_arced Unrestricted.executor
    Unrestricted.new new_vmm fctools.Simulation.is_there same_user
after-refused_example = after-refused S cleans_up running refl

abbrev get : Request
get = record { method = txt "GET"; content_type = none; body = [] }

send_api_request-answered_example :
    (socket : FilePath) × (uri : List ℕ) × (w : Machine) × ((update_state S running).0.state
      ≡ started)
    × ((update_state S running).0.socket_path ≡ some socket)
    × (S.unix_uri socket (txt "/") ≡ some uri)
    × Owned S
        (update_state S running).0.hyper_client
        socket
        (update_state S running).0.shell_spawner
        (update_state S running).1
        w
    × (S.request uri get w ≡ (inr 204, (send_api_request S (txt "/") get running).1.1))
    × ((send_api_request S (txt "/") get running).1.0.hyper_client ≡ true)
unfolding send_api_request after fctools.Process.invoke prepare new_arced Unrestricted.executor
    Unrestricted.new new_vmm fctools.Simulation.is_there same_user fctools.Executor.force_chown
send_api_request-answered_example =
    send_api_request-answered S (txt "/") get running {response = 204} refl

recv_to_buf_lem_example :
    (recv_to_buf S (inr (chunk (1 ∷ [])) ∷ inr trailers ∷ inr (chunk (2 ∷ [])) ∷ []) []
      ≡ ok (1 ∷ 2 ∷ []))
    × (recv_to_buf S (inr (chunk (1 ∷ [])) ∷ inr trailers ∷ inr (chunk (2 ∷ [])) ∷ inl tt ∷ []) []
        ≡ err tt)
unfolding mathlib.Core.List.flat_map
recv_to_buf_lem_example =
    recv_to_buf_lem S (chunk (1 ∷ []) ∷ trailers ∷ chunk (2 ∷ []) ∷ []) [] tt []

prepare-prepare_failed_example :
    (prepare S
      (prepare S (new_arced S plain_executor shell installed (txt "/nothing" ∷ []), idle)).1).0
    ≡ panic
unfolding prepare new_arced Unrestricted.executor fctools.Simulation.is_there
prepare-prepare_failed_example =
    prepare-prepare_failed S plain_executor shell installed (txt "/nothing" ∷ []) idle
      {e = executor_error (expected_resource_missing (txt "/nothing"))} refl
