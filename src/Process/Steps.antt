-- ===== src/Process/Steps.antt =====
-- Runs of src/process.rs: any sequence of calls on a new process.
use fctools.Base.{ℕ, arith, ◌≤◌, ◌≢◌, refl, panic, List}
use fctools.Text.{Text}
use fctools.FilePath.{FilePath}
use fctools.Arguments.{ConfigurationFileOverride}
use fctools.Host.{Host, Request}
use fctools.ShellSpawner.{ShellSpawner}
use fctools.Executor.{VmmExecutor, VmmInstallation}
use fctools.Process.{
  VmmProcess, ProcessState, state, prepare, invoke, take_pipes, send_sigkill, wait_for_exit,
  cleanup, new_arced, get_socket_path,
}
use fctools.Process.Socket.{send_api_request, send_ctrl_alt_del}
use fctools.Process.Invariant.{stage, IsSound, Hoare-Keeps, update_state-IsSound}
use fctools.Process.Operations.{prepare_triple, invoke_triple}
use fctools.Process.Requests.{send_api_request_triple, send_ctrl_alt_del_triple, cleanup_triple}
use fctools.Process.Children.{
  Never, take_pipes_triple, send_sigkill_triple, wait_for_exit_triple, child_operations_ne,
}

pub data Operation : Type 0 where
  prepares takes_pipes sends_ctrl_alt_del sends_sigkill waits_for_exit reads_state cleans_up :
      Operation
  invokes : ConfigurationFileOverride → Operation
  sends_api_request : Text → Request → Operation

module _ (H : Host) where
  -- The state that a call leaves, whatever it answers.
  unfoldable pub after : Operation → ProcessState H → ProcessState H
  after prepares s = (prepare H s).1
  after takes_pipes s = (take_pipes H s).1
  after sends_ctrl_alt_del s = (send_ctrl_alt_del H s).1
  after sends_sigkill s = (send_sigkill H s).1
  after waits_for_exit s = (wait_for_exit H s).1
  after reads_state s = (state H s).1
  after cleans_up s = (cleanup H s).1
  after (invokes config_override) s = (invoke H config_override s).1
  after (sends_api_request route request) s = (send_api_request H route request s).1

  -- The states that a new process can come to. Between two calls the world may change by itself.
  pub data Reach (executor : VmmExecutor H) (spawner : ShellSpawner H)
      (installation : VmmInstallation) (paths : List FilePath) : ProcessState H → Type 0 where
    created :
        (w : H.World)
        → Reach executor spawner installation paths
            (new_arced H executor spawner installation paths, w)
    called :
        (operation : Operation) (s : ProcessState H)
        → Reach executor spawner installation paths s
        → Reach executor spawner installation paths (after operation s)
    passed :
        (p : VmmProcess H) (w w' : H.World)
        → Reach executor spawner installation paths (p, w)
        → Reach executor spawner installation paths (p, w')

  module _ (n : ℕ) where
    no_panic : (s : ProcessState H) → Never H n s → IsSound H n s.0
    no_panic s h = absurd h

    after-Keeps :
        (operation : Operation) (s : ProcessState H)
        → IsSound H n s.0
        → IsSound H n (after operation s).0
    unfolding after state
    after-Keeps prepares = Hoare-Keeps H n _ (prepare H) (prepare_triple H n) (λ s h. h)
    after-Keeps takes_pipes = Hoare-Keeps H n _ (take_pipes H) (take_pipes_triple H n) no_panic
    after-Keeps sends_ctrl_alt_del =
        Hoare-Keeps H n _ (send_ctrl_alt_del H) (send_ctrl_alt_del_triple H n) (λ s h. h)
    after-Keeps sends_sigkill =
        Hoare-Keeps H n _ (send_sigkill H) (send_sigkill_triple H n) no_panic
    after-Keeps waits_for_exit =
        Hoare-Keeps H n _ (wait_for_exit H) (wait_for_exit_triple H n) no_panic
    after-Keeps reads_state = update_state-IsSound H n
    after-Keeps cleans_up = Hoare-Keeps H n _ (cleanup H) (cleanup_triple H n) (λ s h. h)
    after-Keeps (invokes c) = Hoare-Keeps H n _ (invoke H c) (invoke_triple H n c) (λ s h. h)
    after-Keeps (sends_api_request route request) =
        Hoare-Keeps H n _ (send_api_request H route request)
          (send_api_request_triple H n route request) (λ s h. h)

  -- No call brings a sound process back to an earlier stage: preparation, start, run and end follow
  -- each other in this order.
  pub stage-after :
      (operation : Operation) (s : ProcessState H)
      → IsSound H 0 s.0
      → stage H s.0.state ≤ stage H (after operation s).0.state
  unfolding IsSound
  stage-after operation s (phase, path, low) =
      (after-Keeps (stage H s.0.state) operation s (phase, path, omega arith)).2

  module _ (executor : VmmExecutor H) (spawner : ShellSpawner H) (installation : VmmInstallation)
      (paths : List FilePath) where
    -- In every state that a new process can come to, by any calls in any order, it holds a child
    -- exactly when it has been started, no HTTP client before that, and no resources once it has been
    -- prepared.
    pub Reach-IsSound :
        (s : ProcessState H) → Reach executor spawner installation paths s → IsSound H 0 s.0
    unfolding IsSound new_arced get_socket_path
    Reach-IsSound _ (created w) = ((refl, refl), refl, omega arith)
    Reach-IsSound _ (called operation s r) = after-Keeps 0 operation s (Reach-IsSound s r)
    Reach-IsSound _ (passed p w w' r) = Reach-IsSound (p, w) r

    -- Whatever calls have been made on a new process, `take_pipes`, `send_sigkill` and
    -- `wait_for_exit` do not panic: their "No child while running" is unreachable.
    pub child_operations_total :
        (s : ProcessState H)
        → Reach executor spawner installation paths s
        → ((take_pipes H s).0 ≢ panic)
          × ((send_sigkill H s).0 ≢ panic)
          × ((wait_for_exit H s).0 ≢ panic)
    child_operations_total s r = child_operations_ne H 0 s (Reach-IsSound s r)
