-- ===== src/Process.antt =====
-- src/process.rs: the process of the virtual machine monitor, which an executor prepares, invokes and
-- cleans up.
pub mod Fixed
pub mod Socket
pub mod Invariant
pub mod Drift
pub mod Started
pub mod Operations
pub mod Children
pub mod Requests
pub mod Steps
pub mod Refusals
pub mod Answers
pub mod Killing
mod Tests
use fctools.Base.{
  ℕ, Done, Bool, true, false, not, ◌&&◌, Option, none, some, List, [], ◌∷◌, ◌++◌, ltb, leb, ◌==◌,
  Outcome, ok, err, panic, map_err, ok_or, inl, inr, ◌⊎◌,
}
use fctools.Base.Action.{
  Action, pure, raise, abort, gets, modify, of_outcome, ◌>>=◌, ◌>>◌, with_err, fail_if,
}
use fctools.Text.{Text, txt}
use fctools.FilePath.{FilePath}
use fctools.FilePath.Table.{PathTable}
use fctools.Arguments.{ConfigurationFileOverride}
use fctools.Host.{Host, Child, Request, Frame, chunk, trailers}
use fctools.Host.Calls.{call, answer}
use fctools.ShellSpawner.{ShellSpawner}
use fctools.Executor.{VmmInstallation, VmmExecutorError, VmmExecutor, force_chown}

pub data VmmProcessState (H : Host) : Type 0 where
  awaiting_prepare awaiting_start started exited : VmmProcessState H
  crashed : H.ExitStatus → VmmProcessState H

pub data VmmProcessError (H : Host) : Type 0 where
  expected_state : VmmProcessState H → VmmProcessState H → VmmProcessError H
  expected_exited_or_crashed : VmmProcessState H → VmmProcessError H
  socket_was_disabled incorrect_socket_uri pipes_nulled_or_already_taken : VmmProcessError H
  hyper_client_failed : H.HyperError → VmmProcessError H
  sigkill_failed wait_failed : H.IoError → VmmProcessError H
  ctrl_alt_del_request_not_built : H.HttpError → VmmProcessError H
  ctrl_alt_del_request_failed : ℕ → VmmProcessError H
  executor_error : VmmExecutorError H → VmmProcessError H

-- Of the HTTP client only whether it is there: the pool behind it is the host's.
pub record VmmProcess (H : Host) : Type 0 where
  pub executor : VmmExecutor H
  pub shell_spawner : ShellSpawner H
  pub installation : VmmInstallation
  pub child : Option (Child H.Handle H.Pipe)
  pub state : VmmProcessState H
  pub socket_path : Option FilePath
  pub hyper_client : Bool
  pub outer_paths : Option (List FilePath)

pub record VmmProcessPipes (Pipe : Type 0) : Type 0 where
  pub stdin : Pipe
  pub stdout : Pipe
  pub stderr : Pipe

module _ (H : Host) where
  abbrev pub ProcessState : Type 0
  ProcessState = VmmProcess H × H.World

  abbrev pub ProcessAction : Type 0 → Type 0
  ProcessAction A = Action ProcessState (VmmProcessError H) A

  -- A call, chosen by the process, that changes the world and not the process.
  abbrev pub outside :
      {E A : Type 0}
      → (E → VmmProcessError H)
      → (VmmProcess H → Action H.World E A)
      → ProcessAction A
  outside f m (p, w) = let (r, w') = m p w in (map_err f r, (p, w'))

  abbrev pub executor_call :
      {A : Type 0} → (VmmProcess H → Action H.World (VmmExecutorError H) A) → ProcessAction A
  executor_call = outside executor_error

  abbrev pub update_process : (VmmProcess H → VmmProcess H) → ProcessAction Done
  update_process f (p, w) = (ok tt, (f p, w))

  -- `VmmProcess::new_arced`
  unfoldable pub new_arced :
      VmmExecutor H → ShellSpawner H → VmmInstallation → List FilePath → VmmProcess H
  new_arced executor shell_spawner installation outer_paths = record {
    executor = executor;
    shell_spawner = shell_spawner;
    installation = installation;
    child = none;
    state = awaiting_prepare;
    socket_path = executor.get_socket_path installation;
    hyper_client = false;
    outer_paths = some outer_paths;
  }

  -- `PartialEq` of the states; of exit statuses, that of their raw form.
  unfoldable pub state_eq : VmmProcessState H → VmmProcessState H → Bool
  state_eq awaiting_prepare awaiting_prepare = true
  state_eq awaiting_start awaiting_start = true
  state_eq started started = true
  state_eq exited exited = true
  state_eq (crashed s) (crashed t) = H.into_raw s == H.into_raw t
  state_eq _ _ = false

  -- The state after an exit, by its success.
  abbrev pub exit_state : Bool → H.ExitStatus → VmmProcessState H
  exit_state true exit_status = exited
  exit_state false exit_status = crashed exit_status

  abbrev pub observed : VmmProcessState H → H.IoError ⊎ Option H.ExitStatus → VmmProcessState H
  observed state (inr (some exit_status)) = exit_state (H.success exit_status) exit_status
  observed state (inr none) = state
  observed state (inl failed) = state

  abbrev pub poll : Option (Child H.Handle H.Pipe) → ProcessState → ProcessState
  poll none s = s
  poll (some child) (p, w) =
      let (answer, w') = H.try_wait child.handle w in
      (record p { state = observed p.state answer }, w')

  unfoldable pub update_state : ProcessState → ProcessState
  update_state s = poll s.0.child s

  unfoldable pub state : ProcessAction (VmmProcessState H)
  unfolding update_state
  state s = let s' = update_state s in (ok s'.0.state, s')

  unfoldable pub ensure_state : VmmProcessState H → ProcessAction Done
  unfolding state state_eq
  ensure_state expected = do
    actual ← state
    fail_if (not (state_eq actual expected)) (expected_state expected actual)

  abbrev pub check_exited_or_crashed : VmmProcessState H → ProcessAction Done
  check_exited_or_crashed (crashed exit_status) = pure tt
  check_exited_or_crashed exited = pure tt
  check_exited_or_crashed actual = raise (expected_exited_or_crashed actual)

  unfoldable pub ensure_exited_or_crashed : ProcessAction Done
  unfolding state
  ensure_exited_or_crashed = state >>= check_exited_or_crashed

  abbrev pub take_from : Option (List FilePath) → ProcessAction (List FilePath)
  take_from none (p, w) = (panic, (p, w))
  take_from (some paths) (p, w) = (ok paths, (record p { outer_paths = none }, w))

  -- `self.outer_paths.take().expect(...)`
  unfoldable pub take_outer_paths : ProcessAction (List FilePath)
  take_outer_paths s = take_from s.0.outer_paths s

  unfoldable pub prepare : ProcessAction PathTable
  unfolding ensure_state take_outer_paths
  prepare = do
    ensure_state awaiting_prepare
    outer_paths ← take_outer_paths
    path_mappings ←
        executor_call (λ p. p.executor.prepare p.installation p.shell_spawner outer_paths)
    update_process (λ p. record p { state = awaiting_start })
    pure path_mappings

  unfoldable pub invoke : ConfigurationFileOverride → ProcessAction Done
  unfolding ensure_state
  invoke config_override = do
    ensure_state awaiting_start
    child ← executor_call (λ p. p.executor.invoke p.installation p.shell_spawner config_override)
    update_process (λ p. record p { child = some child; state = started })

  abbrev pub expect_child : Option (Child H.Handle H.Pipe) → ProcessAction (Child H.Handle H.Pipe)
  expect_child none s = (panic, s)
  expect_child (some child) s = (ok child, s)

  -- `self.child.as_mut().expect("No child while running")`
  unfoldable pub child_ref : ProcessAction (Child H.Handle H.Pipe)
  child_ref s = expect_child s.0.child s

  abbrev pub set_child : Child H.Handle H.Pipe → ProcessAction Done
  set_child child = update_process (λ p. record p { child = some child })

  -- A pipe of the child is taken out, and is missing from then on.
  abbrev pub pipe_or_error : Option H.Pipe → ProcessAction H.Pipe
  pipe_or_error pipe = of_outcome (ok_or pipe pipes_nulled_or_already_taken)

  unfoldable pub take_pipes : ProcessAction (VmmProcessPipes H.Pipe)
  unfolding ensure_state child_ref
  take_pipes = do
    ensure_state started
    child ← child_ref
    set_child (record child { stdin = none })
    stdin ← pipe_or_error child.stdin
    set_child (record child { stdin = none; stdout = none })
    stdout ← pipe_or_error child.stdout
    set_child (record child { stdin = none; stdout = none; stderr = none })
    stderr ← pipe_or_error child.stderr
    pure (record { stdin = stdin; stdout = stdout; stderr = stderr })

  unfoldable pub get_socket_path : VmmProcess H → Option FilePath
  get_socket_path p = p.executor.get_socket_path p.installation

  unfoldable pub inner_to_outer_path : VmmProcess H → FilePath → FilePath
  inner_to_outer_path p inner_path = p.executor.inner_to_outer_path p.installation inner_path

  unfoldable pub send_sigkill : ProcessAction Done
  unfolding ensure_state child_ref
  send_sigkill = do
    ensure_state started
    child ← child_ref
    outside sigkill_failed (λ p. call (λ e. e) (H.start_kill child.handle))

  -- `Child::wait` closes the standard input first.
  unfoldable pub wait_for_exit : ProcessAction H.ExitStatus
  unfolding ensure_state child_ref
  wait_for_exit = do
    ensure_state started
    child ← child_ref
    set_child (record child { stdin = none })
    outside wait_failed (λ p. call (λ e. e) (H.wait child.handle))

  -- A wait that is given up before the child ends has checked the state and closed the input.
  unfoldable pub begin_wait : ProcessAction Done
  unfolding ensure_state child_ref
  begin_wait = do ensure_state started; child ← child_ref; set_child (record child { stdin = none })

  unfoldable pub cleanup : ProcessAction Done
  unfolding ensure_exited_or_crashed
  cleanup = do
    ensure_exited_or_crashed
    executor_call (λ p. p.executor.cleanup p.installation p.shell_spawner)
