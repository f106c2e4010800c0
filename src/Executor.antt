-- ===== src/Executor.antt =====
-- src/executor/mod.rs: the interface of the executors and what they share.
pub mod Laws
pub mod Unrestricted
pub mod Jailed
pub mod Installation
mod Tests
use fctools.Base.{Done, Bool, true, false, not, ◌&&◌, Option, none, some, List, [], ◌∷◌, ◌++◌, ◌==◌}
use fctools.Base.Action.{Action, pure, raise, ◌>>=◌, ◌>>◌, fail_if, with_err}
use fctools.Text.{Text, txt}
use fctools.FilePath.{FilePath, parent}
use fctools.FilePath.Table.{PathTable}
use fctools.Arguments.{ConfigurationFileOverride}
use fctools.Arguments.Printing.{decimal}
use fctools.Host.{Host, Child}
use fctools.Host.Calls.{call}
use fctools.ShellSpawner.{ShellSpawner}

-- `VmmInstallation` of src/executor/installation.rs.
pub record VmmInstallation : Type 0 where
  pub firecracker_path : FilePath
  pub jailer_path : FilePath
  pub snapshot_editor_path : FilePath

-- Of src/executor/jailed.rs. `Other` is for renamers that the library does not have.
pub data JailRenamerError : Type 0 where
  path_has_no_filename other_renamer_error : JailRenamerError
  path_is_unmapped : FilePath → JailRenamerError

pub data VmmExecutorError (H : Host) : Type 0 where
  io_error shell_fork_failed shell_spawn_failed : H.IoError → VmmExecutorError H
  chown_exited_with_wrong_status mkdir_exited_with_wrong_status : H.ExitStatus → VmmExecutorError H
  task_join_failed : H.JoinError → VmmExecutorError H
  expected_resource_missing : FilePath → VmmExecutorError H
  expected_directory_parent_missing installation_has_no_filename other_executor_error :
      VmmExecutorError H
  jail_renamer_failed : JailRenamerError → VmmExecutorError H

abbrev pub ExecutorAction : Host → Type 0 → Type 0
ExecutorAction H A = Action H.World (VmmExecutorError H) A

-- The trait `VmmExecutor`.
pub record VmmExecutor (H : Host) : Type 0 where
  pub get_socket_path : VmmInstallation → Option FilePath
  pub inner_to_outer_path : VmmInstallation → FilePath → FilePath
  pub traceless : Bool
  pub prepare : VmmInstallation → ShellSpawner H → List FilePath → ExecutorAction H PathTable
  pub invoke :
      VmmInstallation
      → ShellSpawner H
      → ConfigurationFileOverride
      → ExecutorAction H (Child H.Handle H.Pipe)
  pub cleanup : VmmInstallation → ShellSpawner H → ExecutorAction H Done

module _ (H : Host) where
  -- `tokio::fs::try_exists(path).await.map_err(IoError)?`, and so on.
  abbrev pub try_exists : FilePath → ExecutorAction H Bool
  try_exists path = call io_error (H.try_exists path)

  abbrev pub create_dir_all : FilePath → ExecutorAction H Done
  create_dir_all path = call io_error (H.create_dir_all path)

  abbrev pub remove_file : FilePath → ExecutorAction H Done
  remove_file path = call io_error (H.remove_file path)

  -- Spawns the command with its pipes to null and waits for its exit.
  unfoldable pub fork : ShellSpawner H → Text → ExecutorAction H H.ExitStatus
  fork shell_spawner command = do
    child ← with_err shell_spawn_failed (shell_spawner.spawn command true)
    call shell_fork_failed (H.wait child.handle)

  unfoldable pub chown_command : FilePath → Text
  chown_command path =
      txt "chown -f -R "
      ++ (decimal H.geteuid ++ (txt ":" ++ (decimal H.getegid ++ (txt " " ++ path))))

  -- The raw status 256 stands for a concurrent chown and is let pass.
  unfoldable pub chown_failed : H.ExitStatus → Bool
  chown_failed exit_status = not (H.success exit_status) && not (H.into_raw exit_status == 256)

  unfoldable pub force_chown : FilePath → ShellSpawner H → ExecutorAction H Done
  unfolding fork chown_command chown_failed
  force_chown path shell_spawner = elim shell_spawner.increases_privileges [
    | false ↦ pure tt
    | true ↦
        (fork shell_spawner (chown_command path) >>= λ exit_status.
        fail_if (chown_failed exit_status) (chown_exited_with_wrong_status exit_status))
  ]

  unfoldable pub force_mkdir : FilePath → ShellSpawner H → ExecutorAction H Done
  unfolding fork
  force_mkdir path shell_spawner = elim shell_spawner.increases_privileges [
    | false ↦ create_dir_all path
    | true ↦
        (fork shell_spawner (txt "mkdir -p " ++ path) >>= λ exit_status.
        fail_if (not (H.success exit_status)) (mkdir_exited_with_wrong_status exit_status))
  ]

  unfoldable pub create_parent : Option FilePath → ExecutorAction H Done
  create_parent none = pure tt
  create_parent (some parent_path) = create_dir_all parent_path

  unfoldable pub create_file_with_tree : FilePath → ExecutorAction H Done
  unfolding create_parent
  create_file_with_tree path = do create_parent (parent path); call io_error (H.create_file path)
