-- ===== src/Executor/Unrestricted.antt =====
-- src/executor/unrestricted.rs: the executor that runs the "firecracker" binary directly.
pub mod Laws
pub mod Ids
use fctools.Base.{
  ℕ, Done, Bool, true, false, not, ◌&&◌, ◌||◌, Option, none, some, List, [], ◌∷◌, ◌++◌, ltb, ◌==◌,
  if◌then◌else◌, Outcome, ok, err,
}
use fctools.Base.Action.{Action, pure, raise, ◌>>=◌, ◌>>◌, with_err}
use fctools.Text.{Text, txt, byte_len, is_ascii_alphanumeric}
use fctools.FilePath.{FilePath}
use fctools.FilePath.Table.{PathTable, insert}
use fctools.Arguments.{
  VmmApiSocket, disabled, enabled, VmmArguments, ConfigurationFileOverride, ArgTable, join_vmm,
}
use fctools.CommandModifier.{CommandModifier, apply_command_modifier_chain}
use fctools.Host.{Host, Child}
use fctools.ShellSpawner.{ShellSpawner}
use fctools.Executor.{
  VmmInstallation, VmmExecutorError, expected_resource_missing, shell_spawn_failed, ExecutorAction,
  VmmExecutor, try_exists, remove_file, force_chown, create_file_with_tree,
}

-- A `VmmId` holds a text that `VmmId::new` has accepted.
pub record VmmId : Type 0 where
  pub id : Text

pub data VmmIdParseError : Type 0 where
  too_short too_long contains_invalid_character : VmmIdParseError

-- `id.chars().any(|c| !c.is_ascii_alphanumeric() && c != '-')`
unfoldable pub has_invalid_character : Text → Bool
has_invalid_character [] = false
has_invalid_character (c ∷ s) =
    not (is_ascii_alphanumeric c) && not (c == b'-') || has_invalid_character s

-- `VmmId::new`
unfoldable pub new_id : Text → Outcome VmmIdParseError VmmId
unfolding has_invalid_character
new_id id =
    if ltb (byte_len id) 5
    then err too_short
    else if ltb 60 (byte_len id)
    then err too_long
    else if has_invalid_character id
    then err contains_invalid_character
    else ok (record { id = id })

pub record UnrestrictedVmmExecutor : Type 0 where
  pub vmm_arguments : VmmArguments
  pub command_modifier_chain : List CommandModifier
  pub remove_metrics_on_cleanup : Bool
  pub remove_logs_on_cleanup : Bool
  pub pipes_to_null : Bool
  pub id : Option VmmId

-- `UnrestrictedVmmExecutor::new`
unfoldable pub new : VmmArguments → UnrestrictedVmmExecutor
new vmm_arguments = record {
  vmm_arguments = vmm_arguments;
  command_modifier_chain = [];
  remove_metrics_on_cleanup = false;
  remove_logs_on_cleanup = false;
  pipes_to_null = false;
  id = none;
}

module _ (e : UnrestrictedVmmExecutor) where
  unfoldable pub command_modifier : CommandModifier → UnrestrictedVmmExecutor
  command_modifier m = record e { command_modifier_chain = e.command_modifier_chain ++ (m ∷ []) }

  unfoldable pub command_modifiers : List CommandModifier → UnrestrictedVmmExecutor
  command_modifiers ms = record e { command_modifier_chain = e.command_modifier_chain ++ ms }

  unfoldable pub remove_metrics_on_cleanup : UnrestrictedVmmExecutor
  remove_metrics_on_cleanup = record e { remove_metrics_on_cleanup = true }

  unfoldable pub remove_logs_on_cleanup : UnrestrictedVmmExecutor
  remove_logs_on_cleanup = record e { remove_logs_on_cleanup = true }

  unfoldable pub pipes_to_null : UnrestrictedVmmExecutor
  pipes_to_null = record e { pipes_to_null = true }

  unfoldable pub with_id : VmmId → UnrestrictedVmmExecutor
  with_id id = record e { id = some id }

abbrev socket_of : VmmApiSocket → Option FilePath
socket_of disabled = none
socket_of (enabled path) = some path

abbrev id_argument : Option VmmId → Text
id_argument none = []
id_argument (some id) = txt " --id " ++ id.id

-- `outer_paths.into_iter().map(|path| (path.clone(), path)).collect()`
unfoldable pub identity_table : List FilePath → PathTable → PathTable
identity_table [] m = m
identity_table (path ∷ paths) m = identity_table paths (insert path path m)

module _ (order : ArgTable → ArgTable) (e : UnrestrictedVmmExecutor) where
  -- The command line of `invoke`.
  unfoldable pub shell_command : VmmInstallation → ConfigurationFileOverride → Text
  shell_command installation config_override =
      apply_command_modifier_chain
        (installation.firecracker_path
          ++ (txt " " ++ join_vmm order e.vmm_arguments config_override))
        e.command_modifier_chain
      ++ id_argument e.id

module _ (H : Host) (e : UnrestrictedVmmExecutor) where
  -- The loop over the resources of `prepare`.
  unfoldable pub check_resources : ShellSpawner H → List FilePath → ExecutorAction H Done
  check_resources shell_spawner [] = pure tt
  check_resources shell_spawner (path ∷ paths) = try_exists H path >>= λ exists. elim exists [
    | false ↦ raise (expected_resource_missing path)
    | true ↦ (force_chown H path shell_spawner >> check_resources shell_spawner paths)
  ]

  -- A socket file that is left over is taken over and removed.
  unfoldable pub remove_socket : ShellSpawner H → VmmApiSocket → ExecutorAction H Done
  remove_socket shell_spawner disabled = pure tt
  remove_socket shell_spawner (enabled socket_path) = try_exists H socket_path >>= λ exists.
      elim exists [
        | false ↦ pure tt
        | true ↦ (force_chown H socket_path shell_spawner >> remove_file H socket_path)
      ]

  unfoldable pub create_optional : Option FilePath → ExecutorAction H Done
  create_optional none = pure tt
  create_optional (some path) = create_file_with_tree H path

  unfoldable pub remove_optional : Bool → Option FilePath → ExecutorAction H Done
  remove_optional true (some path) = remove_file H path
  remove_optional true none = pure tt
  remove_optional false path = pure tt

  unfoldable pub prepare : ShellSpawner H → List FilePath → ExecutorAction H PathTable
  unfolding check_resources remove_socket create_optional identity_table
  prepare shell_spawner outer_paths = do
    check_resources shell_spawner outer_paths
    remove_socket shell_spawner e.vmm_arguments.api_socket
    create_optional e.vmm_arguments.log_path
    create_optional e.vmm_arguments.metrics_path
    pure (identity_table outer_paths [])

  unfoldable pub cleanup : ShellSpawner H → ExecutorAction H Done
  unfolding remove_socket remove_optional
  cleanup shell_spawner = do
    remove_socket shell_spawner e.vmm_arguments.api_socket
    remove_optional e.remove_logs_on_cleanup e.vmm_arguments.log_path
    remove_optional e.remove_metrics_on_cleanup e.vmm_arguments.metrics_path

module _ (H : Host) (order : ArgTable → ArgTable) (e : UnrestrictedVmmExecutor) where
  unfoldable pub invoke :
      VmmInstallation
      → ShellSpawner H
      → ConfigurationFileOverride
      → ExecutorAction H (Child H.Handle H.Pipe)
  unfolding shell_command
  invoke installation shell_spawner config_override =
      with_err shell_spawn_failed
        (shell_spawner.spawn (shell_command order e installation config_override) e.pipes_to_null)

  -- `impl VmmExecutor for UnrestrictedVmmExecutor`
  unfoldable pub executor : VmmExecutor H
  unfolding prepare invoke cleanup
  executor = record {
    get_socket_path = λ installation. socket_of e.vmm_arguments.api_socket;
    inner_to_outer_path = λ installation inner_path. inner_path;
    traceless = false;
    prepare = λ installation. prepare H e;
    invoke = invoke;
    cleanup = λ installation. cleanup H e;
  }
