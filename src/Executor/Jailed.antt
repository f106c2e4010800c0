-- ===== src/Executor/Jailed.antt =====
-- src/executor/jailed.rs: the executor that runs "firecracker" in a chroot through "jailer".
pub mod Renamers
pub mod Laws
pub mod Outer
use fctools.Base.{
  ℕ, zero, suc, Done, Bool, true, false, not, Option, none, some, List, [], ◌∷◌, ◌++◌, length, inl,
  inr, ◌⊎◌, Outcome, ok, err,
}
use fctools.Base.Action.{Action, pure, raise, ◌>>=◌, ◌>>◌, with_err, of_outcome}
use fctools.Text.{Text, txt}
use fctools.FilePath.{FilePath, file_name, parent, join_path, jail_join}
use fctools.FilePath.Table.{PathTable, insert}
use fctools.Arguments.{
  VmmApiSocket, disabled, enabled, VmmArguments, JailerArguments, ConfigurationFileOverride,
  ArgTable, join_vmm, join_jailer,
}
use fctools.CommandModifier.{CommandModifier, apply_command_modifier_chain}
use fctools.Host.{Host, Child}
use fctools.Host.Calls.{Call, call}
use fctools.ShellSpawner.{ShellSpawner}
use fctools.Executor.{
  VmmInstallation, VmmExecutorError, io_error, task_join_failed, expected_resource_missing,
  expected_directory_parent_missing, jail_renamer_failed, shell_spawn_failed, ExecutorAction,
  VmmExecutor, try_exists, create_dir_all, force_chown, force_mkdir, create_parent,
  create_file_with_tree,
}
use Renamers.{JailRenamer}

pub data JailMoveMethod : Type 0 where
  copy hard_link hard_link_with_copy_fallback : JailMoveMethod

pub record JailedVmmExecutor : Type 0 where
  pub vmm_arguments : VmmArguments
  pub jailer_arguments : JailerArguments
  pub jail_move_method : JailMoveMethod
  pub jail_renamer : JailRenamer
  pub command_modifier_chain : List CommandModifier

-- `JailedVmmExecutor::new`
unfoldable pub new : VmmArguments → JailerArguments → JailRenamer → JailedVmmExecutor
new vmm_arguments jailer_arguments jail_renamer = record {
  vmm_arguments = vmm_arguments;
  jailer_arguments = jailer_arguments;
  jail_move_method = copy;
  jail_renamer = jail_renamer;
  command_modifier_chain = [];
}

abbrev chroot_base_dir_of : Option FilePath → FilePath
chroot_base_dir_of (some dir) = dir
chroot_base_dir_of none = txt "/srv/jailer"

abbrev filename_of : Option Text → Text
filename_of (some filename) = filename
filename_of none = txt "firecracker"

module _ (e : JailedVmmExecutor) where
  unfoldable pub jail_move_method : JailMoveMethod → JailedVmmExecutor
  jail_move_method m = record e { jail_move_method = m }

  unfoldable pub command_modifier : CommandModifier → JailedVmmExecutor
  command_modifier m = record e { command_modifier_chain = e.command_modifier_chain ++ (m ∷ []) }

  unfoldable pub command_modifiers : List CommandModifier → JailedVmmExecutor
  command_modifiers ms = record e { command_modifier_chain = e.command_modifier_chain ++ ms }

  unfoldable pub chroot_base_dir : FilePath
  chroot_base_dir = chroot_base_dir_of e.jailer_arguments.chroot_base_dir

  -- example: /srv/jailer/firecracker/1/root
  unfoldable pub get_jail_path : VmmInstallation → FilePath
  unfolding chroot_base_dir
  get_jail_path installation =
      join_path
        (join_path
          (join_path chroot_base_dir (filename_of (file_name installation.firecracker_path)))
          e.jailer_arguments.jail_id)
        (txt "root")

  unfoldable pub inner_to_outer_path : VmmInstallation → FilePath → FilePath
  inner_to_outer_path installation inner_path = jail_join (get_jail_path installation) inner_path

  abbrev outer_socket : VmmInstallation → VmmApiSocket → Option FilePath
  outer_socket installation disabled = none
  outer_socket installation (enabled socket_path) =
      some (jail_join (get_jail_path installation) socket_path)

  unfoldable pub get_socket_path : VmmInstallation → Option FilePath
  get_socket_path installation = outer_socket installation e.vmm_arguments.api_socket

module _ (H : Host) where
  -- A copy, or a hard link, of the resource: the body of the blocking task.
  unfoldable pub move_resource : JailMoveMethod → FilePath → FilePath → Call H.World H.IoError Done
  move_resource copy outer inner w = H.copy outer inner w
  move_resource hard_link outer inner w = H.hard_link outer inner w
  move_resource hard_link_with_copy_fallback outer inner w =
      let (result, w') = H.hard_link outer inner w in
      elim result [ inl failed ↦ H.copy outer inner w' | inr done ↦ (inr done, w') ]

  abbrev make_parent : Option FilePath → Call H.World H.IoError Done
  make_parent none w = (inr tt, w)
  make_parent (some new_path_parent_dir) w = H.create_dir_all new_path_parent_dir w

  unfoldable pub move_task : JailMoveMethod → FilePath → FilePath → Call H.World H.IoError Done
  unfolding move_resource
  move_task method outer_path expanded_inner_path w =
      let (made, w') = make_parent (parent expanded_inner_path) w in
      elim made [
        | inl e ↦ (inl e, w')
        | inr done ↦ move_resource method outer_path expanded_inner_path w'
      ]

  -- `while let Some(result) = join_set.join_next().await`: one round for each task that was spawned.
  unfoldable pub join_all : ℕ → ExecutorAction H Done
  join_all zero w = (ok tt, w)
  join_all (suc tasks) w =
      let (next, w') = H.join_next w in
      let rest = join_all tasks w' in
      elim next [
        | none ↦ (ok tt, w')
        | some (inl e) ↦ (err (task_join_failed e), w')
        | some (inr (inl e)) ↦ (err (io_error e), w')
        | some (inr (inr done)) ↦ rest
      ]

  abbrev ensure_exists : Bool → FilePath → ExecutorAction H Done
  ensure_exists true path = pure tt
  ensure_exists false path = raise (expected_resource_missing path)

  -- `join_set.spawn_blocking(task)`
  abbrev spawn_task : Call H.World H.IoError Done → ExecutorAction H Done
  spawn_task task w = (ok tt, H.spawn_blocking task w)

module _ (H : Host) (e : JailedVmmExecutor) where
  -- One round of the loop over the resources: the inner path, with the moving task spawned.
  unfoldable pub admit_resource : FilePath → ShellSpawner H → FilePath → ExecutorAction H FilePath
  admit_resource jail_path shell_spawner outer_path = do
    exists ← try_exists H outer_path
    ensure_exists H exists outer_path
    force_chown H outer_path shell_spawner
    inner_path ← with_err jail_renamer_failed (of_outcome (e.jail_renamer outer_path))
    spawn_task H (move_task H e.jail_move_method outer_path (jail_join jail_path inner_path))
    pure inner_path

  -- The loop over the resources, from the mappings so far.
  unfoldable pub move_resources :
      FilePath → ShellSpawner H → List FilePath → PathTable → ExecutorAction H PathTable
  unfolding admit_resource
  move_resources jail_path shell_spawner [] path_mappings = pure path_mappings
  move_resources jail_path shell_spawner (outer_path ∷ paths) path_mappings =
      admit_resource jail_path shell_spawner outer_path >>= λ inner_path.
      move_resources jail_path shell_spawner paths (insert outer_path inner_path path_mappings)

  -- The chroot base directory is made if it is missing, and owned.
  unfoldable pub prepare_chroot : ShellSpawner H → ExecutorAction H Done
  prepare_chroot shell_spawner = do
    exists ← try_exists H (chroot_base_dir e)
    (elim exists [ true ↦ pure tt | false ↦ force_mkdir H (chroot_base_dir e) shell_spawner ])
    force_chown H (chroot_base_dir e) shell_spawner

  -- A jail that is left over is deleted, and a new one made.
  unfoldable pub create_jail : FilePath → ExecutorAction H Done
  create_jail jail_path = do
    exists ← try_exists H jail_path
    (elim exists [ true ↦ call io_error (H.remove_dir_all jail_path) | false ↦ pure tt ])
    create_dir_all H jail_path

  abbrev make_socket_dir : FilePath → Option FilePath → ExecutorAction H Done
  make_socket_dir jail_path none = pure tt
  make_socket_dir jail_path (some socket_parent_dir) =
      create_dir_all H (jail_join jail_path socket_parent_dir)

  unfoldable pub prepare_socket_dir : FilePath → VmmApiSocket → ExecutorAction H Done
  prepare_socket_dir jail_path disabled = pure tt
  prepare_socket_dir jail_path (enabled socket_path) =
      make_socket_dir jail_path (parent socket_path)

  unfoldable pub create_inside : FilePath → Option FilePath → ExecutorAction H Done
  create_inside jail_path none = pure tt
  create_inside jail_path (some path) = create_file_with_tree H (jail_join jail_path path)

  unfoldable pub prepare :
      VmmInstallation → ShellSpawner H → List FilePath → ExecutorAction H PathTable
  unfolding prepare_chroot create_jail prepare_socket_dir create_inside move_resources join_all
  prepare installation shell_spawner outer_paths = do
    prepare_chroot shell_spawner
    create_jail (get_jail_path e installation)
    prepare_socket_dir (get_jail_path e installation) e.vmm_arguments.api_socket
    create_inside (get_jail_path e installation) e.vmm_arguments.log_path
    create_inside (get_jail_path e installation) e.vmm_arguments.metrics_path
    path_mappings ← move_resources (get_jail_path e installation) shell_spawner outer_paths []
    join_all H (length outer_paths)
    pure path_mappings

  abbrev remove_jail : Option FilePath → ExecutorAction H Done
  remove_jail none = raise expected_directory_parent_missing
  remove_jail (some jail_parent_path) = call io_error (H.remove_dir_all jail_parent_path)

  unfoldable pub cleanup : VmmInstallation → ExecutorAction H Done
  cleanup installation = remove_jail (parent (get_jail_path e installation))

module _ (order : ArgTable → ArgTable) (e : JailedVmmExecutor) where
  -- The command line of `invoke`.
  unfoldable pub shell_command : VmmInstallation → ConfigurationFileOverride → Text
  shell_command installation config_override =
      apply_command_modifier_chain
        (installation.jailer_path
          ++ (txt " "
              ++ (join_jailer order e.jailer_arguments installation.firecracker_path
                  ++ (txt " -- " ++ join_vmm order e.vmm_arguments config_override))))
        e.command_modifier_chain

module _ (H : Host) (order : ArgTable → ArgTable) (e : JailedVmmExecutor) where
  unfoldable pub invoke :
      VmmInstallation
      → ShellSpawner H
      → ConfigurationFileOverride
      → ExecutorAction H (Child H.Handle H.Pipe)
  unfolding shell_command
  invoke installation shell config_override =
      with_err shell_spawn_failed
        (shell.spawn (shell_command order e installation config_override) false)

  -- `impl VmmExecutor for JailedVmmExecutor`
  unfoldable pub executor : VmmExecutor H
  unfolding prepare invoke cleanup get_socket_path inner_to_outer_path
  executor = record {
    get_socket_path = get_socket_path e;
    inner_to_outer_path = inner_to_outer_path e;
    traceless = true;
    prepare = prepare H e;
    invoke = invoke;
    cleanup = λ installation shell_spawner. cleanup H e installation;
  }
