-- ===== src/Executor/Tests.antt =====
-- Runs of src/executor/ and src/shell_spawner.rs in the simulated host, and the theorems at concrete
-- inputs.
use fctools.Base.{◌≡◌, refl, ◌≤◌, ◌↔◌, true, none, some, [], ◌∷◌, ◌++◌, All, length, ok}
use fctools.Text.{Text, txt}
use fctools.FilePath.{FilePath, components, path_eq}
use fctools.FilePath.Joining.{below}
use fctools.FilePath.Table.{lookup}
use fctools.Host.{Host}
use fctools.ShellSpawner.{
  ShellSpawner, SudoShellSpawner, same_user, sudo, su, new_su, default_same_user,
}
use fctools.ShellSpawner.Laws.{Spawned, sudo_iff}
use fctools.Arguments.{enabled}
use fctools.Arguments.Build.{new_vmm, new_jailer}
use fctools.Executor.{VmmInstallation, force_chown}
use fctools.Executor.Unrestricted
use fctools.Executor.Unrestricted.{UnrestrictedVmmExecutor, new_id}
use fctools.Executor.Unrestricted.Ids.{IsIdChar, new_id_iff}
use fctools.Executor.Unrestricted.Laws.{MapsToSelf, prepare-MapsToSelf}
use fctools.Executor.Jailed
use fctools.Executor.Jailed.{JailedVmmExecutor, get_jail_path, inner_to_outer_path}
use fctools.Executor.Jailed.Renamers.{flat}
use fctools.Executor.Jailed.Laws.{Renames, flat-RespectsPaths, prepare-Renames}
use fctools.Executor.Jailed.Outer.{components-inner_to_outer_path}
use fctools.Simulation.{simulation, idle, Machine}

abbrev S : Host
S = simulation

abbrev shell : ShellSpawner S
shell = same_user S default_same_user

abbrev installed : VmmInstallation
installed = record {
  firecracker_path = txt "/bin/firecracker";
  jailer_path = txt "/bin/jailer";
  snapshot_editor_path = txt "/bin/editor";
}

abbrev jailed : JailedVmmExecutor
jailed = Jailed.new (new_vmm (enabled (txt "/run/sock"))) (new_jailer 1000 1000 (txt "1")) flat

abbrev plain : UnrestrictedVmmExecutor
plain = Unrestricted.new (new_vmm (enabled (txt "/run/sock")))

abbrev machine : Machine
machine = record idle { files = txt "/opt/kernel" ∷ txt "/opt/disk" ∷ [] }

-- "/srv/jailer/firecracker/1/root"
jail_path : get_jail_path jailed installed ≡ txt "/srv/jailer/firecracker/1/root"
unfolding get_jail_path fctools.FilePath.join_path fctools.Text.starts_with Jailed.new new_jailer
    fctools.FilePath.file_name components fctools.Text.Words.split fctools.Text.text_eq
jail_path = refl

outer_path :
    inner_to_outer_path jailed installed (txt "/run/sock")
    ≡ txt "/srv/jailer/firecracker/1/root/run/sock"
unfolding inner_to_outer_path fctools.FilePath.jail_join fctools.Text.trim_start_matches
    get_jail_path fctools.FilePath.join_path fctools.Text.starts_with Jailed.new new_jailer
    fctools.FilePath.file_name components fctools.Text.Words.split fctools.Text.text_eq
outer_path = refl

components-inner_to_outer_path_example :
    components (inner_to_outer_path jailed installed (txt "/run/sock"))
    ≡ components (get_jail_path jailed installed) ++ below (components (txt "/run/sock"))
components-inner_to_outer_path_example =
    components-inner_to_outer_path jailed installed (txt "/run/sock")

prepare-Renames_example :
    All
      (Renames flat ((txt "/opt/kernel", txt "/kernel") ∷ (txt "/opt/disk", txt "/disk") ∷ []))
      (txt "/opt/kernel" ∷ txt "/opt/disk" ∷ [])
unfolding get_jail_path fctools.FilePath.join_path fctools.Text.starts_with Jailed.new new_jailer
    fctools.FilePath.file_name components fctools.Text.Words.split fctools.Text.text_eq new_vmm flat
    Jailed.prepare fctools.Simulation.is_there path_eq fctools.Executor.force_mkdir same_user
    force_chown fctools.FilePath.parent Jailed.move_task fctools.FilePath.Table.insert
    fctools.Executor.create_file_with_tree fctools.FilePath.jail_join
    fctools.Text.trim_start_matches Jailed.chroot_base_dir fctools.Simulation.without
    fctools.Text.Words.join
prepare-Renames_example =
    prepare-Renames S jailed flat-RespectsPaths installed shell
      (txt "/opt/kernel" ∷ txt "/opt/disk" ∷ []) machine
      {out = (txt "/opt/kernel", txt "/kernel") ∷ (txt "/opt/disk", txt "/disk") ∷ []} refl

prepare-MapsToSelf_example :
    All (MapsToSelf ((txt "/opt/kernel", txt "/opt/kernel") ∷ [])) (txt "/opt/kernel" ∷ [])
unfolding Unrestricted.prepare fctools.Simulation.is_there path_eq components
    fctools.Text.Words.split fctools.Text.text_eq force_chown same_user Unrestricted.new new_vmm
    fctools.FilePath.Table.insert
prepare-MapsToSelf_example =
    prepare-MapsToSelf S plain shell (txt "/opt/kernel" ∷ []) machine
      {m = (txt "/opt/kernel", txt "/opt/kernel") ∷ []} refl

new_id_iff_example :
    (new_id (txt "vm-01") ≡ ok (record { id = txt "vm-01" }))
    ↔ ((5 ≤ length (txt "vm-01")) × (length (txt "vm-01") ≤ 60) × All IsIdChar (txt "vm-01"))
new_id_iff_example = new_id_iff (txt "vm-01")

abbrev with_password : SudoShellSpawner
with_password = record { sudo_path = txt "/usr/bin/sudo"; password = some (txt "pw") }

sudo_iff_example :
    ((sudo S with_password).spawn (txt "id -u") true machine
      ≡ (ok (record { handle = tt; stdin = some tt; stdout = none; stderr = none }), machine))
    ↔ Spawned S with_password
        (txt "id -u")
        true
        machine
        (record { handle = tt; stdin = some tt; stdout = none; stderr = none })
        machine
sudo_iff_example =
    sudo_iff S with_password (txt "id -u") true machine
      (record { handle = tt; stdin = some tt; stdout = none; stderr = none }) machine

abbrev root_shell : ShellSpawner S
root_shell = su S (new_su (txt "password"))
