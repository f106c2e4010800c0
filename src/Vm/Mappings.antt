-- ===== src/Vm/Mappings.antt =====
-- `prepare_arced` of src/vm/mod.rs, as far as it computes: the resources that it hands to the process,
-- and the configuration with the paths that the executor has mapped them to.
pub mod Laws
pub mod Rest
use fctools.Base.{Option, none, some, List, [], ◌∷◌, ◌++◌, Outcome, ok, err, ok_or, Done}
use fctools.Base.Action.{Action, pure, ◌>>=◌}
use fctools.FilePath.{FilePath}
use fctools.FilePath.Table.{PathTable, remove}
use fctools.Models.{Drive, LoadSnapshot, BootSource, MemoryBackend}
use fctools.Vm.Configuration.{
  VmConfiguration, new_vm, restored_from_snapshot, VmConfigurationData, InitMethod,
}

abbrev pub optional : Option FilePath → List FilePath
optional none = []
optional (some path) = path ∷ []

abbrev pub drive_paths : List Drive → List FilePath
drive_paths [] = []
drive_paths (drive ∷ drives) = optional drive.path_on_host ++ drive_paths drives

abbrev pub snapshot_paths : Option LoadSnapshot → List FilePath
snapshot_paths none = []
snapshot_paths (some load_snapshot) =
    load_snapshot.snapshot_path ∷ load_snapshot.mem_backend.backend_path ∷ []

-- `get_outer_paths`
unfoldable pub get_outer_paths : VmConfigurationData → Option LoadSnapshot → List FilePath
get_outer_paths d load_snapshot =
    d.boot_source.kernel_image_path
    ∷ (optional d.boot_source.initrd_path ++ (drive_paths d.drives ++ snapshot_paths load_snapshot))

unfoldable pub outer_paths_of : VmConfiguration → List FilePath
unfolding get_outer_paths
outer_paths_of (new_vm init_method d) = get_outer_paths d none
outer_paths_of (restored_from_snapshot load_snapshot d) = get_outer_paths d (some load_snapshot)

-- `VmError::MissingPathMapping`, the only error here.
pub data MissingPathMapping : Type 0 where
  missing_path_mapping : MissingPathMapping

abbrev pub MappingAction : Type 0 → Type 0
MappingAction A = Action PathTable MissingPathMapping A

-- `path_mappings.remove(path).ok_or(MissingPathMapping)?`
unfoldable pub take_mapping : FilePath → MappingAction FilePath
take_mapping path m = let (found, m') = remove path m in (ok_or found missing_path_mapping, m')

unfoldable pub take_optional : Option FilePath → MappingAction (Option FilePath)
unfolding take_mapping
take_optional none = pure none
take_optional (some path) = take_mapping path >>= λ inner. pure (some inner)

-- The loop over the drives.
unfoldable pub take_drives : List Drive → MappingAction (List Drive)
unfolding take_optional
take_drives [] = pure []
take_drives (drive ∷ drives) = do
  path ← take_optional drive.path_on_host
  rest ← take_drives drives
  pure (record drive { path_on_host = path } ∷ rest)

unfoldable pub take_boot_source : BootSource → MappingAction BootSource
unfolding take_mapping take_optional
take_boot_source source = do
  kernel ← take_mapping source.kernel_image_path
  initrd ← take_optional source.initrd_path
  pure (record source { kernel_image_path = kernel; initrd_path = initrd })

unfoldable pub take_snapshot : LoadSnapshot → MappingAction LoadSnapshot
unfolding take_mapping
take_snapshot load_snapshot = do
  snapshot ← take_mapping load_snapshot.snapshot_path
  memory ← take_mapping load_snapshot.mem_backend.backend_path
  pure (record load_snapshot {
    snapshot_path = snapshot;
    mem_backend = record load_snapshot.mem_backend { backend_path = memory };
  })

unfoldable pub take_data : VmConfigurationData → MappingAction VmConfigurationData
unfolding take_boot_source take_drives
take_data d = do
  source ← take_boot_source d.boot_source
  drives ← take_drives d.drives
  pure (record d { boot_source = source; drives = drives })

-- The transformation of the configuration by the returned mappings.
unfoldable pub map_configuration : VmConfiguration → MappingAction VmConfiguration
unfolding take_data take_snapshot
map_configuration (new_vm init_method d) = take_data d >>= λ d'. pure (new_vm init_method d')
map_configuration (restored_from_snapshot load_snapshot d) = do
  d' ← take_data d
  load' ← take_snapshot load_snapshot
  pure (restored_from_snapshot load' d')
