-- ===== src/Vm/Tests.antt =====
-- Runs of src/vm/, and the theorems at concrete configurations.
use fctools.Base.{◌≡◌, refl, false, none, some, [], ◌∷◌, err}
use fctools.Text.{Text, txt}
use fctools.FilePath.{FilePath}
use fctools.FilePath.Table.{PathTable}
use fctools.Models.{Drive, BootSource, MachineConfiguration}
use fctools.Vm.Configuration.{VmConfigurationData, new_vm, via_api_calls, new_data, drives}
use fctools.Vm.Mappings.{outer_paths_of, map_configuration, missing_path_mapping}
use fctools.Vm.Mappings.Laws.{Names, map_configuration-Names}
use fctools.Vm.Snapshot.{SnapshotData, copy, move_out}
use fctools.Vm.Snapshot.Laws.{Relocates, relocation_cases}
use fctools.Simulation.{simulation, idle}

abbrev source : Text → BootSource
source kernel = record { kernel_image_path = kernel; boot_args = none; initrd_path = none }

abbrev disk : Text → Text → Drive
disk drive_id path = record {
  drive_id = drive_id;
  is_root_device = false;
  cache_type = none;
  partuuid = none;
  is_read_only = none;
  path_on_host = some path;
  rate_limiter = none;
  io_engine = none;
  socket = none;
}

abbrev machine : MachineConfiguration
machine = record {
  vcpu_count = 1;
  mem_size_mib = 128;
  smt = none;
  track_dirty_pages = none;
  huge_pages = none;
}

abbrev one_disk : VmConfigurationData
one_disk = drives (new_data (source (txt "/k")) machine) (disk (txt "a") (txt "/d") ∷ [])

abbrev two_disks : VmConfigurationData
two_disks =
    drives (new_data (source (txt "/k")) machine)
      (disk (txt "a") (txt "/d") ∷ disk (txt "b") (txt "/d") ∷ [])

abbrev inside : VmConfigurationData
inside = drives (new_data (source (txt "/in/k")) machine) (disk (txt "a") (txt "/in/d") ∷ [])

abbrev table : PathTable
table = (txt "/k", txt "/in/k") ∷ (txt "/d", txt "/in/d") ∷ []

-- Two drives with one file behind them are refused, although the table has a path for it.
shared_file :
    (map_configuration (new_vm via_api_calls two_disks) table).0 ≡ err missing_path_mapping
unfolding map_configuration fctools.FilePath.Table.remove fctools.FilePath.path_eq
    fctools.FilePath.components fctools.Text.Words.split drives new_data fctools.Text.text_eq
shared_file = refl

map_configuration-Names_example :
    Names table
      (outer_paths_of (new_vm via_api_calls one_disk))
      (outer_paths_of (new_vm via_api_calls inside))
unfolding map_configuration fctools.FilePath.Table.remove fctools.FilePath.path_eq
    fctools.FilePath.components fctools.Text.Words.split drives new_data fctools.Text.text_eq
map_configuration-Names_example =
    map_configuration-Names (new_vm via_api_calls one_disk) table {c' = new_vm via_api_calls inside}
      refl

abbrev snapshot : SnapshotData
snapshot = record {
  snapshot_path = txt "/snapshot";
  mem_file_path = txt "/mem";
  configuration_data = one_disk;
}

relocation_cases_example :
    Relocates simulation snapshot
      (txt "/s2")
      (txt "/m2")
      none
      none
      false
      simulation.copy
      idle
      (copy simulation false snapshot (txt "/s2") (txt "/m2") idle)
    × Relocates simulation snapshot
        (txt "/s2")
        (txt "/m2")
        none
        none
        false
        simulation.rename
        idle
        (move_out simulation false snapshot (txt "/s2") (txt "/m2") idle)
relocation_cases_example =
    relocation_cases simulation snapshot (txt "/s2") (txt "/m2") none none false idle
