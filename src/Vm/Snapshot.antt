-- ===== src/Vm/Snapshot.antt =====
-- src/vm/snapshot.rs: the files of a snapshot, and the configuration that restores it. `try_join!`
-- starts both calls, and the error is that of the call which fails first; `backwards` says whether
-- the second one runs first.
pub mod Laws
use fctools.Base.{
  Done, Bool, true, false, Option, none, some, Outcome, ok, err, panic, inl, inr, ◌⊎◌,
}
use fctools.Base.Action.{Action}
use fctools.FilePath.{FilePath}
use fctools.Models.{LoadSnapshot, file, new_backend, new_load, enable_diff_snapshots, resume_vm}
use fctools.Host.{Host}
use fctools.Host.Calls.{Call}
use fctools.Vm.Configuration.{VmConfiguration, restored_from_snapshot, VmConfigurationData}

pub record SnapshotData : Type 0 where
  pub snapshot_path : FilePath
  pub mem_file_path : FilePath
  pub configuration_data : VmConfigurationData

abbrev with_diff : Option Bool → LoadSnapshot → LoadSnapshot
with_diff none l = l
with_diff (some b) l = enable_diff_snapshots l b

abbrev with_resume : Option Bool → LoadSnapshot → LoadSnapshot
with_resume none l = l
with_resume (some b) l = resume_vm l b

abbrev pub load_of : SnapshotData → Option Bool → Option Bool → LoadSnapshot
load_of s resume diff =
    with_diff diff
      (with_resume resume (new_load s.snapshot_path (new_backend file s.mem_file_path)))

-- `SnapshotData::into_configuration`
unfoldable pub into_configuration : SnapshotData → Option Bool → Option Bool → VmConfiguration
into_configuration s resume diff =
    restored_from_snapshot (load_of s resume diff) s.configuration_data

module _ (H : Host) where
  abbrev pub both : H.IoError ⊎ Done → H.IoError ⊎ Done → Outcome H.IoError Done
  both (inl e) later = err e
  both (inr done) (inl e) = err e
  both (inr done) (inr done') = ok tt

  abbrev in_order :
      Call H.World H.IoError Done → Call H.World H.IoError Done → Action H.World H.IoError Done
  in_order a b w = let (first, w₁) = a w in let (second, w₂) = b w₁ in (both first second, w₂)

  -- `tokio::try_join!`
  unfoldable pub try_join :
      Bool
      → Call H.World H.IoError Done
      → Call H.World H.IoError Done
      → Action H.World H.IoError Done
  try_join false a b = in_order a b
  try_join true a b = in_order b a

  -- The new paths are kept only when both files are in place.
  abbrev pub relocated :
      SnapshotData
      → FilePath
      → FilePath
      → Outcome H.IoError Done × H.World
      → Outcome H.IoError Done × SnapshotData × H.World
  relocated s new_snapshot_path new_mem_file_path (ok done, w) =
      (ok tt, record s { snapshot_path = new_snapshot_path; mem_file_path = new_mem_file_path }, w)
  relocated s new_snapshot_path new_mem_file_path (err e, w) = (err e, s, w)
  relocated s new_snapshot_path new_mem_file_path (panic, w) = (panic, s, w)

  module _ (backwards : Bool) (s : SnapshotData) where
    -- `SnapshotData::copy`
    unfoldable pub copy :
        FilePath → FilePath → H.World → Outcome H.IoError Done × SnapshotData × H.World
    unfolding try_join
    copy new_snapshot_path new_mem_file_path w = relocated s new_snapshot_path new_mem_file_path (
        try_join backwards (H.copy s.snapshot_path new_snapshot_path)
          (H.copy s.mem_file_path new_mem_file_path) w)

    -- `SnapshotData::move_out`
    unfoldable pub move_out :
        FilePath → FilePath → H.World → Outcome H.IoError Done × SnapshotData × H.World
    unfolding try_join
    move_out new_snapshot_path new_mem_file_path w =
        relocated s new_snapshot_path new_mem_file_path (
          try_join backwards (H.rename s.snapshot_path new_snapshot_path)
            (H.rename s.mem_file_path new_mem_file_path) w)

    -- `SnapshotData::remove`
    unfoldable pub remove : Action H.World H.IoError Done
    unfolding try_join
    remove = try_join backwards (H.remove_file s.snapshot_path) (H.remove_file s.mem_file_path)
