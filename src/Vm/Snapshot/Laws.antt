-- ===== src/Vm/Snapshot/Laws.antt =====
-- Which files `copy` and `move_out` of src/vm/snapshot.rs copy or move, and what a restored virtual
-- machine then uses.
use fctools.Base.{
  Done, ◌≡◌, refl, sym, ap, Bool, true, false, Option, none, some, [], ◌∷◌, ◌++◌, append_assoc,
  append-nil, Outcome, ok, err, inl, inr, ◌⊎◌,
}
use fctools.FilePath.{FilePath}
use fctools.Models.{LoadSnapshot, new_backend, new_load, enable_diff_snapshots, resume_vm}
use fctools.Host.{Host}
use fctools.Host.Calls.{Call}
use fctools.Vm.Configuration.{VmConfigurationData}
use fctools.Vm.Mappings.{get_outer_paths, outer_paths_of, optional, drive_paths, snapshot_paths}
use fctools.Vm.Snapshot.{
  SnapshotData, load_of, into_configuration, both, try_join, relocated, copy, move_out,
}

get_outer_paths-some :
    (d : VmConfigurationData) (l : LoadSnapshot)
    → get_outer_paths d (some l) ≡ get_outer_paths d none ++ snapshot_paths (some l)
unfolding get_outer_paths
get_outer_paths-some d l =
    ap (λ ps. d.boot_source.kernel_image_path ∷ ps)
      (rw (append-nil (drive_paths d.drives)) (
        sym (
          append_assoc (optional d.boot_source.initrd_path) (drive_paths d.drives)
            (snapshot_paths (some l)))))

-- The resources of a virtual machine that a snapshot is restored into are those of its data and the
-- two files of the snapshot, whichever options are given.
pub outer_paths_of-into_configuration :
    (s : SnapshotData) (resume diff : Option Bool)
    → outer_paths_of (into_configuration s resume diff)
      ≡ get_outer_paths s.configuration_data none ++ (s.snapshot_path ∷ s.mem_file_path ∷ [])
unfolding outer_paths_of into_configuration new_load new_backend resume_vm enable_diff_snapshots
outer_paths_of-into_configuration s none none =
    get_outer_paths-some s.configuration_data (load_of s none none)
outer_paths_of-into_configuration s none (some e) =
    get_outer_paths-some s.configuration_data (load_of s none (some e))
outer_paths_of-into_configuration s (some r) none =
    get_outer_paths-some s.configuration_data (load_of s (some r) none)
outer_paths_of-into_configuration s (some r) (some e) =
    get_outer_paths-some s.configuration_data (load_of s (some r) (some e))

module _ (H : Host) where
  module _ (s : SnapshotData) (new_snapshot new_mem : FilePath) (resume diff : Option Bool) where
    -- What two answers make of the record.
    abbrev pub Ends :
        H.IoError ⊎ Done → H.IoError ⊎ Done → Outcome H.IoError Done → SnapshotData → Type 0
    Ends (inr done) (inr done') r s' =
        (r ≡ ok tt)
        × (s'.snapshot_path ≡ new_snapshot)
        × (s'.mem_file_path ≡ new_mem)
        × (s'.configuration_data ≡ s.configuration_data)
        × (outer_paths_of (into_configuration s' resume diff)
            ≡ get_outer_paths s.configuration_data none ++ (new_snapshot ∷ new_mem ∷ []))
    Ends (inr done) (inl e) r s' = (r ≡ err e) × (s' ≡ s)
    Ends (inl e) later r s' = (r ≡ err e) × (s' ≡ s)

    -- Two calls one after the other, with the result and the world that they end in.
    abbrev pub RunsBoth :
        Call H.World H.IoError Done
        → Call H.World H.IoError Done
        → H.World
        → Outcome H.IoError Done × SnapshotData × H.World
        → Type 0
    RunsBoth a b w r =
        (first second : H.IoError ⊎ Done) × (w₁ : H.World) × (a w ≡ (first, w₁))
        × (b w₁ ≡ (second, r.2))
        × Ends first second r.0 r.1

    both-Ends :
        (first second : H.IoError ⊎ Done) (w : H.World)
        → let r = relocated H s new_snapshot new_mem (both H first second, w) in
          Ends first second r.0 r.1
    both-Ends (inl e) later w = (refl, refl)
    both-Ends (inr done) (inl e) w = (refl, refl)
    both-Ends (inr done) (inr done') w = (
      refl,
      refl,
      refl,
      refl,
      outer_paths_of-into_configuration
          (record s { snapshot_path = new_snapshot; mem_file_path = new_mem }) resume diff,
    )

    relocated-world :
        (first second : H.IoError ⊎ Done) (w : H.World)
        → (relocated H s new_snapshot new_mem (both H first second, w)).2 ≡ w
    relocated-world (inl e) later w = refl
    relocated-world (inr done) (inl e) w = refl
    relocated-world (inr done) (inr done') w = refl

    in_order-RunsBoth :
        (a b : Call H.World H.IoError Done) (w : H.World)
        → RunsBoth a b w (relocated H s new_snapshot new_mem (try_join H false a b w))
    unfolding try_join
    in_order-RunsBoth a b w =
        let w₁ = (a w).1 in
        (
          (a w).0,
          (b w₁).0,
          w₁,
          refl,
          ap (λ x. ((b w₁).0, x)) (sym (relocated-world (a w).0 (b w₁).0 (b w₁).1)),
          both-Ends (a w).0 (b w₁).0 (b w₁).1,
        )

    -- The snapshot goes first, or the memory.
    abbrev pub Relocates :
        Bool
        → (FilePath → FilePath → Call H.World H.IoError Done)
        → H.World
        → Outcome H.IoError Done × SnapshotData × H.World
        → Type 0
    Relocates false to w r =
        RunsBoth (to s.snapshot_path new_snapshot) (to s.mem_file_path new_mem) w r
    Relocates true to w r =
        RunsBoth (to s.mem_file_path new_mem) (to s.snapshot_path new_snapshot) w r

    -- `copy` copies, and `move_out` renames, the snapshot to the first new path and the memory to the
    -- second, one after the other in either order. If both calls succeed, the record has the new paths and
    -- the same data, and a virtual machine restored from it uses these two files and the resources of the
    -- data. Otherwise the error is that of the first call that failed, and the record keeps the old paths.
    pub relocation_cases :
        (backwards : Bool) (w : H.World)
        → Relocates backwards H.copy w (copy H backwards s new_snapshot new_mem w)
          × Relocates backwards H.rename w (move_out H backwards s new_snapshot new_mem w)
    unfolding copy move_out try_join
    relocation_cases false w = (
      in_order-RunsBoth (H.copy s.snapshot_path new_snapshot) (H.copy s.mem_file_path new_mem) w,
      in_order-RunsBoth (H.rename s.snapshot_path new_snapshot) (H.rename s.mem_file_path new_mem)
          w,
    )
    relocation_cases true w = (
      in_order-RunsBoth (H.copy s.mem_file_path new_mem) (H.copy s.snapshot_path new_snapshot) w,
      in_order-RunsBoth (H.rename s.mem_file_path new_mem) (H.rename s.snapshot_path new_snapshot)
          w,
    )
