-- ===== src/Vm/Mappings/Laws.antt =====
-- What the transformed configuration of src/vm/mod.rs names.
use fctools.Base.{
  ◌≡◌, refl, sym, ap, Option, none, some, List, [], ◌∷◌, ◌++◌, append_assoc, ok, ok_or, arith,
}
use fctools.Base.Action.{pure}
use fctools.FilePath.{FilePath}
use fctools.FilePath.Table.{PathTable, lookup, erase, remove, lookup-erase}
use fctools.Models.{Drive, LoadSnapshot, BootSource}
use fctools.Vm.Configuration.{VmConfiguration, new_vm, restored_from_snapshot, VmConfigurationData}
use fctools.Base.Triples.{Ends, Triple, bind_triple, Ends-ok}
use fctools.Vm.Mappings.{
  MissingPathMapping, missing_path_mapping, MappingAction, optional, drive_paths, snapshot_paths,
  get_outer_paths, outer_paths_of, take_mapping, take_optional, take_drives, take_boot_source,
  take_snapshot, take_data, map_configuration,
}

-- The second list has the table's names of the paths of the first one, in order.
abbrev pub Names : PathTable → List FilePath → List FilePath → Type 0
Names m [] [] = Unit
Names m (p ∷ ps) (q ∷ qs) = (lookup p m ≡ some q) × Names m ps qs
Names m _ _ = ⊥

Names-append :
    (m : PathTable) (ps qs rs ss : List FilePath)
    → Names m ps qs
    → Names m rs ss
    → Names m (ps ++ rs) (qs ++ ss)
Names-append m [] [] rs ss h g = g
Names-append m (p ∷ ps) (q ∷ qs) rs ss (found, h) g = (found, Names-append m ps qs rs ss h g)
Names-append m [] (q ∷ qs) rs ss h g = absurd h
Names-append m (p ∷ ps) [] rs ss h g = absurd h

-- The first table finds nothing that the second one does not find.
abbrev Within : PathTable → PathTable → Type 0
Within m n = (p q : FilePath) → lookup p m ≡ some q → lookup p n ≡ some q

erase-Within : (k : FilePath) (m n : PathTable) → Within m n → Within (erase k m) n
erase-Within k m n h p q found = h p q (ground (arith, lookup-erase k p m))

module _ (n : PathTable) where
  Ended : PathTable → Type 0
  Ended m = Unit

  -- The result's paths are the names of the paths that were given.
  abbrev Named : {A : Type 0} → (A → List FilePath) → List FilePath → A → PathTable → Type 0
  Named paths_of ps a m = Names n ps (paths_of a) × Within m n

  -- From a table inside `n` an action succeeds only with the names that `n` has.
  abbrev Gives : {A : Type 0} → (A → List FilePath) → List FilePath → MappingAction A → Type 0
  Gives paths_of ps action = Triple Ended Ended (λ m. Within m n) action (Named paths_of ps)

  pure_Gives :
      {A : Type 0} (paths_of : A → List FilePath) (ps : List FilePath) (a : A) (m : PathTable)
      → Named paths_of ps a m
      → Ends Ended Ended (Named paths_of ps) (pure {E = MissingPathMapping} a m)
  unfolding Ends
  pure_Gives paths_of ps a m h = h

  found-Gives :
      (p : FilePath) (o : Option FilePath) (m : PathTable)
      → Within m n
      → lookup p m ≡ o
      → Ends Ended Ended (Named (λ q. q ∷ []) (p ∷ [])) (ok_or o missing_path_mapping, erase p m)
  unfolding Ends Ended
  found-Gives p none m within e = tt
  found-Gives p (some q) m within e = ((within p q e, tt), erase-Within p m n within)

  take_mapping-Gives : (p : FilePath) → Gives (λ q. q ∷ []) (p ∷ []) (take_mapping p)
  unfolding take_mapping remove
  take_mapping-Gives p m within = found-Gives p (lookup p m) m within refl

  take_optional-Gives : (o : Option FilePath) → Gives optional (optional o) (take_optional o)
  unfolding take_optional
  take_optional-Gives none = λ m within. pure_Gives optional [] none m (tt, within)
  take_optional-Gives (some p) =
      bind_triple _ _ (Named (λ q. q ∷ []) (p ∷ [])) _ (take_mapping p) _ (take_mapping-Gives p)
        (λ q m h. pure_Gives optional (p ∷ []) (some q) m h)

  take_drives-Gives : (ds : List Drive) → Gives drive_paths (drive_paths ds) (take_drives ds)
  unfolding take_drives
  take_drives-Gives [] = λ m within. pure_Gives drive_paths [] [] m (tt, within)
  take_drives-Gives (d ∷ ds) =
      bind_triple _ _ (Named optional (optional d.path_on_host)) _ (take_optional d.path_on_host) _
        (take_optional-Gives d.path_on_host)
        (λ path m (named, within).
          bind_triple _ _ (Named drive_paths (drive_paths ds)) _ (take_drives ds)
            (λ rest. pure (record d { path_on_host = path } ∷ rest)) (take_drives-Gives ds)
            (λ rest m' (named', within').
              pure_Gives drive_paths (drive_paths (d ∷ ds))
                (record d { path_on_host = path } ∷ rest) m'
                (
                  Names-append n (optional d.path_on_host) (optional path) _ _ named named',
                  within',
                ))
            m within)

  abbrev source_paths : BootSource → List FilePath
  source_paths source = source.kernel_image_path ∷ optional source.initrd_path

  take_boot_source-Gives :
      (source : BootSource) → Gives source_paths (source_paths source) (take_boot_source source)
  unfolding take_boot_source
  take_boot_source-Gives source =
      bind_triple _ _ (Named (λ q. q ∷ []) (source.kernel_image_path ∷ [])) _
        (take_mapping source.kernel_image_path) _ (take_mapping-Gives source.kernel_image_path)
        (λ kernel m ((found, _), within).
          bind_triple _ _ (Named optional (optional source.initrd_path)) _
            (take_optional source.initrd_path)
            (λ initrd. pure (record source { kernel_image_path = kernel; initrd_path = initrd }))
            (take_optional-Gives source.initrd_path)
            (λ initrd m' (named, within').
              pure_Gives source_paths (source_paths source)
                (record source { kernel_image_path = kernel; initrd_path = initrd }) m'
                ((found, named), within'))
            m within)

  abbrev data_paths : VmConfigurationData → List FilePath
  data_paths d = source_paths d.boot_source ++ drive_paths d.drives

  take_data-Gives : (d : VmConfigurationData) → Gives data_paths (data_paths d) (take_data d)
  unfolding take_data
  take_data-Gives d =
      bind_triple _ _ (Named source_paths (source_paths d.boot_source)) _
        (take_boot_source d.boot_source) _ (take_boot_source-Gives d.boot_source)
        (λ source m (named, within).
          bind_triple _ _ (Named drive_paths (drive_paths d.drives)) _ (take_drives d.drives)
            (λ drives. pure (record d { boot_source = source; drives = drives }))
            (take_drives-Gives d.drives)
            (λ drives m' (named', within').
              pure_Gives data_paths (data_paths d)
                (record d { boot_source = source; drives = drives }) m'
                (
                  Names-append n (source_paths d.boot_source) (source_paths source) _ _ named
                      named',
                  within',
                ))
            m within)

  abbrev load_paths : LoadSnapshot → List FilePath
  load_paths l = l.snapshot_path ∷ l.mem_backend.backend_path ∷ []

  take_snapshot-Gives : (l : LoadSnapshot) → Gives load_paths (load_paths l) (take_snapshot l)
  unfolding take_snapshot
  take_snapshot-Gives l =
      bind_triple _ _ (Named (λ q. q ∷ []) (l.snapshot_path ∷ [])) _ (take_mapping l.snapshot_path)
        _ (take_mapping-Gives l.snapshot_path)
        (λ snapshot m ((found, _), within).
          bind_triple _ _ (Named (λ q. q ∷ []) (l.mem_backend.backend_path ∷ [])) _
            (take_mapping l.mem_backend.backend_path)
            (λ memory. pure (record l {
              snapshot_path = snapshot;
              mem_backend = record l.mem_backend { backend_path = memory };
            }))
            (take_mapping-Gives l.mem_backend.backend_path)
            (λ memory m' ((found', _), within').
              pure_Gives load_paths (load_paths l)
                (record l {
                  snapshot_path = snapshot;
                  mem_backend = record l.mem_backend { backend_path = memory };
                })
                m' ((found, (found', tt)), within'))
            m within)

  outer_paths_split :
      (d : VmConfigurationData) (l : Option LoadSnapshot)
      → get_outer_paths d l ≡ data_paths d ++ snapshot_paths l
  unfolding get_outer_paths
  outer_paths_split d l =
      ap (λ ps. d.boot_source.kernel_image_path ∷ ps)
        (sym (
          append_assoc (optional d.boot_source.initrd_path) (drive_paths d.drives)
            (snapshot_paths l)))

  Names-outer_paths :
      (d d' : VmConfigurationData) (l l' : Option LoadSnapshot)
      → Names n (data_paths d) (data_paths d')
      → Names n (snapshot_paths l) (snapshot_paths l')
      → Names n (get_outer_paths d l) (get_outer_paths d' l')
  Names-outer_paths d d' l l' h g =
      rw (outer_paths_split d l, outer_paths_split d' l')
        (Names-append n (data_paths d) (data_paths d') _ _ h g)

  map_configuration-Gives :
      (c : VmConfiguration) → Gives outer_paths_of (outer_paths_of c) (map_configuration c)
  unfolding map_configuration outer_paths_of
  map_configuration-Gives (new_vm i d) =
      bind_triple _ _ (Named data_paths (data_paths d)) _ (take_data d) _ (take_data-Gives d)
        (λ d' m (named, within).
          pure_Gives outer_paths_of (outer_paths_of (new_vm i d)) (new_vm i d') m
            (Names-outer_paths d d' none none named tt, within))
  map_configuration-Gives (restored_from_snapshot l d) =
      bind_triple _ _ (Named data_paths (data_paths d)) _ (take_data d) _ (take_data-Gives d)
        (λ d' m (named, within).
          bind_triple _ _ (Named load_paths (load_paths l)) _ (take_snapshot l)
            (λ l'. pure (restored_from_snapshot l' d')) (take_snapshot-Gives l)
            (λ l' m' (named', within').
              pure_Gives outer_paths_of (outer_paths_of (restored_from_snapshot l d))
                (restored_from_snapshot l' d') m'
                (Names-outer_paths d d' (some l) (some l') named named', within'))
            m within)

-- When the configuration is transformed, it names exactly the resources that were handed to the
-- process, each by the path that the executor's table gives it, in the same order.
pub map_configuration-Names :
    (c : VmConfiguration) (m : PathTable) {c' : VmConfiguration}
    → (map_configuration c m).0 ≡ ok c'
    → Names m (outer_paths_of c) (outer_paths_of c')
map_configuration-Names c m h =
    (Ends-ok _ _ (Named m outer_paths_of (outer_paths_of c)) (map_configuration c m)
      (map_configuration-Gives m c m (λ p q found. found)) h).0
