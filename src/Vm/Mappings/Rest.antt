-- ===== src/Vm/Mappings/Rest.antt =====
-- What the transformation of the configuration in src/vm/mod.rs leaves as it was.
use fctools.Base.{◌≡◌, sym, ap, ◌∙◌, ok}
use fctools.Base.Action.{bind-ok}
use fctools.FilePath.Table.{PathTable}
use fctools.Vm.Configuration.{
  VmConfiguration, new_vm, restored_from_snapshot, VmConfigurationData, data_of,
}
use fctools.Vm.Mappings.{take_boot_source, take_drives, take_data, take_snapshot, map_configuration}

-- The second data differs from the first one in its boot source and its drives only.
abbrev pub KeepsRest : VmConfigurationData → VmConfigurationData → Type 0
KeepsRest d d' = record d' { boot_source = d.boot_source; drives = d.drives } ≡ d

take_data-KeepsRest :
    (d : VmConfigurationData) (m : PathTable) {d' : VmConfigurationData}
    → (take_data d m).0 ≡ ok d'
    → KeepsRest d d'
unfolding take_data
take_data-KeepsRest d m {d' = d'} e =
    let (source, m1, x, y) = bind-ok (take_boot_source d.boot_source) _ m e in
    let (drives, m2, x', y') = bind-ok (take_drives d.drives) _ m1 y in
    let same : record d { boot_source = source; drives = drives } ≡ d' = cc in
    let restored : VmConfigurationData → VmConfigurationData =
      λ d'. record d' { boot_source = d.boot_source; drives = d.drives } in
    sym (ap restored same)

pub map_configuration-KeepsRest :
    (c : VmConfiguration) (m : PathTable) {c' : VmConfiguration}
    → (map_configuration c m).0 ≡ ok c'
    → KeepsRest (data_of c) (data_of c')
unfolding map_configuration data_of
map_configuration-KeepsRest (new_vm i d) m {c' = c'} e =
    let (d', m1, x, y) = bind-ok (take_data d) _ m e in
    let same : new_vm i d' ≡ c' = cc in
    let restored : VmConfiguration → VmConfigurationData =
      λ c. record (data_of c) { boot_source = d.boot_source; drives = d.drives } in
    sym (ap restored same) ∙ take_data-KeepsRest d m (ap (λ r. r.0) x)
map_configuration-KeepsRest (restored_from_snapshot l d) m {c' = c'} e =
    let (d', m1, x, y) = bind-ok (take_data d) _ m e in
    let (l', m2, x', y') = bind-ok (take_snapshot l) _ m1 y in
    let same : restored_from_snapshot l' d' ≡ c' = cc in
    let restored : VmConfiguration → VmConfigurationData =
      λ c. record (data_of c) { boot_source = d.boot_source; drives = d.drives } in
    sym (ap restored same) ∙ take_data-KeepsRest d m (ap (λ r. r.0) x)
