-- ===== src/Vm/Prepare/Laws.antt =====
-- What `prepare_arced` of src/vm/mod.rs hands out when it succeeds.
use mathlib.Core.Path.{subst}
use fctools.Base.{◌≡◌, refl, sym, ap, ◌∙◌, Done, Bool, true, false, some, [], ok}
use fctools.Base.Action.{fail_if, bind-ok}
use fctools.FilePath.Table.{PathTable}
use fctools.Host.{Host}
use fctools.ShellSpawner.{ShellSpawner}
use fctools.Executor.{VmmExecutor, VmmInstallation}
use fctools.Process.{VmmProcess, awaiting_start, new_arced}
use fctools.Vm.Configuration.{VmConfiguration, data_of}
use fctools.Vm.Machine.{Json, Vm, VmError, AccessiblePaths}
use fctools.Vm.Mappings.{outer_paths_of, map_configuration}
use fctools.Vm.Mappings.Laws.{Names, map_configuration-Names}
use fctools.Vm.Mappings.Rest.{KeepsRest, map_configuration-KeepsRest}
use fctools.Vm.Lifecycle.{prepared, life, IsSoundVm}
use fctools.Vm.Prepare.{make_accessible, mapped, prepared_process, is_absent, prepare_arced}
use fctools.Vm.Prepare.Made.{table_of, process_made}
use fctools.Vm.Prepare.Places.{Accessible, accessible_of-Accessible}
use fctools.Vm.Prepare.Accessible.{make_accessible-ok}

module _ (H : Host) (J : Json) where
  -- What `prepare_arced` promises of the machine that it returns.
  abbrev pub IsPrepared :
      VmmExecutor H → ShellSpawner H → VmmInstallation → VmConfiguration → H.World → Vm H → Type 0
  IsPrepared executor spawner installation configuration w v =
      IsSoundVm H 0 v
      × (life H v ≡ prepared)
      × (v.original_configuration_data ≡ data_of configuration)
      × ((v.vmm_process.executor ≡ executor)
          × (v.vmm_process.shell_spawner ≡ spawner)
          × (v.vmm_process.installation ≡ installation)
          × (v.executor_traceless ≡ executor.traceless)
          × (v.snapshot_traces ≡ []))
      × ((configuration' : VmConfiguration) × (path_mappings : PathTable) × (v.configuration
            ≡ some configuration')
          × ((executor.prepare installation spawner (outer_paths_of configuration) w).0
              ≡ ok path_mappings)
          × Names path_mappings (outer_paths_of configuration) (outer_paths_of configuration')
          × KeepsRest (data_of configuration) (data_of configuration')
          × Accessible (executor.inner_to_outer_path installation) (data_of configuration')
              v.accessible_paths)

  abbrev made_of : Bool → VmConfiguration → VmConfiguration → VmmProcess H → AccessiblePaths → Vm H
  made_of executor_traceless configuration configuration' p paths = record {
    vmm_process = p;
    is_paused = false;
    original_configuration_data = data_of configuration;
    configuration = some configuration';
    accessible_paths = paths;
    executor_traceless = executor_traceless;
    snapshot_traces = [];
  }

  passed :
      (test : Bool) (e : VmError H J) (w w' : H.World) {a : Done}
      → fail_if test e w ≡ (ok a, w')
      → w ≡ w'
  passed true e w w' h = absurd cc
  passed false e w w' h = ap (λ r. r.1) h

  life_waits : (v : Vm H) → v.vmm_process.state ≡ awaiting_start → life H v ≡ prepared
  unfolding life
  life_waits v e = rw e refl

  -- A machine that could be prepared is sound and waits for its start. It belongs to the given executor,
  -- spawner and installation, and keeps the given data as the original. The executor was asked to prepare
  -- the resources that the configuration names, and answered with a table. The machine's configuration
  -- has other data than the given one in the boot source and the drives only, and names the same resources
  -- by the paths that this table gives them. Its accessible paths are the outer paths, by the executor and
  -- the installation, of the log, the metrics file, the vsock and the drives' sockets that this
  -- configuration has, of two sockets for one drive id the later one, without listeners.
  pub prepare_arced-IsPrepared :
      (executor : VmmExecutor H) (spawner : ShellSpawner H) (installation : VmmInstallation)
      (configuration : VmConfiguration) (w : H.World) {v : Vm H}
      → (prepare_arced H J executor spawner installation configuration w).0 ≡ ok v
      → IsPrepared executor spawner installation configuration w v
  unfolding prepare_arced IsSoundVm new_arced
  prepare_arced-IsPrepared executor spawner installation configuration w {v = v} e =
      let paths = outer_paths_of configuration in
      let made = new_arced H executor spawner installation paths in
      let absent = is_absent H J (executor.get_socket_path installation) in
      let (a, w0, x0, y0) = bind-ok (fail_if absent _) _ w e in
      let ((m, q), w1, x1, y1) = bind-ok (prepared_process H J made) _ w0 y0 in
      let (sound, waits, answered, changed) =
        process_made H J executor spawner installation paths w0 w1 m q x1 in
      let (c, w2, x2, y2) = bind-ok (mapped H J configuration m) _ w1 y1 in
      let (accessible, w3, x3, y3) = bind-ok (make_accessible H J q (data_of c)) _ w2 y2 in
      let found = table_of H J (map_configuration configuration m).0 c (ap (λ r. r.0) x2) in
      let access = make_accessible-ok H J q (data_of c) w2 (ap (λ r. r.0) x3) in
      let same : made_of executor.traceless configuration c q accessible ≡ v = cc in
      rw (sym same) (
        (
          (sound, λ b. cc),
          life_waits (made_of executor.traceless configuration c q accessible) waits,
          refl,
          (
            ap (λ p. p.executor) changed,
            ap (λ p. p.shell_spawner) changed,
            ap (λ p. p.installation) changed,
            refl,
            refl,
          ),
          (
            c,
            m,
            refl,
            ap (λ w. (executor.prepare installation spawner paths w).0) (passed absent _ w w0 x0)
                ∙ answered,
            map_configuration-Names configuration m found,
            map_configuration-KeepsRest configuration m found,
            subst (λ outer. Accessible outer (data_of c) accessible)
                (ap (λ p. p.executor.inner_to_outer_path p.installation) changed)
                (subst (Accessible (q.executor.inner_to_outer_path q.installation) (data_of c))
                  access (accessible_of-Accessible H J q (data_of c))),
          ),
        ))
