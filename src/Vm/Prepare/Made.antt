-- ===== src/Vm/Prepare/Made.antt =====
-- The process and the table that `prepare_arced` of src/vm/mod.rs gets.
use fctools.Base.{◌∙◌, ◌≡◌, refl, none, sym, ap, arith, List, Outcome, ok, err, panic, map_err}
use fctools.Base.Action.{Action, bind-ok, bind-eq}
use fctools.Base.Triples.{Ends, Triple, bind_triple, Ends-ok}
use fctools.FilePath.{FilePath}
use fctools.FilePath.Table.{PathTable}
use fctools.Host.{Host}
use fctools.ShellSpawner.{ShellSpawner}
use fctools.Executor.{VmmExecutor, VmmExecutorError, VmmInstallation}
use fctools.Process.{
  VmmProcess, VmmProcessError, executor_error, state, update_state, state_eq, awaiting_prepare,
  awaiting_start, ProcessState, ProcessAction, new_arced, get_socket_path, inner_to_outer_path,
  ensure_state, take_outer_paths, executor_call, update_process,
}
use fctools.Process
use fctools.Process.Invariant.{IsSound, Kept}
use fctools.Process.Operations.{prepare_triple}
use fctools.Vm.Configuration.{VmConfiguration}
use fctools.Vm.Machine.{Json, VmError, missing_path_mapping}
use fctools.Vm.Mappings.{MissingPathMapping}
use fctools.Vm.Prepare.{with_process, prepared_process}

map_err_inv : {E F A : Type 0} (f : E → F) (r : Outcome E A) {a : A} → map_err f r ≡ ok a → r ≡ ok a
map_err_inv f (ok x) h = cc
map_err_inv f (err x) h = cc
map_err_inv f panic h = cc

module _ (H : Host) where
  abbrev Always : ProcessState H → Type 0
  Always s = Unit

  any_Ends :
      {A : Type 0} (r : Outcome (VmmProcessError H) A × ProcessState H)
      → Ends Always Always (λ a s. Unit) r
  unfolding Ends
  any_Ends (ok a, s) = tt
  any_Ends (err e, s) = tt
  any_Ends (panic, s) = tt

  any_end : {A : Type 0} (m : ProcessAction H A) → Triple Always Always Always m (λ a s. Unit)
  any_end m s h = any_Ends (m s)

  -- A prepared process waits for its start.
  prepare-state :
      Triple Always Always Always (Process.prepare H) (λ m s. s.0.state ≡ awaiting_start)
  unfolding Process.prepare Ends
  prepare-state =
      bind_triple Always Always (λ a s. Unit) _ (ensure_state H awaiting_prepare) _
        (any_end (ensure_state H awaiting_prepare))
        (λ a.
          bind_triple Always Always (λ a s. Unit) _ (take_outer_paths H) _
            (any_end (take_outer_paths H))
            (λ paths.
              bind_triple Always Always (λ a s. Unit) _
                (executor_call H (λ p. p.executor.prepare p.installation p.shell_spawner paths)) _
                (any_end
                  (executor_call H (λ p. p.executor.prepare p.installation p.shell_spawner paths)))
                (λ m s h. refl)))

  pub new_arced-IsSound :
      (executor : VmmExecutor H) (spawner : ShellSpawner H) (installation : VmmInstallation)
      (paths : List FilePath)
      → IsSound H 0 (new_arced H executor spawner installation paths)
  unfolding IsSound new_arced get_socket_path
  new_arced-IsSound executor spawner installation paths = ((refl, refl), refl, omega arith)

  outside_inv :
      {A : Type 0} (m : Action H.World (VmmExecutorError H) A) (s : ProcessState H) {a : A}
      {t : ProcessState H}
      → executor_call H (λ p. m) s ≡ (ok a, t)
      → ((m s.1).0 ≡ ok a) × (t.0 ≡ s.0)
  outside_inv m s h =
      (map_err_inv executor_error (m s.1).0 (ap (λ r. r.0) h), ap (λ r. r.1.0) (sym h))

  -- A new process that could be prepared has asked its executor for the given paths, and is changed in
  -- its state only.
  pub new_arced-prepared :
      (executor : VmmExecutor H) (spawner : ShellSpawner H) (installation : VmmInstallation)
      (paths : List FilePath) (w : H.World) {m : PathTable}
      → let made = new_arced H executor spawner installation paths in
        (Process.prepare H (made, w)).0 ≡ ok m
        → ((executor.prepare installation spawner paths w).0 ≡ ok m)
          × ((Process.prepare H (made, w)).1.0
              ≡ record made { outer_paths = none; state = awaiting_start })
  unfolding Process.prepare ensure_state state update_state state_eq take_outer_paths new_arced
  new_arced-prepared executor spawner installation paths w {m} h =
      let taken : ProcessState H =
        (record (new_arced H executor spawner installation paths) { outer_paths = none }, w) in
      let asked = executor_call H (λ p. p.executor.prepare p.installation p.shell_spawner paths) in
      let (a, t, x, y) = bind-ok asked _ taken h in
      let (answered, kept) = outside_inv (executor.prepare installation spawner paths) taken x in
      let same : a ≡ m = ground arith in
      (
        answered ∙ ap ok same,
        ap (λ r. r.1.0) (bind-eq asked _ taken x)
            ∙ ap {A = VmmProcess H} (λ p. record p { state = awaiting_start }) kept,
      )

module _ (H : Host) (J : Json) where
  process_of :
      (r : Outcome (VmmProcessError H) PathTable) (q q' : VmmProcess H) (m : PathTable)
      → with_process H J r q ≡ ok (m, q')
      → (r ≡ ok m) × (q ≡ q')
  process_of (ok a) q q' m e = (cc, cc)
  process_of (err x) q q' m e = cc
  process_of panic q q' m e = cc

  pub table_of :
      (r : Outcome MissingPathMapping VmConfiguration) (c : VmConfiguration)
      → map_err {F = VmError H J} (λ e. missing_path_mapping) r ≡ ok c
      → r ≡ ok c
  table_of (ok a) c e = cc
  table_of (err x) c e = cc
  table_of panic c e = cc

  module _ (executor : VmmExecutor H) (spawner : ShellSpawner H) (installation : VmmInstallation)
      (paths : List FilePath) where
    abbrev made : VmmProcess H
    made = new_arced H executor spawner installation paths

    -- The process that was made, with its table, which is the executor's.
    pub process_made :
        (w w' : H.World) (m : PathTable) (q : VmmProcess H)
        → prepared_process H J made w ≡ (ok (m, q), w')
        → IsSound H 0 q
          × (q.state ≡ awaiting_start)
          × ((executor.prepare installation spawner paths w).0 ≡ ok m)
          × (q ≡ record made { outer_paths = none; state = awaiting_start })
    unfolding Ends
    process_made w w' m q e =
        let s : ProcessState H = (made, w) in
        let sound = new_arced-IsSound H executor spawner installation paths in
        let (done, same) =
          process_of (Process.prepare H s).0 (Process.prepare H s).1.0 q m (ap (λ r. r.0) e) in
        let kept = Ends-ok _ _ (Kept H 0) (Process.prepare H s) (prepare_triple H 0 s sound) done in
        let waits =
          Ends-ok _ _ (λ m s. s.0.state ≡ awaiting_start) (Process.prepare H s)
            (prepare-state H s tt) done in
        let (answered, changed) = new_arced-prepared H executor spawner installation paths w done in
        (rw (sym same) kept, rw (sym same) waits, answered, sym same ∙ changed)
