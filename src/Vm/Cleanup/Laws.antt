-- ===== src/Vm/Cleanup/Laws.antt =====
-- Which files `Vm::cleanup` of src/vm/mod.rs removes.
use mathlib.Core.Path.{subst}
use fctools.Base.{
  Bool, true, ◌≡◌, refl, sym, ap, ◌∙◌, Done, false, Option, none, some, List, [], ◌∷◌, ◌++◌, ok, ℕ,
  suc,
}
use fctools.Base.Action.{bind-ok, bind-eq}
use fctools.FilePath.{FilePath}
use fctools.Host.{Host}
use fctools.Process
use fctools.Process.{VmmProcessState, awaiting_prepare, awaiting_start, started}
use fctools.Vm.Machine.{
  Json, Vm, VmState, not_started, running, paused, exited, crashed, AccessiblePaths, on_process,
  vm_state, state, ensure_exited_or_crashed, check_exited_or_crashed,
}
use fctools.Vm.Cleanup.{
  JoinSet, spawn_remove, spawn_optional, spawn_each, spawn_vsock, spawn_popped, join_ignored,
  spawn_removals, remove_traces, cleanup,
}

abbrev pub listed : Option FilePath → List FilePath
listed none = []
listed (some path) = path ∷ []

abbrev pub newest_first : List FilePath → List FilePath
newest_first [] = []
newest_first (path ∷ paths) = newest_first paths ++ (path ∷ [])

abbrev pub vsock_files : Option FilePath → List FilePath → List FilePath
vsock_files none listener_paths = []
vsock_files (some multiplexer_path) listener_paths = multiplexer_path ∷ listener_paths

-- The log, the metrics, the sockets of the vsock device, and the snapshots from the newest.
abbrev pub files_of : AccessiblePaths → List FilePath → List FilePath
files_of paths snapshot_traces =
    listed paths.log_path
    ++ (listed paths.metrics_path
        ++ (vsock_files paths.vsock_multiplexer_path paths.vsock_listener_paths
            ++ newest_first snapshot_traces))

module _ (H : Host) where
  -- How many tasks there are, and the world, when a task was spawned for the removal of each file.
  abbrev pub removing : List FilePath → ℕ × H.World → ℕ × H.World
  removing [] t = t
  removing (path ∷ paths) (tasks, w) =
      removing paths (suc tasks, H.spawn_blocking (H.remove_file path) w)

  each-removing : (xs : List FilePath) (t : JoinSet H) → spawn_each H xs t ≡ removing xs t
  unfolding spawn_each
  each-removing [] t = refl
  each-removing (x ∷ xs) (tasks, w) =
      each-removing xs (suc tasks, H.spawn_blocking (H.remove_file x) w)

  spawn_each-append :
      (xs ys : List FilePath) (t : JoinSet H)
      → spawn_each H (xs ++ ys) t ≡ spawn_each H ys (spawn_each H xs t)
  unfolding spawn_each
  spawn_each-append [] ys t = refl
  spawn_each-append (x ∷ xs) ys t = spawn_each-append xs ys (spawn_remove H x t)

  spawn_popped-each :
      (xs : List FilePath) (t : JoinSet H) → spawn_popped H xs t ≡ spawn_each H (newest_first xs) t
  unfolding spawn_popped spawn_each
  spawn_popped-each [] t = refl
  spawn_popped-each (x ∷ xs) t =
      ap (spawn_remove H x) (spawn_popped-each xs t)
      ∙ sym (spawn_each-append (newest_first xs) (x ∷ []) t)

  optional-each :
      (o : Option FilePath) (t : JoinSet H) → spawn_optional H o t ≡ spawn_each H (listed o) t
  unfolding spawn_each
  optional-each none t = refl
  optional-each (some x) t = refl

  vsock-each :
      (o : Option FilePath) (xs : List FilePath) (t : JoinSet H)
      → spawn_vsock H o xs t ≡ spawn_each H (vsock_files o xs) t
  unfolding spawn_each
  vsock-each none xs t = refl
  vsock-each (some x) xs t = refl

  removals-each :
      (paths : AccessiblePaths) (traces : List FilePath) (t : JoinSet H)
      → spawn_removals H paths traces t ≡ spawn_each H (files_of paths traces) t
  unfolding spawn_removals
  removals-each paths traces t =
      let log = listed paths.log_path in
      let metrics = listed paths.metrics_path in
      let vsock = vsock_files paths.vsock_multiplexer_path paths.vsock_listener_paths in
      let t₁ = spawn_optional H paths.log_path t in
      let t₂ = spawn_optional H paths.metrics_path t₁ in
      spawn_popped-each traces
        (spawn_vsock H paths.vsock_multiplexer_path paths.vsock_listener_paths t₂)
      ∙ ap (spawn_each H (newest_first traces))
          (vsock-each paths.vsock_multiplexer_path paths.vsock_listener_paths t₂)
      ∙ sym (spawn_each-append vsock (newest_first traces) t₂)
      ∙ ap (spawn_each H (vsock ++ newest_first traces)) (optional-each paths.metrics_path t₁)
      ∙ sym (spawn_each-append metrics (vsock ++ newest_first traces) t₁)
      ∙ ap (spawn_each H (metrics ++ (vsock ++ newest_first traces)))
          (optional-each paths.log_path t)
      ∙ sym (spawn_each-append log (metrics ++ (vsock ++ newest_first traces)) t)

module _ (H : Host) (J : Json) where
  check_keeps :
      (current : VmState H) (s : Vm H × H.World) → (check_exited_or_crashed H J current s).1 ≡ s
  check_keeps not_started s = refl
  check_keeps running s = refl
  check_keeps paused s = refl
  check_keeps exited s = refl
  check_keeps (crashed x) s = refl

  -- The child has been found to have ended, with success or without.
  abbrev pub HasEnded : VmmProcessState H → Type 0
  HasEnded VmmProcessState.exited = Unit
  HasEnded (VmmProcessState.crashed x) = Unit
  HasEnded st = ⊥

  check_inv :
      (b : Bool) (st : VmmProcessState H) (s t : Vm H × H.World) {a : Done}
      → check_exited_or_crashed H J (vm_state H J b st) s ≡ (ok a, t)
      → HasEnded st × (s ≡ t)
  check_inv true awaiting_prepare s t h = absurd cc
  check_inv true awaiting_start s t h = absurd cc
  check_inv true started s t h = absurd cc
  check_inv false awaiting_prepare s t h = absurd cc
  check_inv false awaiting_start s t h = absurd cc
  check_inv false started s t h = absurd cc
  check_inv true VmmProcessState.exited s t h = (tt, ap (λ r. r.1) h)
  check_inv true (VmmProcessState.crashed x) s t h = (tt, ap (λ r. r.1) h)
  check_inv false VmmProcessState.exited s t h = (tt, ap (λ r. r.1) h)
  check_inv false (VmmProcessState.crashed x) s t h = (tt, ap (λ r. r.1) h)

  ensured_ended :
      (s t : Vm H × H.World) {a : Done}
      → ensure_exited_or_crashed H J s ≡ (ok a, t)
      → HasEnded t.0.vmm_process.state
  unfolding ensure_exited_or_crashed state
  ensured_ended s t h =
      let (ended, same) = check_inv s.0.is_paused _ (state H J s).1 t h in
      subst (λ x. HasEnded x.0.vmm_process.state) same ended

  -- What does not depend on the process stays as it is.
  module _ {X : Type 0} (f : Vm H → X)
      (same : (v : Vm H) (p : Process.VmmProcess H) → f (record v { vmm_process = p }) ≡ f v) where
    ensure_keeps :
        (s t : Vm H × H.World) {a : Done}
        → ensure_exited_or_crashed H J s ≡ (ok a, t)
        → f t.0 ≡ f s.0
    unfolding ensure_exited_or_crashed state
    ensure_keeps s t h =
        sym (ap (λ r. f r.1.0) h) ∙ ap (λ x. f x.0) (check_keeps _ (state H J s).1) ∙ same s.0 _

    process_keeps :
        (m : Process.ProcessAction H Done) (s t : Vm H × H.World) {a : Done}
        → on_process H J m s ≡ (ok a, t)
        → f t.0 ≡ f s.0
    process_keeps m s t h = sym (ap (λ r. f r.1.0) h) ∙ same s.0 _

    both_keep :
        (s t u : Vm H × H.World) {a b : Done}
        → ensure_exited_or_crashed H J s ≡ (ok a, t)
        → on_process H J (Process.cleanup H) t ≡ (ok b, u)
        → f u.0 ≡ f s.0
    both_keep s t u h k = process_keeps (Process.cleanup H) t u k ∙ ensure_keeps s t h

  -- A cleanup that succeeds, with an executor that leaves traces, has found the child ended, with success
  -- or without. It has then, after the process was cleaned up, spawned one task for the removal of each of
  -- these files, in this order: the log, the metrics, the sockets of the vsock device, and the snapshots
  -- from the newest. It has joined the tasks, and forgets the snapshots.
  pub cleanup-removes :
      (s : Vm H × H.World)
      → (cleanup H J s).0 ≡ ok tt
      → s.0.executor_traceless ≡ false
      → (t : Vm H × H.World) × (ensure_exited_or_crashed H J s ≡ (ok tt, t))
        × HasEnded t.0.vmm_process.state
        × ((cleanup H J s).1.1
            ≡ join_ignored H (
                removing H
                  (files_of s.0.accessible_paths s.0.snapshot_traces)
                  (0, (Process.cleanup H (t.0.vmm_process, t.1)).1.1)))
        × ((cleanup H J s).1.0.snapshot_traces ≡ [])
  unfolding cleanup
  cleanup-removes s h traced =
      let (a, t, checked, h₁) = bind-ok (ensure_exited_or_crashed H J) _ s h in
      let clean = on_process H J (Process.cleanup H) in
      let (b, u, cleaned, h₂) = bind-ok clean _ t h₁ in
      let ended : cleanup H J s ≡ remove_traces H J false u =
        bind-eq (ensure_exited_or_crashed H J) _ s checked
        ∙ bind-eq clean _ t cleaned
        ∙ ap (λ b. remove_traces H J b u)
            (both_keep (λ v. v.executor_traceless) (λ v p. refl) s t u checked cleaned ∙ traced) in
      (
        t,
        checked,
        ensured_ended s t checked,
        ap (λ r. r.1.1) ended
            ∙ ap (join_ignored H) (
                removals-each H u.0.accessible_paths u.0.snapshot_traces (0, u.1)
                ∙ ap (λ p. spawn_each H (files_of p u.0.snapshot_traces) (0, u.1))
                    (both_keep (λ v. v.accessible_paths) (λ v p. refl) s t u checked cleaned)
                ∙ ap (λ p. spawn_each H (files_of s.0.accessible_paths p) (0, u.1))
                    (both_keep (λ v. v.snapshot_traces) (λ v p. refl) s t u checked cleaned)
                ∙ ap (λ w. spawn_each H (files_of s.0.accessible_paths s.0.snapshot_traces) (0, w))
                    (sym (ap (λ r. r.1.1) cleaned))
                ∙ each-removing H (files_of s.0.accessible_paths s.0.snapshot_traces) _),
        ap (λ r. r.1.0.snapshot_traces) ended,
      )
