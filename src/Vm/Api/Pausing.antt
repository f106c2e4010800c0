-- ===== src/Vm/Api/Pausing.antt =====
-- What `api_pause`, `api_resume` and `api_create_snapshot` of src/vm/api.rs leave behind.
use mathlib.Core.Path.{subst}
use fctools.Base.{
  ◌≡◌, refl, sym, ap, ◌∙◌, Bool, true, false, Done, [], ◌∷◌, ◌++◌, some, ok, append-nil,
  if◌then◌else◌, arith,
}
use fctools.Base.Action.{bind-ok, bind-eq}
use fctools.Text.{txt}
use fctools.FilePath.{FilePath}
use fctools.Host.{Host}
use fctools.Models.{CreateSnapshot}
use fctools.Process
use fctools.Process.{inner_to_outer_path}
use fctools.Vm.Snapshot.{SnapshotData}
use fctools.Vm.Machine.{
  Json, Vm, VmState, not_started, running, paused, exited, crashed, state, state_eq, vm_state,
  ensure_state, state_body, paused_state, resumed_state, create_snapshot_body,
}
use fctools.Vm.Motion.{ensure_state-Follows, send-Follows}
use fctools.Vm.Api.Keeping.{Remains, remaining}
use fctools.Vm.Api.{
  send_api_request, api_pause, api_resume, api_create_snapshot, taken, snapshot_of, trace_files,
}

module _ (H : Host) (J : Json) where
  -- The state in which a call finds the virtual machine.
  abbrev pub found : Vm H × H.World → VmState H
  found s = vm_state H J (s.0.is_paused) (Process.state H (s.0.vmm_process, s.1)).1.0.state

  ensure_state-found :
      (expected : VmState H) (s : Vm H × H.World) {a : Done} {s' : Vm H × H.World}
      → ensure_state H J expected s ≡ (ok a, s')
      → state_eq H J (found s) expected ≡ true
  unfolding ensure_state state
  ensure_state-found expected s h = ground arith

  state_eq-running : (a : VmState H) → state_eq H J a running ≡ true → a ≡ running
  unfolding state_eq
  state_eq-running running e = refl
  state_eq-running paused e = absurd cc
  state_eq-running not_started e = absurd cc
  state_eq-running exited e = absurd cc
  state_eq-running (crashed x) e = absurd cc

  state_eq-paused : (a : VmState H) → state_eq H J a paused ≡ true → a ≡ paused
  unfolding state_eq
  state_eq-paused paused e = refl
  state_eq-paused running e = absurd cc
  state_eq-paused not_started e = absurd cc
  state_eq-paused exited e = absurd cc
  state_eq-paused (crashed x) e = absurd cc

  -- A pause that succeeds has found the virtual machine running, and leaves it marked as paused.
  pub api_pause-is_paused :
      (s : Vm H × H.World)
      → (api_pause H J s).0 ≡ ok tt
      → (found s ≡ running) × ((api_pause H J s).1.0.is_paused ≡ true)
  unfolding api_pause
  api_pause-is_paused s h =
      let (a, s₁, checked, h₁) = bind-ok (ensure_state H J running) _ s h in
      let request =
        send_api_request H J (txt "/vm") (txt "PATCH") (some (state_body paused_state)) in
      let (b, s₂, sent, h₂) = bind-ok request _ s₁ h₁ in
      (
        state_eq-running (found s) (ensure_state-found running s checked),
        ap (λ r. r.1.0.is_paused)
            (bind-eq (ensure_state H J running) _ s checked ∙ bind-eq request _ s₁ sent),
      )

  -- A resume that succeeds has found the virtual machine paused, and takes the mark off.
  pub api_resume-is_paused :
      (s : Vm H × H.World)
      → (api_resume H J s).0 ≡ ok tt
      → (found s ≡ paused) × ((api_resume H J s).1.0.is_paused ≡ false)
  unfolding api_resume
  api_resume-is_paused s h =
      let (a, s₁, checked, h₁) = bind-ok (ensure_state H J paused) _ s h in
      let request =
        send_api_request H J (txt "/vm") (txt "PATCH") (some (state_body resumed_state)) in
      let (b, s₂, sent, h₂) = bind-ok request _ s₁ h₁ in
      (
        state_eq-paused (found s) (ensure_state-found paused s checked),
        ap (λ r. r.1.0.is_paused)
            (bind-eq (ensure_state H J paused) _ s checked ∙ bind-eq request _ s₁ sent),
      )

  -- A snapshot of a virtual machine, with what the virtual machine remembers afterwards.
  abbrev pub Remembers : CreateSnapshot → Vm H → SnapshotData → Vm H → Type 0
  Remembers create v snapshot after =
      let outer = v.vmm_process.executor.inner_to_outer_path v.vmm_process.installation in
      (snapshot.snapshot_path ≡ outer create.snapshot_path)
      × (snapshot.mem_file_path ≡ outer create.mem_file_path)
      × (snapshot.configuration_data ≡ v.original_configuration_data)
      × (after.snapshot_traces
          ≡ v.snapshot_traces
            ++ (if v.executor_traceless
                then []
                else (outer create.snapshot_path ∷ outer create.mem_file_path ∷ [])))

  traced :
      (b : Bool) (snapshot_path mem_file_path : FilePath) (v : Vm H)
      → (trace_files H J b snapshot_path mem_file_path v).snapshot_traces
        ≡ v.snapshot_traces ++ (if b then [] else (snapshot_path ∷ mem_file_path ∷ []))
  traced true snapshot_path mem_file_path v = sym (append-nil v.snapshot_traces)
  traced false snapshot_path mem_file_path v = refl

  taken-Remembers :
      (create : CreateSnapshot) (t : Vm H × H.World) {snapshot : SnapshotData}
      → (taken H J create t).0 ≡ ok snapshot
      → Remembers create t.0 snapshot (taken H J create t).1.0
  unfolding inner_to_outer_path
  taken-Remembers create (v, w) {snapshot} h =
      let same : snapshot_of H J create v ≡ snapshot = ground arith in
      (
        ap (λ x. x.snapshot_path) (sym same),
        ap (λ x. x.mem_file_path) (sym same),
        ap (λ x. x.configuration_data) (sym same),
        traced v.executor_traceless _ _ v,
      )

  Remains-Remembers :
      (create : CreateSnapshot) (s t : Vm H × H.World) (snapshot : SnapshotData) (after : Vm H)
      → Remains H J s t
      → Remembers create t.0 snapshot after
      → Remembers create s.0 snapshot after
  Remains-Remembers create s t snapshot after
        ((executor, installation, spawner), original, traceless, traces) (x, y, z, u) =
      let outer : (p : FilePath)
          → t.0.vmm_process.executor.inner_to_outer_path t.0.vmm_process.installation p
            ≡ s.0.vmm_process.executor.inner_to_outer_path s.0.vmm_process.installation p =
        λ p. rw (executor, installation) refl in
      (
        x ∙ outer create.snapshot_path,
        y ∙ outer create.mem_file_path,
        z ∙ original,
        u ∙ rw (traces, traceless, outer create.snapshot_path, outer create.mem_file_path) refl,
      )

  -- A snapshot that is created was taken of a paused virtual machine. It has the paths at which the
  -- executor puts the two files that were asked for, outside of its jail, and the configuration that the
  -- virtual machine was prepared with. These two paths, and no others, are added to what the cleanup
  -- removes, unless the executor leaves no traces.
  pub api_create_snapshot-Remembers :
      (create : CreateSnapshot) (s : Vm H × H.World) {snapshot : SnapshotData}
      → (api_create_snapshot H J create s).0 ≡ ok snapshot
      → (found s ≡ paused) × Remembers create s.0 snapshot (api_create_snapshot H J create s).1.0
  unfolding api_create_snapshot remaining
  api_create_snapshot-Remembers create s {snapshot} h =
      let (a, s₁, checked, h₁) = bind-ok (ensure_state H J paused) _ s h in
      let request =
        send_api_request H J (txt "/snapshot/create") (txt "PUT")
          (some (create_snapshot_body create)) in
      let (b, s₂, sent, h₂) = bind-ok request _ s₁ h₁ in
      let M = remaining H J in
      let looked = subst (λ r. Remains H J s r.1) checked (ensure_state-Follows M paused s) in
      let asked =
        subst (λ r. Remains H J s₁ r.1) sent
          (send-Follows M (txt "/snapshot/create") (txt "PUT") (some (create_snapshot_body create))
            s₁) in
      let ended : api_create_snapshot H J create s ≡ taken H J create s₂ =
        bind-eq (ensure_state H J paused) _ s checked ∙ bind-eq request _ s₁ sent in
      (
        state_eq-paused (found s) (ensure_state-found paused s checked),
        subst (λ r. Remembers create s.0 snapshot r.1.0) (sym ended)
            (Remains-Remembers create s s₂ snapshot (taken H J create s₂).1.0
              (M.chain s s₁ s₂ looked asked) (taken-Remembers create s₂ h₂)),
      )
