-- ===== src/Vm/Lifecycle/Flags.antt =====
-- The calls of src/vm/api.rs that mark a virtual machine as paused or not, on the abstract machine.
use fctools.Base.{
  ◌≡◌, refl, sym, ap, ℕ, ◌≤◌, arith, Bool, true, false, not, ◌&&◌, Option, none, some, ◌⊎◌, inl,
  inr, Done, ok,
}
use fctools.Base.Action.{pure, ◌>>=◌, ◌>>◌, fail_if}
use fctools.Base.Moving.{Moves, bind_from}
use fctools.Text.{Text, txt}
use fctools.FilePath.{FilePath}
use fctools.Host.{Host, Request}
use fctools.Process.{VmmProcessState, awaiting_prepare, awaiting_start, started, exited, crashed}
use fctools.Process.Socket
use fctools.Process.Invariant.{stage, IsSound}
use fctools.Models.{CreateSnapshot}
use fctools.Vm.Machine.{
  Json, Vm, VmState, VmAction, on_process, update_vm, state, state_eq, vm_state, ensure_state,
  ensure_paused_or_running, expected_state, state_body, paused_state, resumed_state,
  create_snapshot_body,
}
use fctools.Vm.Machine
use fctools.Vm.Api.{
  send_api_request, api_custom_request, api_pause, api_resume, api_create_snapshot, taken,
  trace_files,
}
use fctools.Vm.Motion.{
  VmWorld, bind, ensure_state-Follows, ensure_paused_or_running-Follows, send-Follows,
}
use fctools.Vm.Lifecycle.{
  Life, Kind, pausing, resuming, asking, Course, here, along, pauses, resumes, life_of, life,
  IsSoundVm, IsSoundVm-zero, Refines, Refines-chain, following,
}

fail_if-ok :
    {S E : Type 0} (test : Bool) (e : E) (s t : S) {a : Done}
    → fail_if test e s ≡ (ok a, t)
    → (test ≡ false) × (s ≡ t)
fail_if-ok true e s t h = cc
fail_if-ok false e s t h = (refl, ap (λ r. r.1) h)

true_of_not : (b : Bool) → not b ≡ false → b ≡ true
true_of_not true h = refl
true_of_not false h = cc

either_of_and : (b c : Bool) → (not b && not c) ≡ false → (b ≡ true) ⊎ (c ≡ true)
either_of_and true c h = inl refl
either_of_and false true h = inr refl
either_of_and false false h = cc

module _ (H : Host) (J : Json) where
  -- The state in which a look finds the process.
  abbrev seen : VmWorld H → VmmProcessState H
  seen s = (state H J s).1.0.vmm_process.state

  two_if_eq :
      (expected : VmState H) (b : Bool) (st : VmmProcessState H)
      → (expected ≡ Machine.running) ⊎ (expected ≡ Machine.paused)
      → state_eq H J (vm_state H J b st) expected ≡ true
      → 2 ≤ stage H st
  unfolding state_eq
  two_if_eq expected b awaiting_prepare (inl x) e = absurd (ground arith)
  two_if_eq expected b awaiting_start (inl x) e = absurd (ground arith)
  two_if_eq expected b awaiting_prepare (inr x) e = absurd (ground arith)
  two_if_eq expected b awaiting_start (inr x) e = absurd (ground arith)
  two_if_eq expected b started x e = omega arith
  two_if_eq expected b exited x e = omega arith
  two_if_eq expected b (crashed y) x e = omega arith

  pub live_found :
      (expected : VmState H) (s t : VmWorld H) {a : Done}
      → (expected ≡ Machine.running) ⊎ (expected ≡ Machine.paused)
      → ensure_state H J expected s ≡ (ok a, t)
      → 2 ≤ stage H t.0.vmm_process.state
  unfolding ensure_state state
  live_found expected s t which h =
      let (test, same) = fail_if-ok _ _ _ _ h in
      let live : 2 ≤ stage H (seen s) =
        two_if_eq expected s.0.is_paused (seen s) which (true_of_not _ test) in
      rw (sym (ap (λ r. r.0.vmm_process.state) same)) live

  pub live_checked :
      (s t : VmWorld H) {a : Done}
      → ensure_paused_or_running H J s ≡ (ok a, t)
      → 2 ≤ stage H t.0.vmm_process.state
  unfolding ensure_paused_or_running state
  live_checked s t h =
      let (test, same) = fail_if-ok _ _ _ _ h in
      let live : 2 ≤ stage H (seen s) = elim (either_of_and _ _ test) [
        | inl e ↦ two_if_eq Machine.running s.0.is_paused (seen s) (inl refl) e
        | inr e ↦ two_if_eq Machine.paused s.0.is_paused (seen s) (inr refl) e
      ] in
      rw (sym (ap (λ r. r.0.vmm_process.state) same)) live

  pause-Course :
      (b : Bool) (st : VmmProcessState H)
      → 2 ≤ stage H st
      → Course pausing (life_of H b st) (life_of H true st)
  pause-Course b awaiting_prepare h = absurd (omega arith)
  pause-Course b awaiting_start h = absurd (omega arith)
  pause-Course true started h = here Life.paused
  pause-Course false started h =
      along Life.running Life.running Life.paused (here Life.running) pauses
  pause-Course b exited h = here Life.ended
  pause-Course b (crashed x) h = here Life.ended

  resume-Course :
      (b : Bool) (st : VmmProcessState H) → Course resuming (life_of H b st) (life_of H false st)
  resume-Course b awaiting_prepare = here Life.prepared
  resume-Course b awaiting_start = here Life.prepared
  resume-Course true started = along Life.paused Life.paused Life.running (here Life.paused) resumes
  resume-Course false started = here Life.running
  resume-Course b exited = here Life.ended
  resume-Course b (crashed x) = here Life.ended

  raise : (v : Vm H) → 2 ≤ stage H v.vmm_process.state → IsSoundVm H 0 v → IsSoundVm H 2 v
  unfolding IsSoundVm IsSound
  raise v live ((phase, path, low), flag) = ((phase, path, live), flag)

  -- After a look that finds the machine alive, what follows may use it.
  pub alive_then :
      {A : Type 0} (kind : Kind) (look : VmAction H J Done) (m : VmAction H J A)
      → Moves (Refines H kind 0) look
      → ((s t : VmWorld H) (a : Done) → look s ≡ (ok a, t) → 2 ≤ stage H t.0.vmm_process.state)
      → Moves (Refines H kind 2) m
      → Moves (Refines H kind 0) (look >> m)
  alive_then kind look m looks live h s =
      bind_from (Refines H kind 0) (Refines-chain H kind 0) look (λ a. m) s (looks s)
        (λ a t e sound.
          let (sound', course) = h t (raise t.0 (live s t a e) sound) in
          (IsSoundVm-zero H 2 (m t).1.0 sound', course))

  mark_paused : Moves (Refines H pausing 2) (update_vm H J (λ v. record v { is_paused = true }))
  unfolding IsSoundVm IsSound life
  mark_paused (v, w) ((phase, path, low), flag) =
      (((phase, path, low), λ e. low), pause-Course v.is_paused v.vmm_process.state low)

  mark_resumed :
      (n : ℕ) → Moves (Refines H resuming n) (update_vm H J (λ v. record v { is_paused = false }))
  unfolding IsSoundVm life
  mark_resumed n (v, w) (sound, flag) =
      ((sound, λ e. cc), resume-Course v.is_paused v.vmm_process.state)

  pub api_pause-Refines : Moves (Refines H pausing 0) (api_pause H J)
  unfolding api_pause following
  api_pause-Refines =
      let send = send_api_request H J (txt "/vm") (txt "PATCH") (some (state_body paused_state)) in
      let mark = update_vm H J (λ v. record v { is_paused = true }) in
      alive_then pausing (ensure_state H J Machine.running) (send >>= λ a. mark)
        (ensure_state-Follows (following H J pausing 0) Machine.running)
        (λ s t a e. live_found Machine.running s t (inl refl) e)
        (bind (following H J pausing 2) send (λ a. mark)
          (send-Follows (following H J pausing 2) (txt "/vm") (txt "PATCH")
            (some (state_body paused_state)))
          (λ a. mark_paused))

  pub api_resume-Refines : Moves (Refines H resuming 0) (api_resume H J)
  unfolding api_resume following
  api_resume-Refines =
      let send = send_api_request H J (txt "/vm") (txt "PATCH") (some (state_body resumed_state)) in
      let mark = update_vm H J (λ v. record v { is_paused = false }) in
      let F = following H J resuming 0 in
      bind F (ensure_state H J Machine.paused) (λ a. send >>= λ b. mark)
        (ensure_state-Follows F Machine.paused)
        (λ a.
          bind F send (λ b. mark)
            (send-Follows F (txt "/vm") (txt "PATCH") (some (state_body resumed_state)))
            (λ b. mark_resumed 0))

  -- The kind of a custom request: it may set the mark.
  abbrev pub custom_kind : Option Bool → Kind
  custom_kind none = asking
  custom_kind (some true) = pausing
  custom_kind (some false) = resuming

  abbrev set_mark : Option Bool → VmAction H J Done
  set_mark new_is_paused = elim new_is_paused [
    | none ↦ pure tt
    | some is_paused ↦ update_vm H J (λ v. record v { is_paused = is_paused })
  ]

  mark-Refines :
      (new_is_paused : Option Bool)
      → Moves (Refines H (custom_kind new_is_paused) 2) (set_mark new_is_paused)
  mark-Refines none s = λ sound. (sound, here (life H s.0))
  mark-Refines (some true) s = mark_paused s
  mark-Refines (some false) s = mark_resumed 2 s

  pub custom-Refines :
      (route : Text) (request : Request) (new_is_paused : Option Bool)
      → Moves
          (Refines H (custom_kind new_is_paused) 0)
          (api_custom_request H J route request new_is_paused)
  unfolding api_custom_request following
  custom-Refines route request new_is_paused =
      let kind = custom_kind new_is_paused in
      let send = on_process H J (Socket.send_api_request H route request) in
      let answered : H.Response → VmAction H J H.Response =
        λ response. set_mark new_is_paused >>= λ a. pure response in
      alive_then kind (ensure_paused_or_running H J) (send >>= answered)
        (ensure_paused_or_running-Follows (following H J kind 0)) (λ s t a e. live_checked s t e)
        (bind (following H J kind 2) send answered ((following H J kind 2).asks route request)
          (λ response.
            bind (following H J kind 2) (set_mark new_is_paused) (λ a. pure response)
              (mark-Refines new_is_paused) (λ a s sound. (sound, here (life H s.0)))))

  traced :
      (create : CreateSnapshot) (b : Bool) (v : Vm H) (w : H.World) (p q : FilePath)
      → Refines H asking 0 (v, w) (trace_files H J b p q v, w)
  unfolding IsSoundVm life
  traced create true v w p q sound = (sound, here (life H v))
  traced create false v w p q sound = (sound, here (life H v))

  pub create_snapshot-Refines :
      (create : CreateSnapshot) → Moves (Refines H asking 0) (api_create_snapshot H J create)
  unfolding api_create_snapshot following
  create_snapshot-Refines create =
      let F = following H J asking 0 in
      let send =
        send_api_request H J (txt "/snapshot/create") (txt "PUT")
          (some (create_snapshot_body create)) in
      bind F (ensure_state H J Machine.paused) (λ a. send >>= λ b. taken H J create)
        (ensure_state-Follows F Machine.paused)
        (λ a.
          bind F send (λ b. taken H J create)
            (send-Follows F (txt "/snapshot/create") (txt "PUT")
              (some (create_snapshot_body create)))
            (λ b s. traced create s.0.executor_traceless s.0 s.1 _ _))
