-- ===== src/Vm/Shutdown/Killing.antt =====
-- A `kill` in `Vm::shutdown` of src/vm/mod.rs, on a host whose processes end when they are killed.
use fctools.Base.{
  ◌≡◌, refl, ap, ◌∙◌, Bool, true, false, not, ◌&&◌, none, some, [], ◌∷◌, inr, Done, Outcome, ok,
  err, panic, map_err,
}
use fctools.Base.Action.{fail_if, bind-eq}
use fctools.Host.{Host}
use fctools.Process.{
  VmmProcess, VmmProcessState, VmmProcessError, started, exited, ProcessState, ProcessAction,
  outside, observed, exit_state, poll, update_state, state_eq, expected_state, ensure_state,
  child_ref, expect_child, set_child, send_sigkill, wait_for_exit, sigkill_failed, wait_failed,
}
use fctools.Process
use fctools.Process.Killing.{
  HasHandle, Lives, Dies, IsKilled, IsAwaited, IsDead, polled, sigkilled, waited,
}
use fctools.Vm.Machine.{
  Json, Vm, VmError, VmAction, on_process, process_error, ensure_paused_or_running,
}
use fctools.Vm.Machine
use fctools.Vm.Lifecycle.{ended, life}
use fctools.Vm.Shutdown.{
  kill, in_time, wait_until, wait_with_timeout, apply_method, attempt, break_if_ok, shutdown_loop,
  shutdown,
}

module _ (H : Host) (h : H.Handle) where
  module _ (alive dying dead : H.World → Type 0)
      (lives : (w : H.World) → alive w → Lives H h alive w)
      (killed : (w : H.World) → alive w → IsKilled H h dying w)
      (dies : (w : H.World) → dying w → Dies H h dying dead w)
      (awaited : (w : H.World) → dying w → IsAwaited H h dead w)
      (died : (w : H.World) → dead w → IsDead H h w) where
    module _ (J : Json) (elapses : H.World → Bool × H.World)
        (in_good_time : (w : H.World)
          → dying w
          → ((elapses w).0 ≡ false) × dying (elapses w).1) where
      abbrev VmAt : Type 0
      VmAt = Vm H × H.World

      on_process-eq :
          {A : Type 0} (m : ProcessAction H A) (v : Vm H) (w : H.World)
          {r : Outcome (VmmProcessError H) A × ProcessState H}
          → m (v.vmm_process, w) ≡ r
          → on_process H J m (v, w)
            ≡ (map_err process_error r.0, (record v { vmm_process = r.1.0 }, r.1.1))
      on_process-eq m v w e =
          ap (λ r. (map_err process_error r.0, (record v { vmm_process = r.1.0 }, r.1.1))) e

      abbrev tested : Machine.VmState H → VmAt → Outcome (VmError H J) Done × VmAt
      tested current =
          fail_if
            (not (Machine.state_eq H J current Machine.running)
              && not (Machine.state_eq H J current Machine.paused))
            (Machine.expected_paused_or_running current)

      passes : (b : Bool) (s : VmAt) → tested (Machine.vm_state H J b started) s ≡ (ok tt, s)
      unfolding Machine.state_eq
      passes true s = refl
      passes false s = refl

      checked :
          (v : Vm H) (w : H.World)
          → HasHandle H h v.vmm_process
          → v.vmm_process.state ≡ started
          → alive w
          → (w' : H.World) × (ensure_paused_or_running H J (v, w) ≡ (ok tt, (v, w'))) × alive w'
      unfolding ensure_paused_or_running Machine.state Process.state
      checked v w has st al =
          let (w', t, al') = lives w al in
          (
            w',
            ap
                  (λ s.
                    tested (Machine.vm_state H J v.is_paused s.0.state)
                      (record v { vmm_process = s.0 }, s.1))
                  (polled H h v.vmm_process w w' (inr none) has t)
                ∙ ap (λ st. tested (Machine.vm_state H J v.is_paused st) (v, w')) st
                ∙ passes v.is_paused (v, w'),
            al',
          )

      -- The wait within the time, whatever it answers.
      ok_in_time :
          {A : Type 0} (r : Outcome (VmmProcessError H) A) (s : VmAt)
          → (r ≡ panic → ⊥)
          → in_time H J elapses (map_err process_error r, s) ≡ (ok tt, s)
      ok_in_time (ok a) s h = refl
      ok_in_time (err e) s h = refl
      ok_in_time panic s h = absurd (h refl)

      abbrev Finished : VmAt → Type 0
      Finished s = HasHandle H h s.0.vmm_process × dead s.1

      finished :
          (v : Vm H) (w : H.World)
          → HasHandle H h v.vmm_process
          → v.vmm_process.state ≡ started
          → dying w
          → (s : VmAt) × (wait_with_timeout H J elapses (v, w) ≡ (ok tt, s)) × Finished s
      unfolding wait_with_timeout
      finished v w has st dy =
          let (soon, dy') = in_good_time w dy in
          let w' = (elapses w).1 in
          let r = wait_for_exit H (v.vmm_process, w') in
          let (calm, has', de) =
            waited H h alive dying dead lives killed dies awaited died v.vmm_process w' has st
              dy' in
          (
            (record v { vmm_process = r.1.0 }, r.1.1),
            ap (λ late. wait_until H J elapses late (v, w')) soon
                ∙ ok_in_time r.0 (record v { vmm_process = r.1.0 }, r.1.1) calm,
            (has', de),
          )

      exit_life :
          (b : Bool) (x : H.ExitStatus) (v : Vm H) (p : VmmProcess H)
          → life H (record v { vmm_process = record p { state = exit_state H b x } }) ≡ ended
      unfolding life
      exit_life true x v p = refl
      exit_life false x v p = refl

      noticed : (s : VmAt) → Finished s → life H (Machine.state H J s).1.0 ≡ ended
      unfolding Machine.state Process.state
      noticed (v, w) (has, de) =
          let (x, w', t) = died w de in
          ap (λ s. life H (record v { vmm_process = s.0 }))
            (polled H h v.vmm_process w w' (inr (some x)) has t)
          ∙ exit_life (H.success x) x v v.vmm_process

      -- On a host where a process that is alive can be killed, and one that is dying is waited for in time,
      -- a shutdown by `kill` of a running or paused virtual machine succeeds, and the next look at its
      -- state finds that it has ended.
      pub shutdown-ended :
          (v : Vm H) (w : H.World)
          → HasHandle H h v.vmm_process
          → v.vmm_process.state ≡ started
          → alive w
          → (s : Vm H × H.World) × (shutdown H J elapses (kill ∷ []) (v, w) ≡ (ok tt, s))
            × (life H (Machine.state H J s).1.0 ≡ ended)
      unfolding shutdown shutdown_loop attempt apply_method
      shutdown-ended v w has st al =
          let (w1, first, al1) = checked v w has st al in
          let (w2, sent, dy) =
            sigkilled H h alive dying dead lives killed dies awaited died v.vmm_process w1 has st
              al1 in
          let (s, rest, fin) = finished v w2 has st dy in
          let tried : attempt H J elapses kill (v, w1) ≡ (ok tt, s) =
            bind-eq (on_process H J (send_sigkill H)) _ (v, w1)
              (on_process-eq (send_sigkill H) v w1 sent)
            ∙ rest in
          (
            s,
            bind-eq (ensure_paused_or_running H J) _ (v, w) first
                ∙ ap (λ r. break_if_ok H J elapses r (λ e. shutdown_loop H J elapses (err e) []))
                    tried,
            noticed s fin,
          )
