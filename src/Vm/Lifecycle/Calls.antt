-- ===== src/Vm/Lifecycle/Calls.antt =====
-- The other calls of src/vm/mod.rs on the abstract machine.
use fctools.Base.{◌≡◌, refl, ℕ, Bool, true, false, Done, List, [], ◌∷◌, Outcome, ok, err, panic}
use fctools.Base.Action.{◌>>=◌}
use fctools.Base.Moving.{Moves}
use fctools.FilePath.{FilePath}
use fctools.Host.{Host}
use fctools.Process.{
  VmmProcess, VmmProcessState, ProcessState, ProcessAction, awaiting_start, started,
}
use fctools.Process
use fctools.Process.Socket
use fctools.Process.Invariant.{IsSound, Keeps, Hoare-Keeps}
use fctools.Process.Drift.{
  DriftsBy, take_pipes-DriftsBy, send_sigkill-DriftsBy, wait_for_exit-DriftsBy, begin_wait-DriftsBy,
  send_ctrl_alt_del-DriftsBy, cleanup-DriftsBy,
}
use fctools.Process.Children.{
  Never, take_pipes_triple, send_sigkill_triple, wait_for_exit_triple, begin_wait_triple,
}
use fctools.Process.Requests.{send_ctrl_alt_del_triple, cleanup_triple}
use fctools.Vm.Machine.{
  Json, VmError, VmAction, on_process, take_pipes, register_vsock_listener_path,
  ensure_paused_or_running, ensure_exited_or_crashed,
}
use fctools.Vm.Api.{api_pause}
use fctools.Vm.Motion.{
  Motion, VmWorld, bind, ensure_paused_or_running-Follows, ensure_exited_or_crashed-Follows,
}
use fctools.Vm.Shutdown.{
  ShutdownMethod, ctrl_alt_del, pause_then_kill, kill, in_time, too_late, wait_until,
  wait_with_timeout, apply_method, attempt, break_if_ok, shutdown_loop, shutdown,
}
use fctools.Vm.Cleanup.{remove_traces, cleanup}
use fctools.Vm.Lifecycle.{
  Kind, pausing, here, life, IsSoundVm, Refines, Refines-chain, on_process-Refines, following,
}
use fctools.Vm.Lifecycle.Flags.{api_pause-Refines}

module _ (H : Host) (J : Json) (kind : Kind) where
  F : Motion H J
  unfolding following
  F = following H J kind 0

  -- A call of the process with a triple.
  by_triple :
      {A : Type 0} (m : ProcessAction H A)
      → DriftsBy H m
      → ((k : ℕ) → Keeps H k m)
      → Moves (Refines H kind 0) (on_process H J m)
  by_triple m = on_process-Refines H J kind 0 m

  never : (k : ℕ) (s : ProcessState H) → Never H k s → IsSound H k s.0
  never k s h = absurd h

  pub take_pipes-Refines : Moves (Refines H kind 0) (take_pipes H J)
  unfolding take_pipes F following
  take_pipes-Refines =
      bind F (ensure_paused_or_running H J) (λ a. on_process H J (Process.take_pipes H))
        (ensure_paused_or_running-Follows F)
        (λ a. by_triple (Process.take_pipes H) (take_pipes-DriftsBy H) (λ k.
          Hoare-Keeps H k (Never H k) (Process.take_pipes H) (take_pipes_triple H k) (never k)))

  pub register-Refines :
      (path : FilePath) → Moves (Refines H kind 0) (register_vsock_listener_path H J path)
  unfolding register_vsock_listener_path IsSoundVm life
  register-Refines path s sound = (sound, here (life H s.0))

  removed : (b : Bool) (s : VmWorld H) → Refines H kind 0 s (remove_traces H J b s).1
  unfolding IsSoundVm life
  removed true s sound = (sound, here (life H s.0))
  removed false s sound = (sound, here (life H s.0))

  pub cleanup-Refines : Moves (Refines H kind 0) (cleanup H J)
  unfolding cleanup F following
  cleanup-Refines =
      let last : Done → VmAction H J Done = λ a s. remove_traces H J s.0.executor_traceless s in
      bind F (ensure_exited_or_crashed H J) (λ a. on_process H J (Process.cleanup H) >>= last)
        (ensure_exited_or_crashed-Follows F)
        (λ a.
          bind F (on_process H J (Process.cleanup H)) last
            (by_triple (Process.cleanup H) (cleanup-DriftsBy H) (λ k.
              Hoare-Keeps H k (λ s. IsSound H k s.0) (Process.cleanup H) (cleanup_triple H k)
                (λ s h. h)))
            (λ a s. removed s.0.executor_traceless s))

module _ (H : Host) (J : Json) (elapses : H.World → Bool × H.World) where
  abbrev Shuts : {A : Type 0} → VmAction H J A → Type 0
  Shuts m = Moves (Refines H pausing 0) m

  G : Motion H J
  unfolding following
  G = following H J pausing 0

  killed : Shuts (on_process H J (Process.send_sigkill H))
  killed = by_triple H J pausing (Process.send_sigkill H) (send_sigkill-DriftsBy H) (λ k.
      Hoare-Keeps H k (Never H k) (Process.send_sigkill H) (send_sigkill_triple H k)
        (never H J pausing k))

  in_time-state :
      {A : Type 0} (r : Outcome (VmError H J) A × VmWorld H) → (in_time H J elapses r).1 ≡ r.1
  in_time-state (ok a, s) = refl
  in_time-state (err e, s) = refl
  in_time-state (panic, s) = refl

  too_late-state : (r : Outcome (VmError H J) Done × VmWorld H) → (too_late H J elapses r).1 ≡ r.1
  too_late-state (ok a, s) = refl
  too_late-state (err e, s) = refl
  too_late-state (panic, s) = refl

  waited : (late : Bool) → Shuts (wait_until H J elapses late)
  waited true s = rw (too_late-state (on_process H J (Process.begin_wait H) s)) (
      by_triple H J pausing (Process.begin_wait H) (begin_wait-DriftsBy H)
        (λ k.
          Hoare-Keeps H k (Never H k) (Process.begin_wait H) (begin_wait_triple H k)
            (never H J pausing k))
        s)
  waited false s = rw (in_time-state (on_process H J (Process.wait_for_exit H) s)) (
      by_triple H J pausing (Process.wait_for_exit H) (wait_for_exit-DriftsBy H)
        (λ k.
          Hoare-Keeps H k (Never H k) (Process.wait_for_exit H) (wait_for_exit_triple H k)
            (never H J pausing k))
        s)

  wait-Shuts : Shuts (wait_with_timeout H J elapses)
  unfolding wait_with_timeout
  wait-Shuts (v, w) = waited (elapses w).0 (v, (elapses w).1)

  apply-Shuts : (method : ShutdownMethod) → Shuts (apply_method H J elapses method)
  unfolding apply_method G following
  apply-Shuts ctrl_alt_del =
      by_triple H J pausing (Process.Socket.send_ctrl_alt_del H) (send_ctrl_alt_del-DriftsBy H)
        (λ k.
          Hoare-Keeps H k (λ s. IsSound H k s.0) (Process.Socket.send_ctrl_alt_del H)
            (send_ctrl_alt_del_triple H k) (λ s h. h))
  apply-Shuts pause_then_kill =
      bind G (api_pause H J) (λ a. on_process H J (Process.send_sigkill H)) (api_pause-Refines H J)
        (λ a. killed)
  apply-Shuts kill = killed

  attempt-Shuts : (method : ShutdownMethod) → Shuts (attempt H J elapses method)
  unfolding attempt G following
  attempt-Shuts method =
      bind G (apply_method H J elapses method) (λ a. wait_with_timeout H J elapses)
        (apply-Shuts method) (λ a. wait-Shuts)

  break-Shuts :
      (s : VmWorld H) (r : Outcome (VmError H J) Done × VmWorld H)
      (next : VmError H J → VmAction H J Done)
      → Refines H pausing 0 s r.1
      → ((e : VmError H J) → Shuts (next e))
      → Refines H pausing 0 s (break_if_ok H J elapses r next).1
  break-Shuts s (ok a, t) next h k = h
  break-Shuts s (err e, t) next h k = Refines-chain H pausing 0 s t (next e t).1 h (k e t)
  break-Shuts s (panic, t) next h k = h

  loop-Shuts :
      (methods : List ShutdownMethod) (last : Outcome (VmError H J) Done)
      → Shuts (shutdown_loop H J elapses last methods)
  unfolding shutdown_loop
  loop-Shuts [] last s = λ sound. (sound, here (life H s.0))
  loop-Shuts (method ∷ methods) last s =
      break-Shuts s (attempt H J elapses method s) (λ e. shutdown_loop H J elapses (err e) methods)
        (attempt-Shuts method s) (λ e. loop-Shuts methods (err e))

  pub shutdown-Refines : (methods : List ShutdownMethod) → Shuts (shutdown H J elapses methods)
  unfolding shutdown G following
  shutdown-Refines methods =
      bind G (ensure_paused_or_running H J) (λ a. shutdown_loop H J elapses (ok tt) methods)
        (ensure_paused_or_running-Follows G) (λ a. loop-Shuts methods (ok tt))
