-- ===== src/Vm/Shutdown.antt =====
-- `Vm::shutdown` of src/vm/mod.rs. Whether the timer of `tokio::time::timeout` is up before a child
-- exits is a parameter.
pub mod Laws
pub mod Killing
mod Tests
use fctools.Base.{Done, Bool, true, false, none, List, [], ◌∷◌, Outcome, ok, err, panic}
use fctools.Base.Action.{◌>>=◌, ◌>>◌}
use fctools.Host.{Host}
use fctools.Process
use fctools.Process.Socket
use fctools.Vm.Machine.{Json, Vm, VmError, timeout, VmAction, on_process, ensure_paused_or_running}
use fctools.Vm.Api.{api_pause}

pub data ShutdownMethod : Type 0 where
  ctrl_alt_del pause_then_kill kill : ShutdownMethod

module _ (H : Host) (J : Json) (elapses : H.World → Bool × H.World) where
  -- The result of the future itself is dropped.
  abbrev pub in_time :
      {A : Type 0}
      → Outcome (VmError H J) A × (Vm H × H.World)
      → Outcome (VmError H J) Done × (Vm H × H.World)
  in_time (ok a, s) = (ok tt, s)
  in_time (err e, s) = (ok tt, s)
  in_time (panic, s) = (panic, s)

  abbrev pub too_late :
      Outcome (VmError H J) Done × (Vm H × H.World) → Outcome (VmError H J) Done × (Vm H × H.World)
  too_late (ok a, s) = (err timeout, s)
  too_late (err e, s) = (ok tt, s)
  too_late (panic, s) = (panic, s)

  abbrev pub wait_until : Bool → VmAction H J Done
  wait_until true s = too_late (on_process H J (Process.begin_wait H) s)
  wait_until false s = in_time (on_process H J (Process.wait_for_exit H) s)

  unfoldable pub wait_with_timeout : VmAction H J Done
  unfolding fctools.Process.begin_wait
  wait_with_timeout (v, w) = let (late, w') = elapses w in wait_until late (v, w')

  unfoldable pub apply_method : ShutdownMethod → VmAction H J Done
  unfolding api_pause
  apply_method ctrl_alt_del = on_process H J (Process.Socket.send_ctrl_alt_del H)
  apply_method pause_then_kill = api_pause H J >> on_process H J (Process.send_sigkill H)
  apply_method kill = on_process H J (Process.send_sigkill H)

  -- One round of the loop.
  unfoldable pub attempt : ShutdownMethod → VmAction H J Done
  unfolding apply_method wait_with_timeout
  attempt method = apply_method method >> wait_with_timeout

  -- `if last_result.is_ok() { break; }`
  abbrev pub break_if_ok :
      Outcome (VmError H J) Done × (Vm H × H.World)
      → (VmError H J → VmAction H J Done)
      → Outcome (VmError H J) Done × (Vm H × H.World)
  break_if_ok (ok a, s) next = (ok a, s)
  break_if_ok (err e, s) next = next e s
  break_if_ok (panic, s) next = (panic, s)

  unfoldable pub shutdown_loop :
      Outcome (VmError H J) Done → List ShutdownMethod → VmAction H J Done
  unfolding attempt
  shutdown_loop last_result [] s = (last_result, s)
  shutdown_loop last_result (method ∷ methods) s =
      break_if_ok (attempt method s) (λ e. shutdown_loop (err e) methods)

  unfoldable pub shutdown : List ShutdownMethod → VmAction H J Done
  unfolding ensure_paused_or_running shutdown_loop
  shutdown methods = ensure_paused_or_running H J >> shutdown_loop (ok tt) methods
