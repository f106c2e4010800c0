-- ===== src/Vm/Shutdown/Tests.antt =====
-- The theorems on `Vm::shutdown` of src/vm/mod.rs at a concrete virtual machine in the simulated host.
use fctools.Base.{ap, none, some, inr, ◌≡◌, refl, Bool, true, false, List, [], ◌∷◌, ok, err}
use fctools.Process
use fctools.Process.Socket
use fctools.Vm.Machine.{Vm, VmError, timeout, ensure_paused_or_running}
use fctools.Vm.Shutdown.{ShutdownMethod, ctrl_alt_del, kill, attempt, shutdown}
use fctools.Vm.Shutdown.Laws.{OneSucceeds, AllFail, shutdown-OneSucceeds, shutdown-AllFail}
use fctools.Vm.Shutdown.Killing.{shutdown-ended}
use fctools.Process.Killing.{Lives, Dies, IsAwaited, IsDead}
use fctools.Vm.Lifecycle.{life, ended}
use fctools.Vm
use fctools.Vm.Sample.{S, json, vm}
use fctools.Simulation.{Machine, code_of}

-- A timer that is always up, or never.
abbrev timer : Bool → Machine → Bool × Machine
timer late w = (late, w)

-- Firecracker does not react, and is then killed.
abbrev methods : List ShutdownMethod
methods = ctrl_alt_del ∷ kill ∷ []

abbrev finish : Vm S × Machine
finish = (shutdown S json (timer true) methods (vm false)).1

shutdown-OneSucceeds_example :
    (t : Vm S × Machine) × (ensure_paused_or_running S json (vm false) ≡ (ok tt, t))
    × OneSucceeds S json (timer true) methods t finish
unfolding shutdown Socket.send_ctrl_alt_del Process.send_sigkill
shutdown-OneSucceeds_example =
    shutdown-OneSucceeds S json (timer true) ctrl_alt_del (kill ∷ []) (vm false) finish refl

abbrev stubborn : List ShutdownMethod
stubborn = ctrl_alt_del ∷ ctrl_alt_del ∷ []

abbrev found : Vm S × Machine
found = (ensure_paused_or_running S json (vm false)).1

abbrev given_up : Vm S × Machine
given_up = (shutdown S json (timer true) stubborn (vm false)).1

shutdown-AllFail_example :
    (failed : VmError S json) × (u : Vm S × Machine) × (attempt S json
        (timer true)
        ctrl_alt_del
        found
      ≡ (err failed, u))
    × AllFail S json (timer true) failed (ctrl_alt_del ∷ []) u timeout given_up
unfolding shutdown Socket.send_ctrl_alt_del
shutdown-AllFail_example =
    shutdown-AllFail S json (timer true) ctrl_alt_del (ctrl_alt_del ∷ []) (vm false) found given_up
      refl refl

-- The process lives while it has no exit code, and a kill gives it one.
abbrev IsAlive : Machine → Type 0
IsAlive m = m.exit_code ≡ none

abbrev IsDying : Machine → Type 0
IsDying m = m.exit_code ≡ some 9

IsAlive-Lives : (m : Machine) → IsAlive m → Lives S tt IsAlive m
IsAlive-Lives m e = (m, ap (λ o. (inr o, m)) e, e)

IsDying-Dies : (m : Machine) → IsDying m → Dies S tt IsDying IsDying m
IsDying-Dies m e = inr (9, m, ap (λ o. (inr o, m)) e, e)

IsDying-IsAwaited : (m : Machine) → IsDying m → IsAwaited S tt IsDying m
IsDying-IsAwaited m e = (_, _, refl, ap (λ o. some (code_of o)) e)

IsDying-IsDead : (m : Machine) → IsDying m → IsDead S tt m
IsDying-IsDead m e = (9, m, ap (λ o. (inr o, m)) e)

shutdown-ended_example :
    (s : Vm S × Machine) × (shutdown S json (timer false) (kill ∷ []) (vm true) ≡ (ok tt, s))
    × (life S (Vm.Machine.state S json s).1.0 ≡ ended)
shutdown-ended_example =
    shutdown-ended S tt IsAlive IsDying IsDying IsAlive-Lives
      (λ m e. (record m { exit_code = some 9 }, refl, refl)) IsDying-Dies IsDying-IsAwaited
      IsDying-IsDead json (timer false) (λ m e. (refl, e)) (vm true).0 (vm true).1 (_, refl, refl)
      refl refl
