-- ===== src/Vm/Lifecycle/Starting.antt =====
-- `Vm::start` of src/vm/mod.rs on the abstract machine.
use fctools.Base.{◌≡◌, refl, ap, ℕ, ◌≤◌, arith, Bool, true, false, Option, none, some, inl, inr}
use fctools.Base.Action.{◌>>=◌}
use fctools.Base.Moving.{Moves}
use fctools.Host.{Host}
use fctools.Arguments.{ConfigurationFileOverride}
use fctools.Process.{VmmProcess, VmmProcessState, ProcessState, awaiting_start, started}
use fctools.Process
use fctools.Process.Invariant.{stage, IsSound, Keeps, Hoare-Keeps}
use fctools.Process.Operations.{invoke_triple}
use fctools.Process.Started.{invoke-Starts}
use fctools.Vm.Configuration.{VmConfiguration}
use fctools.Vm.Machine.{Json, on_process, ensure_state, not_started}
use fctools.Vm.Motion.{Motion, VmWorld, bind, ensure_state-Follows}
use fctools.Vm.Start.{take_from, take_configuration, start}
use fctools.Vm.Start.Keeping.{after_take, after_take-Follows}
use fctools.Vm.Lifecycle.{
  Life, starting, Course, here, along, boots, life_of, life, IsSoundVm, Refines, drift-Refines,
  following,
}

module _ (H : Host) (J : Json) where
  F : Motion H J
  unfolding following
  F = following H J starting 0

  -- A machine that was not started is not marked as paused, so that it runs once it is.
  booted :
      (b : Bool) (st st' : VmmProcessState H)
      → st ≡ awaiting_start
      → st' ≡ started
      → (b ≡ true → 2 ≤ stage H st)
      → Course starting (life_of H b st) (life_of H b st')
  booted true st st' e e' flag = let two = flag refl in absurd (omega (arith, ap (stage H) e))
  booted false st st' e e' flag =
      rw (e, e') (along Life.prepared Life.prepared Life.running (here Life.prepared) boots)

  invoke-Refines :
      (c : ConfigurationFileOverride)
      → Moves (Refines H starting 0) (on_process H J (Process.invoke H c))
  unfolding IsSoundVm life
  invoke-Refines c (v, w) (sound, flag) =
      let s : ProcessState H = (v.vmm_process, w) in
      let t = (Process.invoke H c s).1 in
      let keep : (k : ℕ) → Keeps H k (Process.invoke H c) = λ k.
        Hoare-Keeps H k (λ s. IsSound H k s.0) (Process.invoke H c) (invoke_triple H k c)
          (λ s h. h) in
      elim (invoke-Starts H c s) [
        | inl drift ↦ drift-Refines H starting 0 v s t refl drift (λ k. keep k s) (sound, flag)
        | inr (was, done) ↦ (
          (keep 0 s sound, λ b. omega (arith, ap (stage H) done)),
          booted v.is_paused v.vmm_process.state t.0.state was done flag,
        )
      ]

  taken :
      (o : Option VmConfiguration) (s : VmWorld H) → Refines H starting 0 s (take_from H J o s).1
  unfolding IsSoundVm life
  taken none s sound = (sound, here (life H s.0))
  taken (some c) s sound = (sound, here (life H s.0))

  pub start-Refines :
      (checks : ℕ) (late : Bool) → Moves (Refines H starting 0) (start H J checks late)
  unfolding start take_configuration F following
  start-Refines checks late =
      bind F (ensure_state H J not_started)
        (λ a. take_configuration H J >>= after_take H J checks late)
        (ensure_state-Follows F not_started)
        (λ a.
          bind F (take_configuration H J) (after_take H J checks late)
            (λ s. taken s.0.configuration s) (after_take-Follows F checks late invoke-Refines))
