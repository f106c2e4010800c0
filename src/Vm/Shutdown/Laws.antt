-- ===== src/Vm/Shutdown/Laws.antt =====
-- How a shutdown of src/vm/mod.rs goes through its methods.
use fctools.Base.{
  ◌≡◌, refl, sym, ap, ◌∙◌, ◌⊎◌, inl, inr, Done, Bool, List, [], ◌∷◌, Outcome, ok, err, panic, arith,
}
use fctools.Base.Action.{bind-ok, bind-eq}
use fctools.Host.{Host}
use fctools.Vm.Machine.{Json, Vm, VmError, VmAction, ensure_paused_or_running}
use fctools.Vm.Shutdown.{ShutdownMethod, attempt, shutdown_loop, shutdown, break_if_ok}

module _ (H : Host) (J : Json) (elapses : H.World → Bool × H.World) where
  abbrev VmWorld : Type 0
  VmWorld = Vm H × H.World

  -- Each of the methods has failed, one after the other, from the one state to the other; the last
  -- error is the one given, or the one from before if there is no method.
  abbrev pub AllFail : VmError H J → List ShutdownMethod → VmWorld → VmError H J → VmWorld → Type 0
  AllFail before [] s e s' = (before ≡ e) × (s ≡ s')
  AllFail before (method ∷ methods) s e s' =
      (failed : VmError H J) × (t : VmWorld) × (attempt H J elapses method s ≡ (err failed, t))
      × AllFail failed methods t e s'

  -- One of the methods has succeeded after those before it failed.
  abbrev pub OneSucceeds : List ShutdownMethod → VmWorld → VmWorld → Type 0
  OneSucceeds [] s s' = ⊥
  OneSucceeds (method ∷ methods) s s' =
      (attempt H J elapses method s ≡ (ok tt, s'))
      ⊎ ((failed : VmError H J) × (t : VmWorld) × (attempt H J elapses method s ≡ (err failed, t))
          × OneSucceeds methods t s')

  -- What a round says, when the rounds after it are known.
  round-ok :
      (r : Outcome (VmError H J) Done × VmWorld) (next : VmError H J → VmAction H J Done)
      (methods : List ShutdownMethod) (s' : VmWorld)
      → ((e : VmError H J) (t : VmWorld) → next e t ≡ (ok tt, s') → OneSucceeds methods t s')
      → break_if_ok H J elapses r next ≡ (ok tt, s')
      → (r ≡ (ok tt, s'))
        ⊎ ((failed : VmError H J) × (t : VmWorld) × (r ≡ (err failed, t))
            × OneSucceeds methods t s')
  round-ok (ok a, t) next methods s' later h = inl h
  round-ok (err e, t) next methods s' later h = inr (e, t, refl, later e t h)
  round-ok (panic, t) next methods s' later h = absurd cc

  loop-ok :
      (methods : List ShutdownMethod) (s' : VmWorld) (e : VmError H J) (s : VmWorld)
      → shutdown_loop H J elapses (err e) methods s ≡ (ok tt, s')
      → OneSucceeds methods s s'
  unfolding shutdown_loop
  loop-ok [] s' e s h = cc
  loop-ok (method ∷ methods) s' e s h =
      round-ok (attempt H J elapses method s) _ methods s' (loop-ok methods s') h

  round-err :
      (r : Outcome (VmError H J) Done × VmWorld) (next : VmError H J → VmAction H J Done)
      (methods : List ShutdownMethod) (last : VmError H J) (s' : VmWorld)
      → ((e : VmError H J) (t : VmWorld) → next e t ≡ (err last, s') → AllFail e methods t last s')
      → break_if_ok H J elapses r next ≡ (err last, s')
      → (failed : VmError H J) × (t : VmWorld) × (r ≡ (err failed, t))
        × AllFail failed methods t last s'
  round-err (ok a, t) next methods last s' later h = absurd cc
  round-err (err e, t) next methods last s' later h = (e, t, refl, later e t h)
  round-err (panic, t) next methods last s' later h = absurd cc

  loop-err :
      (methods : List ShutdownMethod) (last : VmError H J) (s' : VmWorld) (e : VmError H J)
      (s : VmWorld)
      → shutdown_loop H J elapses (err e) methods s ≡ (err last, s')
      → AllFail e methods s last s'
  unfolding shutdown_loop
  loop-err [] last s' e s h = (ground arith, ground arith)
  loop-err (method ∷ methods) last s' e s h =
      round-err (attempt H J elapses method s) _ methods last s' (loop-err methods last s') h

  -- A shutdown with at least one method that succeeds has found the virtual machine paused or running,
  -- and ends where the first method that did not fail has ended, after those before it failed.
  pub shutdown-OneSucceeds :
      (method : ShutdownMethod) (methods : List ShutdownMethod) (s s' : VmWorld)
      → shutdown H J elapses (method ∷ methods) s ≡ (ok tt, s')
      → (t : VmWorld) × (ensure_paused_or_running H J s ≡ (ok tt, t))
        × OneSucceeds (method ∷ methods) t s'
  unfolding shutdown shutdown_loop
  shutdown-OneSucceeds method methods s s' h =
      let (a, t, checked, h') = bind-ok (ensure_paused_or_running H J) _ s (ap (λ r. r.0) h) in
      (
        t,
        checked,
        round-ok (attempt H J elapses method t) _ methods s' (loop-ok methods s')
            (sym (bind-eq (ensure_paused_or_running H J) _ s checked) ∙ h),
      )

  -- A shutdown that fails though the virtual machine was found paused or running has tried all its
  -- methods in order, each failed, and its error is the last one's.
  pub shutdown-AllFail :
      (method : ShutdownMethod) (methods : List ShutdownMethod) (s t s' : VmWorld) {e : VmError H J}
      → ensure_paused_or_running H J s ≡ (ok tt, t)
      → shutdown H J elapses (method ∷ methods) s ≡ (err e, s')
      → (failed : VmError H J) × (u : VmWorld) × (attempt H J elapses method t ≡ (err failed, u))
        × AllFail failed methods u e s'
  unfolding shutdown shutdown_loop
  shutdown-AllFail method methods s t s' {e} checked h =
      round-err (attempt H J elapses method t) _ methods e s' (loop-err methods e s')
        (sym (bind-eq (ensure_paused_or_running H J) _ s checked) ∙ h)
