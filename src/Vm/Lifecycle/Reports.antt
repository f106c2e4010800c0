-- ===== src/Vm/Lifecycle/Reports.antt =====
-- What `Vm::state` of src/vm/mod.rs tells of the child process and of the abstract machine.
use fctools.Base.{◌≡◌, refl, ap, Bool, true, false, Option, none, some, Outcome, ok, inl, inr, ◌⊎◌}
use fctools.Host.{Host, Child}
use fctools.Process.{
  VmmProcess, VmmProcessState, awaiting_prepare, awaiting_start, started, exited, crashed,
  update_state,
}
use fctools.Process
use fctools.Vm.Machine.{Json, Vm, VmError, VmState, vm_state, state}
use fctools.Vm.Machine
use fctools.Vm.Motion.{VmWorld}
use fctools.Vm.Lifecycle.{Life, life_of, life}

module _ (H : Host) (J : Json) where
  -- What is told of a process that has not been found to have ended by this call.
  abbrev pub reading : Bool → VmmProcessState H → VmState H
  reading is_paused awaiting_prepare = Machine.not_started
  reading is_paused awaiting_start = Machine.not_started
  reading false started = Machine.running
  reading true started = Machine.paused
  reading is_paused exited = Machine.exited
  reading is_paused (crashed x) = Machine.crashed x

  abbrev pub ending : Bool → H.ExitStatus → VmState H
  ending true x = Machine.exited
  ending false x = Machine.crashed x

  -- What is told for each answer of the host about the child, and where the abstract machine then is.
  abbrev pub Told :
      H.IoError ⊎ Option H.ExitStatus
      → Vm H
      → Outcome (VmError H J) (VmState H) × VmWorld H
      → Type 0
  Told (inr (some x)) v r = (r.0 ≡ ok (ending (H.success x) x)) × (life H r.1.0 ≡ Life.ended)
  Told (inr none) v r =
      (r.0 ≡ ok (reading v.is_paused v.vmm_process.state)) × (life H r.1.0 ≡ life H v)
  Told (inl e) v r =
      (r.0 ≡ ok (reading v.is_paused v.vmm_process.state)) × (life H r.1.0 ≡ life H v)

  -- Without a child nothing is asked.
  abbrev pub Tells :
      Option (Child H.Handle H.Pipe)
      → Vm H
      → H.World
      → Outcome (VmError H J) (VmState H) × VmWorld H
      → Type 0
  Tells none v w r = r ≡ (ok (reading v.is_paused v.vmm_process.state), (v, w))
  Tells (some child) v w r =
      (answer : H.IoError ⊎ Option H.ExitStatus) × (w' : H.World) × (H.try_wait child.handle w
        ≡ (answer, w'))
      × (r.1.1 ≡ w')
      × Told answer v r

  vm_state-reading : (b : Bool) (st : VmmProcessState H) → vm_state H J b st ≡ reading b st
  vm_state-reading true awaiting_prepare = refl
  vm_state-reading true awaiting_start = refl
  vm_state-reading true started = refl
  vm_state-reading true exited = refl
  vm_state-reading true (crashed x) = refl
  vm_state-reading false awaiting_prepare = refl
  vm_state-reading false awaiting_start = refl
  vm_state-reading false started = refl
  vm_state-reading false exited = refl
  vm_state-reading false (crashed x) = refl

  -- The machine with this process.
  abbrev looked : Vm H → VmmProcess H → H.World → Outcome (VmError H J) (VmState H) × VmWorld H
  looked v p w = (ok (vm_state H J v.is_paused p.state), (record v { vmm_process = p }, w))

  ended-Told :
      (success : Bool) (b : Bool) (x : H.ExitStatus)
      → (vm_state H J b (Process.exit_state H success x) ≡ ending success x)
        × (life_of H b (Process.exit_state H success x) ≡ Life.ended)
  ended-Told true true x = (refl, refl)
  ended-Told true false x = (refl, refl)
  ended-Told false true x = (refl, refl)
  ended-Told false false x = (refl, refl)

  looked-Told :
      (answer : H.IoError ⊎ Option H.ExitStatus) (v : Vm H) (w : H.World)
      → Told answer v (
          looked v
            (record v.vmm_process { state = Process.observed H v.vmm_process.state answer })
            w)
  unfolding life
  looked-Told (inr (some x)) v w =
      let (told, ended) = ended-Told (H.success x) v.is_paused x in (ap ok told, ended)
  looked-Told (inr none) v w = (ap ok (vm_state-reading v.is_paused v.vmm_process.state), refl)
  looked-Told (inl e) v w = (ap ok (vm_state-reading v.is_paused v.vmm_process.state), refl)

  polled-Tells :
      (o : Option (Child H.Handle H.Pipe)) (v : Vm H) (w : H.World)
      → let (p, w') = Process.poll H o (v.vmm_process, w) in Tells o v w (looked v p w')
  polled-Tells none v w =
      ap (λ x. (ok x, (v, w))) (vm_state-reading v.is_paused v.vmm_process.state)
  polled-Tells (some child) v w =
      let r = H.try_wait child.handle w in (r.0, r.1, refl, refl, looked-Told r.0 v r.1)

  -- A look at the state always answers. Without a child it tells what was stored: not started before
  -- the start, then running or paused by the mark, then exited or crashed. With a child the host is asked
  -- once whether it has ended: by success, it is told to have exited, otherwise to have crashed with this
  -- status, and the abstract machine is at its end. When it has not ended, or the host cannot tell, what
  -- was stored is told, and the abstract machine stays where it was.
  pub state-Tells : (s : VmWorld H) → Tells s.0.vmm_process.child s.0 s.1 (state H J s)
  unfolding state Process.state update_state
  state-Tells (v, w) = polled-Tells v.vmm_process.child v w
