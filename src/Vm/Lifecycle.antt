-- ===== src/Vm/Lifecycle.antt =====
-- The life of a virtual machine as an abstract machine, which the calls of src/vm/mod.rs and
-- src/vm/api.rs refine.
pub mod Flags
pub mod Calls
pub mod Starting
pub mod Reports
pub mod Runs
pub mod Traces
mod Tests
use fctools.Base.{
  ◌≡◌, refl, sym, ap, ◌∙◌, ℕ, ◌≤◌, arith, Bool, true, false, Option, none, some, ◌⊎◌, inl, inr,
  Done, List,
}
use fctools.Base.Action.{Action}
use fctools.Base.Moving.{Moves}
use fctools.Text.{Text}
use fctools.Host.{Host, Child, Request}
use fctools.Process.{
  VmmProcess, VmmProcessState, awaiting_prepare, awaiting_start, started, exited, crashed,
  ProcessState, ProcessAction,
}
use fctools.Process
use fctools.Process.Socket
use fctools.Process.Invariant.{stage, Phase, IsSound, Keeps, Hoare-Keeps, update_state-IsSound}
use fctools.Process.Drift.{Drifts, DriftsBy, HasChild, state-DriftsBy, send_api_request-DriftsBy}
use fctools.Process.Requests.{send_api_request_triple}
use fctools.Vm.Machine.{Json, Vm, VmAction, on_process, state}
use fctools.Vm.Motion.{Motion, VmWorld}

-- Where a virtual machine is in its life.
pub data Life : Type 0 where
  prepared running paused ended : Life

-- What kind of call it is that is made.
pub data Kind : Type 0 where
  starting pausing resuming asking : Kind

-- A kind of call may let these steps happen. A machine that lives may end at any time.
pub data Edge : Kind → Life → Life → Type 0 where
  boots : Edge starting prepared running
  pauses : Edge pausing running paused
  resumes : Edge resuming paused running
  ends_running : (kind : Kind) → Edge kind running ended
  ends_paused : (kind : Kind) → Edge kind paused ended

pub data Course (kind : Kind) : Life → Life → Type 0 where
  here : (a : Life) → Course kind a a
  along : (a b c : Life) → Course kind a b → Edge kind b c → Course kind a c

pub join_courses :
    (kind : Kind) (a b c : Life) → Course kind a b → Course kind b c → Course kind a c
join_courses kind a b c p (here _) = p
join_courses kind a b c p (along _ d _ q e) = along a d c (join_courses kind a b d p q) e

module _ (H : Host) where
  abbrev pub life_of : Bool → VmmProcessState H → Life
  life_of is_paused awaiting_prepare = prepared
  life_of is_paused awaiting_start = prepared
  life_of true started = paused
  life_of false started = running
  life_of is_paused exited = ended
  life_of is_paused (crashed x) = ended

  -- The abstract state of a virtual machine.
  unfoldable pub life : Vm H → Life
  life v = life_of v.is_paused v.vmm_process.state

  ended_of : (b : Bool) (st : VmmProcessState H) → stage H st ≡ 3 → life_of b st ≡ ended
  ended_of b awaiting_prepare h = absurd (omega arith)
  ended_of b awaiting_start h = absurd (omega arith)
  ended_of b started h = absurd (omega arith)
  ended_of b exited h = refl
  ended_of b (crashed x) h = refl

  -- With a child, the machine can end.
  can_end :
      (kind : Kind) (b : Bool) (st : VmmProcessState H) (c : Child H.Handle H.Pipe)
      (child : Option (Child H.Handle H.Pipe)) (client : Bool) (paths : Option (List (List ℕ)))
      → child ≡ some c
      → Phase H st child client paths
      → Course kind (life_of b st) ended
  can_end kind b awaiting_prepare c child client paths e h = absurd cc
  can_end kind b awaiting_start c child client paths e h = absurd cc
  can_end kind true started c child client paths e h =
      along paused paused ended (here paused) (ends_paused kind)
  can_end kind false started c child client paths e h =
      along running running ended (here running) (ends_running kind)
  can_end kind b exited c child client paths e h = here ended
  can_end kind b (crashed x) c child client paths e h = here ended

  drift-Course :
      (kind : Kind) (b : Bool) (s t : ProcessState H)
      → IsSound H 0 s.0
      → Drifts H s t
      → Course kind (life_of b s.0.state) (life_of b t.0.state)
  unfolding IsSound
  drift-Course kind b s t sound (inl e, back) = rw e (here (life_of b s.0.state))
  drift-Course kind b s t sound (inr ((c, has), e), back) =
      rw (ended_of b t.0.state e)
        (can_end kind b s.0.state c s.0.child s.0.hyper_client s.0.outer_paths has sound.0)

  -- A sound process that has come at least as far as `n`; only a machine that was started is paused.
  unfoldable pub IsSoundVm : ℕ → Vm H → Type 0
  IsSoundVm n v = IsSound H n v.vmm_process × (v.is_paused ≡ true → 2 ≤ stage H v.vmm_process.state)

  -- Soundness is kept, and the abstract machine follows.
  abbrev pub Refines : Kind → ℕ → VmWorld H → VmWorld H → Type 0
  Refines kind n s t = IsSoundVm n s.0 → IsSoundVm n t.0 × Course kind (life s.0) (life t.0)

  pub IsSoundVm-zero : (n : ℕ) (v : Vm H) → IsSoundVm n v → IsSoundVm 0 v
  unfolding IsSoundVm IsSound
  IsSoundVm-zero n v ((phase, path, low), flag) = ((phase, path, omega arith), flag)

  stage-kept :
      (n : ℕ) (p q : VmmProcess H)
      → ((k : ℕ) → IsSound H k p → IsSound H k q)
      → IsSound H n p
      → stage H p.state ≤ stage H q.state
  unfolding IsSound
  stage-kept n p q keep (phase, path, low) = (keep (stage H p.state) (phase, path, omega arith)).2

  IsSound-zero : (n : ℕ) (p : VmmProcess H) → IsSound H n p → IsSound H 0 p
  unfolding IsSound
  IsSound-zero n p (phase, path, low) = (phase, path, omega arith)

  pub drift-Refines :
      (kind : Kind) (n : ℕ) (v : Vm H) (s t : ProcessState H)
      → v.vmm_process ≡ s.0
      → Drifts H s t
      → ((k : ℕ) → IsSound H k s.0 → IsSound H k t.0)
      → Refines kind n (v, s.1) (record v { vmm_process = t.0 }, t.1)
  unfolding life IsSoundVm
  drift-Refines kind n v s t e drift keep (sound, flag) =
      let sound' : IsSound H n s.0 = rw e at sound in
      let grows = stage-kept n s.0 t.0 keep sound' in
      (
        (keep n sound', λ b. omega (arith, ap (λ p. stage H p.state) e, flag b)),
        rw e (drift-Course kind v.is_paused s t (IsSound-zero n s.0 sound') drift),
      )

  pub Refines-chain :
      (kind : Kind) (n : ℕ) (s t u : VmWorld H)
      → Refines kind n s t
      → Refines kind n t u
      → Refines kind n s u
  Refines-chain kind n s t u h k sound =
      let (sound', p) = h sound in
      let (sound'', q) = k sound' in
      (sound'', join_courses kind (life s.0) (life t.0) (life u.0) p q)

module _ (H : Host) (J : Json) (kind : Kind) (n : ℕ) where
  -- A call of the process that drifts and keeps it sound.
  pub on_process-Refines :
      {A : Type 0} (m : ProcessAction H A)
      → DriftsBy H m
      → ((k : ℕ) → Keeps H k m)
      → Moves (Refines H kind n) (on_process H J m)
  on_process-Refines m drifts keeps (v, w) =
      drift-Refines H kind n v (v.vmm_process, w) (m (v.vmm_process, w)).1 refl
        (drifts (v.vmm_process, w)) (λ k. keeps k (v.vmm_process, w))

  pub state-Refines : Moves (Refines H kind n) (state H J)
  unfolding state
  state-Refines (v, w) =
      drift-Refines H kind n v (v.vmm_process, w) (Process.state H (v.vmm_process, w)).1 refl
        (state-DriftsBy H (v.vmm_process, w))
        (λ k. unfold Process.state in update_state-IsSound H k (v.vmm_process, w))

  pub pass-Refines : (v : Vm H) (w w' : H.World) → Refines H kind n (v, w) (v, w')
  pass-Refines v w w' sound = (sound, here (life H v))

  -- The motion along the abstract machine.
  unfoldable pub following : Motion H J
  following = record {
    Rel = Refines H kind n;
    passes = pass-Refines;
    chain = Refines-chain H kind n;
    sees = state-Refines;
    asks = λ route request.
        on_process-Refines (Process.Socket.send_api_request H route request)
          (send_api_request-DriftsBy H route request)
          (λ k.
            Hoare-Keeps H k (λ s. IsSound H k s.0) (Process.Socket.send_api_request H route request)
              (send_api_request_triple H k route request) (λ s h. h));
  }
