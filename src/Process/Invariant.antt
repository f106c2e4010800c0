-- ===== src/Process/Invariant.antt =====
-- The invariant of the process of src/process.rs, kept by each of its operations.
use fctools.Base.{
  arith, ◌≤◌, ℕ, ◌≡◌, refl, Bool, true, false, Option, none, some, List, Bool-cases, inl, inr, ◌⊎◌,
  Outcome, ok, err, panic, map_err,
}
use fctools.Base.Action.{Action, pure}
use fctools.Base.Triples.{Ends, Triple, Ends_all}
use fctools.FilePath.{FilePath}
use fctools.Host.{Host, Child}
use fctools.Process.{
  VmmProcess, VmmProcessState, awaiting_prepare, awaiting_start, started, exited, crashed,
  VmmProcessError, ProcessState, ProcessAction, outside, observed, exit_state, poll, update_state,
  state_eq, state, ensure_state, get_socket_path,
}

module _ (H : Host) where
  -- What the process holds in each of its states: the child, the HTTP client, the resources.
  abbrev pub Phase :
      VmmProcessState H → Option (Child H.Handle H.Pipe) → Bool → Option (List FilePath) → Type 0
  Phase awaiting_prepare child hyper_client outer_paths = (child ≡ none) × (hyper_client ≡ false)
  Phase awaiting_start child hyper_client outer_paths =
      (child ≡ none) × (hyper_client ≡ false) × (outer_paths ≡ none)
  Phase _ child hyper_client outer_paths =
      (c : Child H.Handle H.Pipe) × (child ≡ some c) × (outer_paths ≡ none)

  -- How far a process in the given state has come.
  abbrev pub stage : VmmProcessState H → ℕ
  stage awaiting_prepare = 0
  stage awaiting_start = 1
  stage started = 2
  stage exited = 3
  stage (crashed x) = 3

  Phase-exit :
      (success : Bool) (x : H.ExitStatus) (c : Child H.Handle H.Pipe) (b : Bool)
      (o : Option (List FilePath))
      → o ≡ none
      → Phase (exit_state H success x) (some c) b o
  Phase-exit true x c b o e = (c, refl, e)
  Phase-exit false x c b o e = (c, refl, e)

  Phase-paths :
      (state : VmmProcessState H) (c : Child H.Handle H.Pipe) (b : Bool)
      (o : Option (List FilePath))
      → Phase state (some c) b o
      → o ≡ none
  Phase-paths awaiting_prepare c b o h = absurd cc
  Phase-paths awaiting_start c b o h = absurd cc
  Phase-paths started c b o h = h.2
  Phase-paths exited c b o h = h.2
  Phase-paths (crashed x) c b o h = h.2

  Phase-observed :
      (st : VmmProcessState H) (answer : H.IoError ⊎ Option H.ExitStatus)
      (c : Child H.Handle H.Pipe) (b : Bool) (o : Option (List FilePath))
      → Phase st (some c) b o
      → Phase (observed H st answer) (some c) b o
  Phase-observed st (inl failed) c b o h = h
  Phase-observed st (inr none) c b o h = h
  Phase-observed st (inr (some x)) c b o h =
      Phase-exit (H.success x) x c b o (Phase-paths st c b o h)

  pub stage-exit : (success : Bool) (x : H.ExitStatus) → stage (exit_state H success x) ≡ 3
  stage-exit true x = refl
  stage-exit false x = refl

  stage_max : (st : VmmProcessState H) → stage st ≤ 3
  stage_max awaiting_prepare = omega arith
  stage_max awaiting_start = omega arith
  stage_max started = omega arith
  stage_max exited = omega arith
  stage_max (crashed x) = omega arith

module _ (H : Host) (n : ℕ) where
  -- A process that has come at least as far as the bound, and holds what its state asks for.
  unfoldable pub IsSound : VmmProcess H → Type 0
  IsSound p =
      Phase H p.state p.child p.hyper_client p.outer_paths
      × (p.socket_path ≡ get_socket_path H p)
      × (n ≤ stage H p.state)

  stage-observed :
      (st : VmmProcessState H) (answer : H.IoError ⊎ Option H.ExitStatus)
      (c : Child H.Handle H.Pipe) (b : Bool) (o : Option (List FilePath))
      → Phase H st (some c) b o
      → n ≤ stage H st
      → n ≤ stage H (observed H st answer)
  stage-observed st (inl failed) c b o h low = low
  stage-observed st (inr none) c b o h low = low
  stage-observed st (inr (some x)) c b o h low =
      omega (arith, stage_max H st, stage-exit H (H.success x) x)

  poll-IsSound :
      (child : Option (Child H.Handle H.Pipe)) (p : VmmProcess H) (w : H.World)
      → p.child ≡ child
      → IsSound p
      → IsSound (poll H child (p, w)).0
  unfolding IsSound get_socket_path
  poll-IsSound none p w e h = h
  poll-IsSound (some c) p w e (phase, path, low) = (
    rw e (
        Phase-observed H p.state (H.try_wait c.handle w).0 c p.hyper_client p.outer_paths
          (rw e at phase)),
    path,
    stage-observed p.state (H.try_wait c.handle w).0 c p.hyper_client p.outer_paths (rw e at phase)
        low,
  )

  pub update_state-IsSound : (s : ProcessState H) → IsSound s.0 → IsSound (update_state H s).0
  unfolding update_state
  update_state-IsSound (p, w) h = poll-IsSound p.child p w refl h

  -- A sound process in the given state.
  abbrev pub Sits : VmmProcessState H → VmmProcess H → Type 0
  Sits state p = IsSound p × (p.state ≡ state)

  abbrev pub Kept : {A : Type 0} → A → ProcessState H → Type 0
  Kept a s = IsSound s.0

  -- Each end of the action is sound.
  abbrev pub Keeps : {A : Type 0} → ProcessAction H A → Type 0
  Keeps m = (s : ProcessState H) → IsSound s.0 → IsSound (m s).1.0

  -- A triple whose errors are sound and whose panics satisfy `K`.
  abbrev pub Hoare :
      {A : Type 0}
      → (ProcessState H → Type 0)
      → (ProcessState H → Type 0)
      → ProcessAction H A
      → (A → ProcessState H → Type 0)
      → Type 0
  Hoare K = Triple (λ s. IsSound s.0) K

  pub Hoare-Keeps :
      {A : Type 0} (K : ProcessState H → Type 0) (m : ProcessAction H A)
      → Hoare K (λ s. IsSound s.0) m Kept
      → ((s : ProcessState H) → K s → IsSound s.0)
      → Keeps m
  Hoare-Keeps K m h k s sound =
      Ends_all (λ s'. IsSound s'.0) K (λ s'. IsSound s'.0) Kept (m s) (h s sound) (λ a s' x. x)
        (λ s' x. x) k

  module _ (K : ProcessState H → Type 0) where
    pub pure_Sound :
        {A : Type 0} (a : A) (s : ProcessState H)
        → IsSound s.0
        → Ends (λ s'. IsSound s'.0) K Kept (pure {E = VmmProcessError H} a s)
    unfolding Ends
    pure_Sound a s h = h

    pub ensure_state-Sits :
        (expected : VmmProcessState H)
        → ((a : VmmProcessState H) → state_eq H a expected ≡ true → a ≡ expected)
        → Hoare K (λ s. IsSound s.0) (ensure_state H expected) (λ a s. Sits expected s.0)
    unfolding ensure_state state Ends
    ensure_state-Sits expected same s h =
        let kept = update_state-IsSound s h in
        let actual = (update_state H s).0.state in
        elim (Bool-cases (state_eq H actual expected)) [
          | inl e ↦ rw e (kept, same actual e)
          | inr e ↦ rw e kept
        ]

    module _ {E A : Type 0} (J : VmmProcess H → Type 0) where
      Ends-map_err :
          (f : E → VmmProcessError H) (r : Outcome E A) (p : VmmProcess H) (w : H.World)
          → J p
          → IsSound p
          → (r ≡ panic → K (p, w))
          → Ends (λ s. IsSound s.0) K (λ a s. J s.0) (map_err f r, (p, w))
      unfolding Ends
      Ends-map_err f (ok a) p w j sound k = j
      Ends-map_err f (err e) p w j sound k = sound
      Ends-map_err f panic p w j sound k = k refl

      -- A call that does not change the process keeps what is known of it.
      pub outside_triple :
          (f : E → VmmProcessError H) (m : VmmProcess H → Action H.World E A)
          → ((p : VmmProcess H) → J p → IsSound p)
          → ((p : VmmProcess H) (w : H.World) → IsSound p → (m p w).0 ≡ panic → K (p, (m p w).1))
          → Hoare K (λ s. J s.0) (outside H f m) (λ a s. J s.0)
      outside_triple f m sound k (p, w) j =
          Ends-map_err f (m p w).0 p (m p w).1 j (sound p j) (k p w (sound p j))
