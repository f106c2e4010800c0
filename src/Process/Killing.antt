-- ===== src/Process/Killing.antt =====
-- The child of src/process.rs on a host whose processes end when they are killed.
use mathlib.Core.Path.{subst}
use fctools.Base.{
  ◌≡◌, refl, sym, ap, ◌∙◌, Bool, true, false, not, Option, none, some, ◌⊎◌, inl, inr, Outcome, ok,
  err, panic,
}
use fctools.Base.Action.{fail_if, bind-eq, bind-err}
use fctools.Host.{Host, Child}
use fctools.Host.Calls.{call}
use fctools.Process.{
  VmmProcess, VmmProcessState, VmmProcessError, started, exited, ProcessState, ProcessAction,
  outside, observed, exit_state, poll, update_state, state_eq, expected_state, ensure_state,
  child_ref, expect_child, set_child, send_sigkill, wait_for_exit, sigkill_failed, wait_failed,
}
use fctools.Process

module _ (H : Host) (h : H.Handle) where
  abbrev pub HasHandle : VmmProcess H → Type 0
  HasHandle p = (c : Child H.Handle H.Pipe) × (p.child ≡ some c) × (c.handle ≡ h)

  pub polled :
      (p : VmmProcess H) (w w' : H.World) (a : H.IoError ⊎ Option H.ExitStatus)
      → HasHandle p
      → H.try_wait h w ≡ (a, w')
      → update_state H (p, w) ≡ (record p { state = observed H p.state a }, w')
  unfolding update_state
  polled p w w' a (c, e, e') t =
      ap (λ o. poll H o (p, w)) e
      ∙ ap (λ k. (record p { state = observed H p.state (H.try_wait k w).0 }, (H.try_wait k w).1))
          e'
      ∙ ap (λ r. (record p { state = observed H p.state r.0 }, r.1)) t

  found_started :
      (p : VmmProcess H) (w : H.World) (s : ProcessState H)
      → update_state H (p, w) ≡ s
      → s.0.state ≡ started
      → ensure_state H started (p, w) ≡ (ok tt, s)
  unfolding ensure_state Process.state state_eq
  found_started p w s u e =
      ap (λ t. fail_if (not (state_eq H t.0.state started)) (expected_state started t.0.state) t) u
      ∙ ap (λ st. fail_if (not (state_eq H st started)) (expected_state started st) s) e

  exit_ne : (b : Bool) (x : H.ExitStatus) → state_eq H (exit_state H b x) started ≡ false
  unfolding state_eq
  exit_ne true x = refl
  exit_ne false x = refl

  found_exit :
      (p : VmmProcess H) (w : H.World) (s : ProcessState H) (x : H.ExitStatus)
      → update_state H (p, w) ≡ s
      → s.0.state ≡ exit_state H (H.success x) x
      → ensure_state H started (p, w) ≡ (err (expected_state started s.0.state), s)
  unfolding ensure_state Process.state
  found_exit p w s x u e =
      ap (λ t. fail_if (not (state_eq H t.0.state started)) (expected_state started t.0.state) t) u
      ∙ ap (λ b. fail_if (not b) (expected_state started s.0.state) s)
          (ap (λ st. state_eq H st started) e ∙ exit_ne (H.success x) x)

  the_child :
      (p : VmmProcess H) (w : H.World) (c : Child H.Handle H.Pipe)
      → p.child ≡ some c
      → child_ref H (p, w) ≡ (ok c, (p, w))
  unfolding child_ref
  the_child p w c e = ap (λ o. expect_child H o (p, w)) e

  -- What becomes of a process: it lives, is dying once it was killed, and is dead once that was noticed.
  abbrev pub Lives : (H.World → Type 0) → H.World → Type 0
  Lives alive w = (w' : H.World) × (H.try_wait h w ≡ (inr none, w')) × alive w'

  abbrev pub Dies : (H.World → Type 0) → (H.World → Type 0) → H.World → Type 0
  Dies dying dead w =
      ((w' : H.World) × (H.try_wait h w ≡ (inr none, w')) × dying w')
      ⊎ ((x : H.ExitStatus) × (w' : H.World) × (H.try_wait h w ≡ (inr (some x), w')) × dead w')

  abbrev pub IsKilled : (H.World → Type 0) → H.World → Type 0
  IsKilled dying w = (w' : H.World) × (H.start_kill h w ≡ (inr tt, w')) × dying w'

  abbrev pub IsAwaited : (H.World → Type 0) → H.World → Type 0
  IsAwaited dead w = (x : H.ExitStatus) × (w' : H.World) × (H.wait h w ≡ (inr x, w')) × dead w'

  abbrev pub IsDead : H.World → Type 0
  IsDead w = (x : H.ExitStatus) × (w' : H.World) × (H.try_wait h w ≡ (inr (some x), w'))

  module _ (alive dying dead : H.World → Type 0) (lives : (w : H.World) → alive w → Lives alive w)
      (killed : (w : H.World) → alive w → IsKilled dying w)
      (dies : (w : H.World) → dying w → Dies dying dead w)
      (awaited : (w : H.World) → dying w → IsAwaited dead w)
      (died : (w : H.World) → dead w → IsDead w) where
    pub ensured :
        (p : VmmProcess H) (w : H.World)
        → HasHandle p
        → p.state ≡ started
        → alive w
        → (w' : H.World) × (ensure_state H started (p, w) ≡ (ok tt, (p, w'))) × alive w'
    ensured p w has st al =
        let (w', t, al') = lives w al in
        (w', found_started p w (p, w') (polled p w w' (inr none) has t) st, al')

    pub sigkilled :
        (p : VmmProcess H) (w : H.World)
        → HasHandle p
        → p.state ≡ started
        → alive w
        → (w' : H.World) × (send_sigkill H (p, w) ≡ (ok tt, (p, w'))) × dying w'
    unfolding send_sigkill
    sigkilled p w (c, e, e') st al =
        let (w1, first, al1) = ensured p w (c, e, e') st al in
        let (w2, k, dy) = killed w1 al1 in
        let last : outside H sigkill_failed (λ p. call (λ e. e) (H.start_kill c.handle)) (p, w1)
            ≡ (ok tt, (p, w2)) =
          ap (λ g. outside H sigkill_failed (λ p. call (λ e. e) (H.start_kill g)) (p, w1)) e'
          ∙ ap (λ r. outside H sigkill_failed (λ p. call (λ e. e) (λ w. r)) (p, w1)) k in
        (
          w2,
          bind-eq (ensure_state H started) _ (p, w) first
              ∙ bind-eq (child_ref H) _ (p, w1) (the_child p w1 c e)
              ∙ last,
          dy,
        )

    -- However the wait ends, it does not panic, and the process is dead.
    abbrev pub Ended : {A : Type 0} → Outcome (VmmProcessError H) A → ProcessState H → Type 0
    Ended r s = (r ≡ panic → ⊥) × HasHandle s.0 × dead s.1

    pub waited :
        (p : VmmProcess H) (w : H.World)
        → HasHandle p
        → p.state ≡ started
        → dying w
        → Ended (wait_for_exit H (p, w)).0 (wait_for_exit H (p, w)).1
    unfolding wait_for_exit
    waited p w (c, e, e') st dy = elim (dies w dy) [
      | inl (w1, t, dy1) ↦
          let (x, w2, k, de) = awaited w1 dy1 in
          let c' : Child H.Handle H.Pipe = record c { stdin = none } in
          let p' : VmmProcess H = record p { child = some c' } in
          let last : outside H wait_failed (λ p. call (λ e. e) (H.wait c.handle)) (p', w1)
              ≡ (ok x, (p', w2)) =
            ap (λ g. outside H wait_failed (λ p. call (λ e. e) (H.wait g)) (p', w1)) e'
            ∙ ap (λ r. outside H wait_failed (λ p. call (λ e. e) (λ w. r)) (p', w1)) k in
          let all : wait_for_exit H (p, w) ≡ (ok x, (p', w2)) =
            bind-eq (ensure_state H started) _ (p, w)
              (found_started p w (p, w1) (polled p w w1 (inr none) (c, e, e') t) st)
            ∙ bind-eq (child_ref H) _ (p, w1) (the_child p w1 c e)
            ∙ last in
          subst (λ r. Ended r.0 r.1) (sym all) (λ z. cc, (c', refl, e'), de)
      | inr (x, w1, t, de) ↦
          let q : VmmProcess H = record p { state = exit_state H (H.success x) x } in
          let all : wait_for_exit H (p, w) ≡ (err (expected_state started q.state), (q, w1)) =
            bind-err (ensure_state H started) _ (p, w)
              (found_exit p w (q, w1) x (polled p w w1 (inr (some x)) (c, e, e') t) refl) in
          subst (λ r. Ended r.0 r.1) (sym all) (λ z. cc, (c, e, e'), de)
    ]
