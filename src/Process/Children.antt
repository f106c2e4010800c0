-- ===== src/Process/Children.antt =====
-- The operations on the child process of src/process.rs: they keep the invariant and do not panic.
use fctools.Base.{Done, ℕ, arith, ◌≡◌, ◌≢◌, refl, Option, none, some, panic}
use fctools.Base.Action.{Action, pure, ◌>>=◌}
use fctools.Base.Triples.{Ends, bind_triple, Ends-ne}
use fctools.Host.{Host, Child}
use fctools.Host.Calls.{Call, call}
use fctools.Process.{
  VmmProcess, started, VmmProcessError, sigkill_failed, wait_failed, ProcessState, outside,
  ensure_state, get_socket_path, expect_child, child_ref, set_child, pipe_or_error, take_pipes,
  send_sigkill, wait_for_exit, begin_wait, ProcessAction,
}
use fctools.Process.Invariant.{
  IsSound, Kept, Sits, pure_Sound, Hoare, ensure_state-Sits, outside_triple,
}
use fctools.Process.Operations.{state_eq_started}

-- A call of the host does not panic.
pub call_ne : {W E F A : Type 0} (f : E → F) (c : Call W E A) (w : W) → (call f c w).0 ≢ panic
call_ne f c w h = ground arith

module _ (H : Host) (n : ℕ) where
  abbrev pub Never : ProcessState H → Type 0
  Never s = ⊥

  abbrev pub Runs : VmmProcess H → Type 0
  Runs = Sits H n started

  expect_child-Runs :
      (o : Option (Child H.Handle H.Pipe)) (p : VmmProcess H) (w : H.World)
      → p.child ≡ o
      → Runs p
      → Ends (λ s. IsSound H n s.0) Never (λ c s. Runs s.0) (expect_child H o (p, w))
  unfolding Ends IsSound
  expect_child-Runs none p w e ((phase, path, low), st) =
      let (c, has, empty) = rw st at phase in absurd cc
  expect_child-Runs (some c) p w e h = h

  set_child-Runs :
      (c : Child H.Handle H.Pipe)
      → Hoare H n Never (λ s. Runs s.0) (set_child H c) (λ a s. Runs s.0)
  unfolding Ends IsSound get_socket_path
  set_child-Runs c (p, w) ((phase, path, low), st) =
      let (d, has, empty) = rw st at phase in ((rw st (c, refl, empty), path, low), st)

  pipe-Runs :
      (o : Option H.Pipe) → Hoare H n Never (λ s. Runs s.0) (pipe_or_error H o) (λ a s. Runs s.0)
  unfolding Ends
  pipe-Runs none s h = h.0
  pipe-Runs (some pipe) s h = h

  child_ref-Runs : Hoare H n Never (λ s. Runs s.0) (child_ref H) (λ c s. Runs s.0)
  unfolding child_ref
  child_ref-Runs (p, w) h = expect_child-Runs p.child p w refl h

  ensure_state-Runs :
      Hoare H n Never (λ s. IsSound H n s.0) (ensure_state H started) (λ c s. Runs s.0)
  ensure_state-Runs = ensure_state-Sits H n Never started (state_eq_started H)

  -- A first part that leaves the child running, and then the rest.
  Runs-then :
      {A B : Type 0} {P : ProcessState H → Type 0}
      (m : Action (ProcessState H) (VmmProcessError H) A)
      (f : A → Action (ProcessState H) (VmmProcessError H) B)
      → Hoare H n Never P m (λ a s. Runs s.0)
      → ((a : A) → Hoare H n Never (λ s. Runs s.0) (f a) (Kept H n))
      → Hoare H n Never P (m >>= f) (Kept H n)
  Runs-then m f = bind_triple _ _ (λ a s. Runs s.0) _ m f

  pub take_pipes_triple : Hoare H n Never (λ s. IsSound H n s.0) (take_pipes H) (Kept H n)
  unfolding take_pipes
  take_pipes_triple = Runs-then (ensure_state H started) _ ensure_state-Runs (λ a.
      Runs-then (child_ref H) _ child_ref-Runs (λ c.
        Runs-then (set_child H (record c { stdin = none })) _ (set_child-Runs _) (λ a.
          Runs-then (pipe_or_error H c.stdin) _ (pipe-Runs _) (λ stdin.
            Runs-then (set_child H (record c { stdin = none; stdout = none })) _ (set_child-Runs _)
              (λ a. Runs-then (pipe_or_error H c.stdout) _ (pipe-Runs _) (λ stdout.
                Runs-then (set_child H (record c { stdin = none; stdout = none; stderr = none })) _
                  (set_child-Runs _)
                  (λ a.
                    Runs-then (pipe_or_error H c.stderr)
                      (λ stderr. pure (record { stdin = stdin; stdout = stdout; stderr = stderr }))
                      (pipe-Runs _)
                      (λ stderr s h.
                        pure_Sound H n Never
                          (record { stdin = stdin; stdout = stdout; stderr = stderr }) s h.0))))))))

  -- A call of the host at the end.
  calls_Sound :
      {E A : Type 0} (f : E → VmmProcessError H) (m : VmmProcess H → Call H.World E A)
      → Hoare H n Never (λ s. Runs s.0) (outside H f (λ p. call (λ e. e) (m p))) (Kept H n)
  calls_Sound f m s h =
      outside_triple H n Never (IsSound H n) f (λ p. call (λ e. e) (m p)) (λ p x. x)
        (λ p w x e. call_ne _ (m p) w e) s h.0

  pub send_sigkill_triple : Hoare H n Never (λ s. IsSound H n s.0) (send_sigkill H) (Kept H n)
  unfolding send_sigkill
  send_sigkill_triple = Runs-then (ensure_state H started) _ ensure_state-Runs (λ a.
      Runs-then (child_ref H) _ child_ref-Runs
        (λ c. calls_Sound sigkill_failed (λ p. H.start_kill c.handle)))

  pub wait_for_exit_triple : Hoare H n Never (λ s. IsSound H n s.0) (wait_for_exit H) (Kept H n)
  unfolding wait_for_exit
  wait_for_exit_triple = Runs-then (ensure_state H started) _ ensure_state-Runs (λ a.
      Runs-then (child_ref H) _ child_ref-Runs (λ c.
        Runs-then (set_child H (record c { stdin = none })) _ (set_child-Runs _)
          (λ a. calls_Sound wait_failed (λ p. H.wait c.handle))))

  pub begin_wait_triple : Hoare H n Never (λ s. IsSound H n s.0) (begin_wait H) (Kept H n)
  unfolding begin_wait Ends
  begin_wait_triple =
      let closed : Child H.Handle H.Pipe → ProcessAction H Done =
        λ c. set_child H (record c { stdin = none }) in
      Runs-then (ensure_state H started) (λ a. child_ref H >>= closed) ensure_state-Runs
        (λ a.
          Runs-then (child_ref H) closed child_ref-Runs
            (λ c s h. (set_child-Runs (record c { stdin = none }) s h).0))

  -- A child that has been spawned is there in every state in which `take_pipes`, `send_sigkill` and
  -- `wait_for_exit` expect it: from a sound process none of the three panics.
  pub child_operations_ne :
      (s : ProcessState H)
      → IsSound H n s.0
      → ((take_pipes H s).0 ≢ panic)
        × ((send_sigkill H s).0 ≢ panic)
        × ((wait_for_exit H s).0 ≢ panic)
  child_operations_ne s h = (
    Ends-ne _ Never (Kept H n) (take_pipes H s) (λ s' x. x) (take_pipes_triple s h),
    Ends-ne _ Never (Kept H n) (send_sigkill H s) (λ s' x. x) (send_sigkill_triple s h),
    Ends-ne _ Never (Kept H n) (wait_for_exit H s) (λ s' x. x) (wait_for_exit_triple s h),
  )
