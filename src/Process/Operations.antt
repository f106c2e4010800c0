-- ===== src/Process/Operations.antt =====
-- The operations of src/process.rs keep the invariant, and those on the child do not panic.
use fctools.Base.{arith, ◌≤◌, ℕ, ◌≡◌, refl, true, Option, none, some, List}
use fctools.Base.Triples.{Ends, bind_triple}
use fctools.FilePath.{FilePath}
use fctools.Arguments.{ConfigurationFileOverride}
use fctools.Host.{Host, Child}
use fctools.Process.{
  VmmProcess, VmmProcessState, awaiting_prepare, awaiting_start, started, exited, crashed,
  executor_error, state_eq, ensure_state, get_socket_path, take_outer_paths, take_from,
  executor_call, prepare, invoke,
}
use fctools.Process.Invariant.{
  IsSound, Kept, Sits, pure_Sound, Hoare, ensure_state-Sits, outside_triple,
}

module _ (H : Host) where
  state_eq_prepare :
      (a : VmmProcessState H) → state_eq H a awaiting_prepare ≡ true → a ≡ awaiting_prepare
  unfolding state_eq
  state_eq_prepare awaiting_prepare e = refl
  state_eq_prepare awaiting_start e = absurd cc
  state_eq_prepare started e = absurd cc
  state_eq_prepare exited e = absurd cc
  state_eq_prepare (crashed x) e = absurd cc

  pub state_eq_start :
      (a : VmmProcessState H) → state_eq H a awaiting_start ≡ true → a ≡ awaiting_start
  unfolding state_eq
  state_eq_start awaiting_start e = refl
  state_eq_start awaiting_prepare e = absurd cc
  state_eq_start started e = absurd cc
  state_eq_start exited e = absurd cc
  state_eq_start (crashed x) e = absurd cc

  pub state_eq_started : (a : VmmProcessState H) → state_eq H a started ≡ true → a ≡ started
  unfolding state_eq
  state_eq_started started e = refl
  state_eq_started awaiting_prepare e = absurd cc
  state_eq_started awaiting_start e = absurd cc
  state_eq_started exited e = absurd cc
  state_eq_started (crashed x) e = absurd cc

module _ (H : Host) (n : ℕ) where
  -- A process that `prepare` has tested, with no resources left to hand out.
  Emptied : VmmProcess H → Type 0
  Emptied p = Sits H n awaiting_prepare p × (p.outer_paths ≡ none)

  take_from-Emptied :
      (o : Option (List FilePath)) (p : VmmProcess H) (w : H.World)
      → p.state ≡ awaiting_prepare
      → IsSound H n p
      → Ends
          (λ s. IsSound H n s.0)
          (λ s. IsSound H n s.0)
          (λ a s. Emptied s.0)
          (take_from H o (p, w))
  unfolding Emptied IsSound get_socket_path Ends
  take_from-Emptied none p w e h = h
  take_from-Emptied (some paths) p w e (phase, path, low) =
      (((rw e (rw e at phase), path, low), e), refl)

  prepare_done : (p : VmmProcess H) → Emptied p → IsSound H n (record p { state = awaiting_start })
  unfolding Emptied IsSound get_socket_path
  prepare_done p (((phase, path, low), e), empty) =
      let (child, client) = rw e at phase in
      let early : n ≤ 0 = rw e at low in ((child, client, empty), path, omega arith)

  -- `prepare` with a sound process in any state leaves it sound.
  pub prepare_triple :
      Hoare H n (λ s. IsSound H n s.0) (λ s. IsSound H n s.0) (prepare H) (Kept H n)
  unfolding prepare take_outer_paths Emptied
  prepare_triple =
      bind_triple _ _ (λ a s. Sits H n awaiting_prepare s.0) _ (ensure_state H awaiting_prepare) _
        (ensure_state-Sits H n _ awaiting_prepare (state_eq_prepare H))
        (λ a.
          bind_triple _ _ (λ o s. Emptied s.0) _ (take_outer_paths H) _
            (λ s (sound, same). take_from-Emptied s.0.outer_paths s.0 s.1 same sound)
            (λ paths.
              bind_triple _ _ (λ m s. Emptied s.0) _
                (executor_call H (λ p. p.executor.prepare p.installation p.shell_spawner paths)) _
                (outside_triple H n _ Emptied executor_error _ (λ p h. h.0.0) (λ p w h e. h))
                (λ m s h. pure_Sound H n _ _ _ (prepare_done s.0 h))))

  invoke_done :
      (p : VmmProcess H) (c : Child H.Handle H.Pipe)
      → Sits H n awaiting_start p
      → IsSound H n (record p { child = some c; state = started })
  unfolding IsSound get_socket_path
  invoke_done p c ((phase, path, low), e) =
      let (child, client, empty) = rw e at phase in
      let early : n ≤ 1 = rw e at low in ((c, refl, empty), path, omega arith)

  pub invoke_triple :
      (c : ConfigurationFileOverride)
      → Hoare H n (λ s. IsSound H n s.0) (λ s. IsSound H n s.0) (invoke H c) (Kept H n)
  unfolding invoke
  invoke_triple c =
      bind_triple _ _ (λ a s. Sits H n awaiting_start s.0) _ (ensure_state H awaiting_start) _
        (ensure_state-Sits H n _ awaiting_start (state_eq_start H))
        (λ a.
          bind_triple _ _ (λ m s. Sits H n awaiting_start s.0) _
            (executor_call H (λ p. p.executor.invoke p.installation p.shell_spawner c)) _
            (outside_triple H n _ (Sits H n awaiting_start) executor_error _ (λ p h. h.0)
              (λ p w h e. h))
            (λ m s h. pure_Sound H n _ _ _ (invoke_done s.0 m h)))
