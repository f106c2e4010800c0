-- ===== src/Process/Drift.antt =====
-- The calls of src/process.rs on a prepared process change its state in one way only: a child that has
-- ended is noticed.
use fctools.Base.{
  ◌≡◌, refl, ap, ◌∙◌, Bool, true, false, Option, none, some, ◌⊎◌, inl, inr, Done, not, ok_or,
}
use fctools.Base.Action.{pure, ◌>>=◌, ◌>>◌, of_outcome, fail_if}
use fctools.Base.Moving.{Moves, fail_if-Moves, bind-Moves}
use fctools.Text.{Text, txt}
use fctools.FilePath.{FilePath}
use fctools.Host.{Host, Child, Request}
use fctools.Host.Calls.{call, answer}
use fctools.Executor.{force_chown}
use fctools.Process.{
  VmmProcess, VmmProcessState, awaiting_prepare, awaiting_start, started, exited, crashed,
  ProcessState, ProcessAction, outside, executor_call, update_process, observed, poll, update_state,
  state, state_eq, expected_state, ensure_state, check_exited_or_crashed, ensure_exited_or_crashed,
  child_ref, set_child, expect_child, pipe_or_error, take_pipes, send_sigkill, wait_for_exit,
  begin_wait, cleanup, sigkill_failed, wait_failed, ctrl_alt_del_request_failed,
  ctrl_alt_del_request_not_built, hyper_client_failed, incorrect_socket_uri, VmmProcessPipes,
}
use fctools.Process.Socket.{
  socket_ref, init_from, init_hyper_client, send_api_request, send_ctrl_alt_del, is_success,
}
use fctools.Process.Invariant.{stage, stage-exit}

module _ (H : Host) where
  abbrev pub HasChild : VmmProcess H → Type 0
  HasChild p = (c : Child H.Handle H.Pipe) × (p.child ≡ some c)

  -- The state stays, or the child has ended; no child appears.
  abbrev pub Drifts : ProcessState H → ProcessState H → Type 0
  Drifts s t =
      ((t.0.state ≡ s.0.state) ⊎ (HasChild s.0 × (stage H t.0.state ≡ 3)))
      × (HasChild t.0 → HasChild s.0)

  pub stays : (s : ProcessState H) → Drifts s s
  stays s = (inl refl, λ h. h)

  then_ended :
      (s t u : ProcessState H)
      → Drifts s t
      → (u.0.state ≡ t.0.state) ⊎ (HasChild t.0 × (stage H u.0.state ≡ 3))
      → (u.0.state ≡ s.0.state) ⊎ (HasChild s.0 × (stage H u.0.state ≡ 3))
  then_ended s t u (h, back) (inr (child, ended)) = inr (back child, ended)
  then_ended s t u (inl same, back) (inl same') = inl (same' ∙ same)
  then_ended s t u (inr (child, ended), back) (inl same') = inr (child, ap (stage H) same' ∙ ended)

  pub chained : (s t u : ProcessState H) → Drifts s t → Drifts t u → Drifts s u
  chained s t u h k = (then_ended s t u h k.0, λ c. h.1 (k.1 c))

  abbrev pub DriftsBy : {A : Type 0} → ProcessAction H A → Type 0
  DriftsBy m = Moves Drifts m

  then_drift :
      {A B : Type 0} (m : ProcessAction H A) (f : A → ProcessAction H B)
      → DriftsBy m
      → ((a : A) → DriftsBy (f a))
      → DriftsBy (m >>= f)
  then_drift m f h k = bind-Moves Drifts chained m f h k

  observed-stage :
      (st : VmmProcessState H) (answer : H.IoError ⊎ Option H.ExitStatus)
      → (observed H st answer ≡ st) ⊎ (stage H (observed H st answer) ≡ 3)
  observed-stage st (inl e) = inl refl
  observed-stage st (inr none) = inl refl
  observed-stage st (inr (some x)) = inr (stage-exit H (H.success x) x)

  poll-Drifts :
      (o : Option (Child H.Handle H.Pipe)) (p : VmmProcess H) (w : H.World)
      → p.child ≡ o
      → Drifts (p, w) (poll H o (p, w))
  poll-Drifts none p w e = stays (p, w)
  poll-Drifts (some c) p w e = (
    elim (observed-stage p.state (H.try_wait c.handle w).0) [
      | inl same ↦ inl same
      | inr ended ↦ inr ((c, e), ended)
    ],
    λ h. h,
  )

  pub state-DriftsBy : DriftsBy (state H)
  unfolding state update_state
  state-DriftsBy (p, w) = poll-Drifts p.child p w refl

  pub ensure_state-DriftsBy : (expected : VmmProcessState H) → DriftsBy (ensure_state H expected)
  unfolding ensure_state
  ensure_state-DriftsBy expected =
      then_drift (state H)
        (λ actual. fail_if (not (state_eq H actual expected)) (expected_state expected actual))
        state-DriftsBy
        (λ actual.
          fail_if-Moves Drifts stays (not (state_eq H actual expected))
            (expected_state expected actual))

  check-DriftsBy : (actual : VmmProcessState H) → DriftsBy (check_exited_or_crashed H actual)
  check-DriftsBy awaiting_prepare = stays
  check-DriftsBy awaiting_start = stays
  check-DriftsBy started = stays
  check-DriftsBy exited = stays
  check-DriftsBy (crashed x) = stays

  pub cleanup-DriftsBy : DriftsBy (cleanup H)
  unfolding cleanup ensure_exited_or_crashed
  cleanup-DriftsBy =
      then_drift (state H >>= check_exited_or_crashed H)
        (λ a. executor_call H (λ p. p.executor.cleanup p.installation p.shell_spawner))
        (then_drift (state H) (check_exited_or_crashed H) state-DriftsBy check-DriftsBy)
        (λ a s. (inl refl, λ h. h))

  -- What is done to a child that is there.
  abbrev Held : {A : Type 0} → ProcessAction H A → Type 0
  Held m = (s : ProcessState H) → HasChild s.0 → Drifts s (m s).1

  expect_child-Drifts :
      {A : Type 0} (f : Child H.Handle H.Pipe → ProcessAction H A)
      (o : Option (Child H.Handle H.Pipe)) (s : ProcessState H)
      → s.0.child ≡ o
      → ((c : Child H.Handle H.Pipe) → Held (f c))
      → Drifts s ((expect_child H o >>= f) s).1
  expect_child-Drifts f none s e k = stays s
  expect_child-Drifts f (some c) s e k = k c s (c, e)

  with_child :
      {A : Type 0} (f : Child H.Handle H.Pipe → ProcessAction H A)
      → ((c : Child H.Handle H.Pipe) → Held (f c))
      → DriftsBy (child_ref H >>= f)
  unfolding child_ref
  with_child f k s = expect_child-Drifts f s.0.child s refl k

  set_child-Held :
      {A : Type 0} (c : Child H.Handle H.Pipe) (f : Done → ProcessAction H A)
      → Held (f tt)
      → Held (set_child H c >>= f)
  set_child-Held c f k s child =
      let t : ProcessState H = (record s.0 { child = some c }, s.1) in
      chained s t (f tt t).1 (inl refl, λ h. child) (k t (c, refl))

  pipe_or_error-Held :
      {A : Type 0} (pipe : Option H.Pipe) (f : H.Pipe → ProcessAction H A)
      → ((p : H.Pipe) → Held (f p))
      → Held (pipe_or_error H pipe >>= f)
  pipe_or_error-Held none f k s child = stays s
  pipe_or_error-Held (some p) f k s child = k p s child

  checked :
      {A : Type 0} (f : ProcessAction H A) → DriftsBy f → DriftsBy (ensure_state H started >> f)
  checked f k =
      then_drift (ensure_state H started) (λ a. f) (ensure_state-DriftsBy started) (λ a. k)

  pub take_pipes-DriftsBy : DriftsBy (take_pipes H)
  unfolding take_pipes
  take_pipes-DriftsBy =
      let last : H.Pipe → H.Pipe → H.Pipe → ProcessAction H (VmmProcessPipes H.Pipe) =
        λ stdin stdout stderr. pure (record { stdin = stdin; stdout = stdout; stderr = stderr }) in
      let third : Child H.Handle H.Pipe
          → H.Pipe
          → H.Pipe
          → Done
          → ProcessAction H (VmmProcessPipes H.Pipe) =
        λ c stdin stdout a. pipe_or_error H c.stderr >>= last stdin stdout in
      let second : Child H.Handle H.Pipe
          → H.Pipe
          → Done
          → ProcessAction H (VmmProcessPipes H.Pipe) =
        λ c stdin a. pipe_or_error H c.stdout >>= λ stdout.
        set_child H (record c { stdin = none; stdout = none; stderr = none })
        >>= third c stdin stdout in
      let first : Child H.Handle H.Pipe → Done → ProcessAction H (VmmProcessPipes H.Pipe) = λ c a.
        pipe_or_error H c.stdin >>= λ stdin.
        set_child H (record c { stdin = none; stdout = none }) >>= second c stdin in
      checked (child_ref H >>= λ c. set_child H (record c { stdin = none }) >>= first c) (
        with_child (λ c. set_child H (record c { stdin = none }) >>= first c)
          (λ c.
            set_child-Held (record c { stdin = none }) (first c)
              (pipe_or_error-Held c.stdin
                (λ stdin. set_child H (record c { stdin = none; stdout = none }) >>= second c stdin)
                (λ stdin.
                  set_child-Held (record c { stdin = none; stdout = none }) (second c stdin)
                    (pipe_or_error-Held c.stdout
                      (λ stdout.
                        set_child H (record c { stdin = none; stdout = none; stderr = none })
                        >>= third c stdin stdout)
                      (λ stdout.
                        set_child-Held (record c { stdin = none; stdout = none; stderr = none })
                          (third c stdin stdout)
                          (pipe_or_error-Held c.stderr (last stdin stdout)
                            (λ stderr s child. stays s))))))))

  pub send_sigkill-DriftsBy : DriftsBy (send_sigkill H)
  unfolding send_sigkill
  send_sigkill-DriftsBy =
      let killed : Child H.Handle H.Pipe → ProcessAction H Done =
        λ c. outside H sigkill_failed (λ p. call (λ e. e) (H.start_kill c.handle)) in
      checked (child_ref H >>= killed) (with_child killed (λ c s child. (inl refl, λ h. h)))

  pub wait_for_exit-DriftsBy : DriftsBy (wait_for_exit H)
  unfolding wait_for_exit
  wait_for_exit-DriftsBy =
      let waited : Child H.Handle H.Pipe → Done → ProcessAction H H.ExitStatus =
        λ c a. outside H wait_failed (λ p. call (λ e. e) (H.wait c.handle)) in
      let begun : Child H.Handle H.Pipe → ProcessAction H H.ExitStatus =
        λ c. set_child H (record c { stdin = none }) >>= waited c in
      checked (child_ref H >>= begun) (
        with_child begun (λ c.
          set_child-Held (record c { stdin = none }) (waited c) (λ s child. (inl refl, λ h. h))))

  pub begin_wait-DriftsBy : DriftsBy (begin_wait H)
  unfolding begin_wait
  begin_wait-DriftsBy =
      let closed : Child H.Handle H.Pipe → ProcessAction H Done =
        λ c. set_child H (record c { stdin = none }) in
      checked (child_ref H >>= closed) (with_child closed (λ c s child. (inl refl, λ h. child)))

  init_from-DriftsBy : (b : Bool) (path : FilePath) → DriftsBy (init_from H b path)
  init_from-DriftsBy true path s = stays s
  init_from-DriftsBy false path s =
      then_drift (executor_call H (λ p. force_chown H path p.shell_spawner))
        (λ a. update_process H (λ p. record p { hyper_client = true })) (λ s. (inl refl, λ h. h))
        (λ a s. (inl refl, λ h. h)) s

  pub send_api_request-DriftsBy :
      (route : Text) (request : Request) → DriftsBy (send_api_request H route request)
  unfolding send_api_request init_hyper_client
  send_api_request-DriftsBy route request =
      let sent : FilePath → ProcessAction H H.Response = λ path.
        of_outcome (ok_or (H.unix_uri path route) incorrect_socket_uri) >>= λ uri.
        outside H hyper_client_failed (λ p. call (λ e. e) (H.request uri request)) in
      let made : FilePath → ProcessAction H H.Response =
        λ path. init_hyper_client H path >>= λ a. sent path in
      checked (socket_ref H >>= made) (
        then_drift (socket_ref H) made stays (λ path.
          then_drift (init_hyper_client H path) (λ a. sent path)
            (λ s. init_from-DriftsBy s.0.hyper_client path s)
            (λ a.
              then_drift (of_outcome (ok_or (H.unix_uri path route) incorrect_socket_uri))
                (λ uri. outside H hyper_client_failed (λ p. call (λ e. e) (H.request uri request)))
                stays (λ uri s. (inl refl, λ h. h)))))

  pub send_ctrl_alt_del-DriftsBy : DriftsBy (send_ctrl_alt_del H)
  unfolding send_ctrl_alt_del
  send_ctrl_alt_del-DriftsBy =
      let built : ProcessAction H Request = outside H ctrl_alt_del_request_not_built (λ p.
        of_outcome (
          answer
            (H.build_request (txt "PUT") none (txt "{\"action_type\": \"SendCtrlAltDel\"}")))) in
      then_drift built
        (λ request. send_api_request H (txt "/actions") request >>= λ response.
          fail_if (not (is_success (H.status response)))
            (ctrl_alt_del_request_failed (H.status response)))
        (λ s. (inl refl, λ h. h))
        (λ request.
          then_drift (send_api_request H (txt "/actions") request)
            (λ response.
              fail_if (not (is_success (H.status response)))
                (ctrl_alt_del_request_failed (H.status response)))
            (send_api_request-DriftsBy (txt "/actions") request)
            (λ response.
              fail_if-Moves Drifts stays (not (is_success (H.status response)))
                (ctrl_alt_del_request_failed (H.status response))))
