-- ===== src/Process/Requests.antt =====
-- The requests of src/process.rs, and `cleanup`, keep the invariant.
use fctools.Base.{ℕ, Bool, true, false, none, Outcome, ok, err, panic, ok_or, not}
use fctools.Base.Action.{of_outcome, fail_if}
use fctools.Base.Triples.{Ends, bind_triple}
use fctools.Text.{Text, txt}
use fctools.FilePath.{FilePath}
use fctools.Host.{Host, Request}
use fctools.Host.Calls.{call, answer}
use fctools.Executor.{force_chown}
use fctools.Process.{
  VmmProcessState, awaiting_prepare, awaiting_start, started, exited, crashed, ProcessState,
  VmmProcessError, executor_error, hyper_client_failed, ctrl_alt_del_request_not_built,
  incorrect_socket_uri, socket_was_disabled, outside, executor_call, update_process,
  get_socket_path, ensure_state, ensure_exited_or_crashed, check_exited_or_crashed, update_state,
  cleanup,
}
use fctools.Process.Socket.{
  socket_ref, init_from, init_hyper_client, send_api_request, is_success, send_ctrl_alt_del,
}
use fctools.Process.Invariant.{
  IsSound, Kept, Sits, Hoare, ensure_state-Sits, outside_triple, update_state-IsSound,
}
use fctools.Process.Operations.{state_eq_started}

module _ (H : Host) (n : ℕ) where
  abbrev Runs : ProcessState H → Type 0
  Runs s = Sits H n started s.0

  of_outcome_triple :
      {A : Type 0} (J : ProcessState H → Type 0) (r : Outcome (VmmProcessError H) A)
      → ((s : ProcessState H) → J s → IsSound H n s.0)
      → Hoare H n (λ s. IsSound H n s.0) J (of_outcome r) (λ a s. J s)
  unfolding Ends
  of_outcome_triple J (ok a) sound s h = h
  of_outcome_triple J (err e) sound s h = sound s h
  of_outcome_triple J panic sound s h = sound s h

  fail_if_triple :
      (test : Bool) (e : VmmProcessError H)
      → Hoare H n (λ s. IsSound H n s.0) (λ s. IsSound H n s.0) (fail_if test e) (Kept H n)
  unfolding Ends
  fail_if_triple true e s h = h
  fail_if_triple false e s h = h

  client_made :
      Hoare H n
        (λ s. IsSound H n s.0)
        Runs
        (update_process H (λ p. record p { hyper_client = true }))
        (λ a. Runs)
  unfolding Ends IsSound get_socket_path
  client_made (p, w) ((phase, path, low), st) = ((rw st (rw st at phase), path, low), st)

  init_from_triple :
      (b : Bool) (path : FilePath)
      → Hoare H n (λ s. IsSound H n s.0) Runs (init_from H b path) (λ a. Runs)
  init_from_triple true path = of_outcome_triple Runs (ok tt) (λ s h. h.0)
  init_from_triple false path =
      bind_triple _ _ (λ a. Runs) _ (executor_call H (λ p. force_chown H path p.shell_spawner)) _
        (outside_triple H n _ (Sits H n started) executor_error _ (λ p h. h.0) (λ p w h e. h))
        (λ a. client_made)

  pub send_api_request_triple :
      (route : Text) (request : Request)
      → Hoare H n
          (λ s. IsSound H n s.0)
          (λ s. IsSound H n s.0)
          (send_api_request H route request)
          (Kept H n)
  unfolding send_api_request init_hyper_client
  send_api_request_triple route request =
      bind_triple _ _ (λ a. Runs) _ (ensure_state H started) _
        (ensure_state-Sits H n _ started (state_eq_started H))
        (λ a.
          bind_triple _ _ (λ a. Runs) _ (socket_ref H) _
            (λ s. of_outcome_triple Runs (ok_or s.0.socket_path socket_was_disabled) (λ s h. h.0) s)
            (λ path.
              bind_triple _ _ (λ a. Runs) _ (init_hyper_client H path) _
                (λ s. init_from_triple s.0.hyper_client path s)
                (λ a.
                  bind_triple _ _ (λ a. Runs) _
                    (of_outcome (ok_or (H.unix_uri path route) incorrect_socket_uri)) _
                    (of_outcome_triple Runs _ (λ s h. h.0))
                    (λ uri s h.
                      outside_triple H n _ (IsSound H n) hyper_client_failed
                        (λ p. call (λ e. e) (H.request uri request)) (λ p x. x) (λ p w x e. x) s
                        h.0))))

  pub send_ctrl_alt_del_triple :
      Hoare H n (λ s. IsSound H n s.0) (λ s. IsSound H n s.0) (send_ctrl_alt_del H) (Kept H n)
  unfolding send_ctrl_alt_del
  send_ctrl_alt_del_triple =
      bind_triple _ _ (λ a s. IsSound H n s.0) _
        (outside H ctrl_alt_del_request_not_built (λ p. of_outcome (
          answer (H.build_request (txt "PUT") none (txt "{\"action_type\": \"SendCtrlAltDel\"}")))))
        _
        (outside_triple H n _ (IsSound H n) ctrl_alt_del_request_not_built _ (λ p h. h)
          (λ p w h e. h))
        (λ request.
          bind_triple _ _ (λ a s. IsSound H n s.0) _ (send_api_request H (txt "/actions") request) _
            (send_api_request_triple (txt "/actions") request)
            (λ response. fail_if_triple (not (is_success (H.status response))) _))

  check_triple :
      (actual : VmmProcessState H)
      → Hoare H n
          (λ s. IsSound H n s.0)
          (λ s. IsSound H n s.0)
          (check_exited_or_crashed H actual)
          (Kept H n)
  unfolding Ends
  check_triple awaiting_prepare s h = h
  check_triple awaiting_start s h = h
  check_triple started s h = h
  check_triple exited s h = h
  check_triple (crashed x) s h = h

  pub cleanup_triple :
      Hoare H n (λ s. IsSound H n s.0) (λ s. IsSound H n s.0) (cleanup H) (Kept H n)
  unfolding cleanup ensure_exited_or_crashed
  cleanup_triple =
      bind_triple _ _ (λ a s. IsSound H n s.0) _ (ensure_exited_or_crashed H) _
        (λ s h.
          check_triple (update_state H s).0.state (update_state H s) (update_state-IsSound H n s h))
        (λ a.
          outside_triple H n _ (IsSound H n) executor_error
            (λ p. p.executor.cleanup p.installation p.shell_spawner) (λ p h. h) (λ p w h e. h))
