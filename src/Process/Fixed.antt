-- ===== src/Process/Fixed.antt =====
-- What the calls of src/process.rs never change: the executor, the installation and the shell spawner.
use fctools.Base.{◌≡◌, refl, ◌∙◌, Bool, true, false, Option, none, some, not, ok_or}
use fctools.Base.Action.{◌>>=◌, of_outcome, fail_if}
use fctools.Base.Moving.{Moves, fail_if-Moves, bind-Moves}
use fctools.Text.{Text}
use fctools.FilePath.{FilePath}
use fctools.Host.{Host, Child, Request}
use fctools.Host.Calls.{call}
use fctools.Executor.{force_chown}
use fctools.Process.{
  VmmProcessState, started, ProcessState, ProcessAction, outside, executor_call, update_process,
  poll, update_state, state, state_eq, expected_state, ensure_state, hyper_client_failed,
  incorrect_socket_uri,
}
use fctools.Process.Socket.{socket_ref, init_from, init_hyper_client, send_api_request}

module _ (H : Host) where
  abbrev pub Fixed : ProcessState H → ProcessState H → Type 0
  Fixed s t =
      (t.0.executor ≡ s.0.executor)
      × (t.0.installation ≡ s.0.installation)
      × (t.0.shell_spawner ≡ s.0.shell_spawner)

  stays : (s : ProcessState H) → Fixed s s
  stays s = (refl, refl, refl)

  pub Fixed-chain : (s t u : ProcessState H) → Fixed s t → Fixed t u → Fixed s u
  Fixed-chain s t u (a, b, c) (a', b', c') = (a' ∙ a, b' ∙ b, c' ∙ c)

  abbrev FixedBy : {A : Type 0} → ProcessAction H A → Type 0
  FixedBy m = Moves Fixed m

  then_fixed :
      {A B : Type 0} (m : ProcessAction H A) (f : A → ProcessAction H B)
      → FixedBy m
      → ((a : A) → FixedBy (f a))
      → FixedBy (m >>= f)
  then_fixed m f h k = bind-Moves Fixed Fixed-chain m f h k

  poll-Fixed : (o : Option (Child H.Handle H.Pipe)) (s : ProcessState H) → Fixed s (poll H o s)
  poll-Fixed none s = stays s
  poll-Fixed (some c) s = (refl, refl, refl)

  pub state-Fixed : FixedBy (state H)
  unfolding state update_state
  state-Fixed s = poll-Fixed s.0.child s

  pub ensure_state-Fixed : (expected : VmmProcessState H) → FixedBy (ensure_state H expected)
  unfolding ensure_state
  ensure_state-Fixed expected =
      then_fixed (state H)
        (λ actual. fail_if (not (state_eq H actual expected)) (expected_state expected actual))
        state-Fixed
        (λ actual.
          fail_if-Moves Fixed stays (not (state_eq H actual expected))
            (expected_state expected actual))

  init_from-Fixed : (b : Bool) (path : FilePath) → FixedBy (init_from H b path)
  init_from-Fixed true path s = stays s
  init_from-Fixed false path s =
      then_fixed (executor_call H (λ p. force_chown H path p.shell_spawner))
        (λ a. update_process H (λ p. record p { hyper_client = true })) (λ s. (refl, refl, refl))
        (λ a s. (refl, refl, refl)) s

  pub send_api_request-Fixed :
      (route : Text) (request : Request) → FixedBy (send_api_request H route request)
  unfolding send_api_request init_hyper_client
  send_api_request-Fixed route request =
      let sent : FilePath → ProcessAction H H.Response = λ path.
        of_outcome (ok_or (H.unix_uri path route) incorrect_socket_uri) >>= λ uri.
        outside H hyper_client_failed (λ p. call (λ e. e) (H.request uri request)) in
      let made : FilePath → ProcessAction H H.Response =
        λ path. init_hyper_client H path >>= λ a. sent path in
      then_fixed (ensure_state H started) (λ a. socket_ref H >>= made) (ensure_state-Fixed started)
        (λ a. then_fixed (socket_ref H) made stays (λ path.
          then_fixed (init_hyper_client H path) (λ a. sent path)
            (λ s. init_from-Fixed s.0.hyper_client path s)
            (λ a.
              then_fixed (of_outcome (ok_or (H.unix_uri path route) incorrect_socket_uri))
                (λ uri. outside H hyper_client_failed (λ p. call (λ e. e) (H.request uri request)))
                stays (λ uri s. (refl, refl, refl)))))
