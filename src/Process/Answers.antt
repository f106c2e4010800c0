-- ===== src/Process/Answers.antt =====
-- What the calls of src/process.rs answer.
use mathlib.Core.List.{flat_map}
use mathlib.Core.Path.{subst}
use fctools.Base.{
  ◌≡◌, refl, sym, ap, ◌∙◌, arith, ℕ, Bool, true, false, Outcome, map_err, Option, none, some, List,
  [], ◌∷◌, ◌++◌, map, ok_or, Done, append_assoc, append-nil, ok, err, panic, inl, inr, ◌⊎◌,
}
use fctools.Base.Action.{Action, ◌>>=◌, bind_inv, of_outcome}
use fctools.Text.{Text}
use fctools.FilePath.{FilePath}
use fctools.Host.{Host, Frame, chunk, trailers, Request}
use fctools.Host.Calls.{call, call-ok_inv}
use fctools.ShellSpawner.{ShellSpawner}
use fctools.Executor.{VmmExecutor, VmmInstallation, force_chown}
use fctools.Process.{
  VmmProcessState, started, ProcessState, prepare, state_eq, update_state, ensure_state,
  take_outer_paths, VmmProcessError, incorrect_socket_uri, socket_was_disabled, hyper_client_failed,
  executor_error, executor_call, outside, state, new_arced,
}
use fctools.Process.Operations.{state_eq_started}
use fctools.Process.Socket.{recv_to_buf, send_api_request, socket_ref, init_from, init_hyper_client}

-- The data of a frame.
abbrev data_of : Frame → List ℕ
data_of (chunk bytes) = bytes
data_of trailers = []

map_err_inv :
    {E F A W : Type 0} (f : E → F) (r : Outcome E A × W) {a : A} {w : W}
    → ◌≡◌ {A = Outcome F A × W} (map_err f r.0, r.1) (ok a, w)
    → r ≡ (ok a, w)
map_err_inv f (ok x, v) h = ap (λ x. x) cc
map_err_inv f (err x, v) h = absurd cc
map_err_inv f (panic, v) h = absurd cc

module _ (H : Host) where
  abbrev frames_ok : List Frame → List (H.BodyError ⊎ Frame)
  frames_ok = map inr

  -- From a body without errors, all the data is received in order, however it is cut into frames; from
  -- a body whose first error is `e`, that error.
  pub recv_to_buf_lem :
      (frames : List Frame) (buf : List ℕ) (e : H.BodyError) (rest : List (H.BodyError ⊎ Frame))
      → (recv_to_buf H (frames_ok frames) buf ≡ ok (buf ++ flat_map data_of frames))
        × (recv_to_buf H (frames_ok frames ++ (inl e ∷ rest)) buf ≡ err e)
  unfolding recv_to_buf flat_map
  recv_to_buf_lem [] buf e rest = (ap ok (sym (append-nil buf)), refl)
  recv_to_buf_lem (chunk bytes ∷ frames) buf e rest =
      let (received, failed) = recv_to_buf_lem frames (buf ++ bytes) e rest in
      (received ∙ ap ok (append_assoc buf bytes _), failed)
  recv_to_buf_lem (trailers ∷ frames) buf e rest = recv_to_buf_lem frames buf e rest

  outside_inv :
      {E A : Type 0} (f : E → VmmProcessError H) (m : Action H.World E A) (s : ProcessState H)
      {a : A} {t : ProcessState H}
      → outside H f (λ p. m) s ≡ (ok a, t)
      → (m s.1 ≡ (ok a, t.1)) × (s.0 ≡ t.0)
  outside_inv f m s h = (map_err_inv f (m s.1) (ap (λ r. (r.0, r.1.1)) h), ap (λ r. r.1.0) h)

  request_inv :
      (uri : H.Uri) (request : Request) (s : ProcessState H) {response : H.Response}
      {u : ProcessState H}
      → outside H hyper_client_failed (λ p. call (λ e. e) (H.request uri request)) s
        ≡ (ok response, u)
      → (H.request uri request s.1 ≡ (inr response, u.1)) × (s.0 ≡ u.0)
  request_inv uri request s h =
      let (answered, same) =
        outside_inv hyper_client_failed (call (λ e. e) (H.request uri request)) s h in
      (call-ok_inv (λ e. e) (H.request uri request) s.1 answered, same)

  requested :
      (o : Option H.Uri) (request : Request) (s : ProcessState H) {response : H.Response}
      {u : ProcessState H}
      → (of_outcome (ok_or o incorrect_socket_uri) >>= λ uri.
            outside H hyper_client_failed (λ p. call (λ e. e) (H.request uri request)))
          s
        ≡ (ok response, u)
      → (uri : H.Uri) × (o ≡ some uri)
        × (H.request uri request s.1 ≡ (inr response, u.1))
        × (s.0 ≡ u.0)
  requested none request s h = absurd cc
  requested (some uri) request s h =
      let (answered, same) = request_inv uri request s h in (uri, refl, answered, same)

  pub ensure_state_inv :
      (expected : VmmProcessState H) (s : ProcessState H) {a : Done} {s' : ProcessState H}
      → ensure_state H expected s ≡ (ok a, s')
      → (s' ≡ update_state H s) × (state_eq H (update_state H s).0.state expected ≡ true)
  unfolding ensure_state state
  ensure_state_inv expected s h = ground arith

  socket_inv :
      (o : Option FilePath) {path : FilePath}
      → ok_or {E = VmmProcessError H} o socket_was_disabled ≡ ok path
      → o ≡ some path
  socket_inv none h = absurd cc
  socket_inv (some p) h = ground arith

  -- The socket belongs to the caller, by a chown before the first request.
  abbrev pub Owned : Bool → FilePath → ShellSpawner H → H.World → H.World → Type 0
  Owned true socket spawner w w' = w ≡ w'
  Owned false socket spawner w w' = force_chown H socket spawner w ≡ (ok tt, w')

  init_inv :
      (b : Bool) (socket : FilePath) (s : ProcessState H) {a : Done} {t : ProcessState H}
      → s.0.hyper_client ≡ b
      → init_from H b socket s ≡ (ok a, t)
      → Owned b socket s.0.shell_spawner s.1 t.1 × (t.0.hyper_client ≡ true)
  init_inv true socket s e h = (ap (λ r. r.1.1) h, sym (ap (λ r. r.1.0.hyper_client) h) ∙ e)
  init_inv false socket s e h =
      let (a, t, x, y) =
        bind_inv (executor_call H (λ p. force_chown H socket p.shell_spawner)) _ s h in
      let (owned, same) = outside_inv executor_error (force_chown H socket s.0.shell_spawner) s x in
      (owned ∙ ap (λ w. (ok tt, w)) (ap (λ r. r.1.1) y), sym (ap (λ r. r.1.0.hyper_client) y))

  -- A response that `send_api_request` returns has been given by the HTTP client for the request as it
  -- was passed, at the URI of the process's socket and the route, and nothing was called afterwards. The
  -- process was found running. A process without a client was first made the owner of its socket, one with
  -- a client called nothing before the request, and either has a client from then on.
  pub send_api_request-answered :
      (route : Text) (request : Request) (s : ProcessState H) {response : H.Response}
      → (send_api_request H route request s).0 ≡ ok response
      → (socket : FilePath) × (uri : H.Uri) × (w : H.World) × ((update_state H s).0.state ≡ started)
        × ((update_state H s).0.socket_path ≡ some socket)
        × (H.unix_uri socket route ≡ some uri)
        × Owned
            (update_state H s).0.hyper_client
            socket
            (update_state H s).0.shell_spawner
            (update_state H s).1
            w
        × (H.request uri request w ≡ (inr response, (send_api_request H route request s).1.1))
        × ((send_api_request H route request s).1.0.hyper_client ≡ true)
  unfolding send_api_request init_hyper_client
  send_api_request-answered route request s {response} h =
      let u = (send_api_request H route request s).1 in
      let ended : send_api_request H route request s ≡ (ok response, u) = ap (λ r. (r, u)) h in
      let (a, s₁, running, h₁) = bind_inv (ensure_state H started) _ s ended in
      let (socket, s₂, got, h₂) = bind_inv (socket_ref H) _ s₁ h₁ in
      let (b, s₃, owned, h₃) = bind_inv (init_hyper_client H socket) _ s₂ h₂ in
      let (uri, named, answered, last) = requested (H.unix_uri socket route) request s₃ h₃ in
      let (same, is_started) = ensure_state_inv started s running in
      let found : s₂ ≡ update_state H s = sym (ap (λ r. r.1) got) ∙ same in
      let (owns, has_client) = init_inv s₂.0.hyper_client socket s₂ refl owned in
      (
        socket,
        uri,
        s₃.1,
        state_eq_started H (update_state H s).0.state is_started,
        ap (λ x. x.0.socket_path) (sym same) ∙ socket_inv s₁.0.socket_path (ap (λ r. r.0) got),
        named,
        subst (λ x. Owned x.0.hyper_client socket x.0.shell_spawner x.1 s₃.1) found owns,
        answered,
        ap (λ p. p.hyper_client) (sym last) ∙ has_client,
      )

  -- When `prepare` of a new process ends in an error, the next `prepare` panics at its "Outer paths
  -- cannot ever be none, unreachable": the state still awaits it, and the paths have been taken.
  pub prepare-prepare_failed :
      (executor : VmmExecutor H) (spawner : ShellSpawner H) (installation : VmmInstallation)
      (paths : List FilePath) (w : H.World) {e : VmmProcessError H}
      → (prepare H (new_arced H executor spawner installation paths, w)).0 ≡ err e
      → (prepare H (prepare H (new_arced H executor spawner installation paths, w)).1).0 ≡ panic
  unfolding prepare ensure_state take_outer_paths state update_state state_eq new_arced
  prepare-prepare_failed executor spawner installation paths w h = ground arith
