-- ===== src/Process/Socket.antt =====
-- The API socket of src/process.rs: requests, the shutdown by Ctrl+Alt+Del, and response bodies.
use fctools.Base.{
  ℕ, Done, Bool, true, false, not, ◌&&◌, none, List, [], ◌∷◌, ◌++◌, ltb, leb, Outcome, ok, err,
  panic, ok_or, inl, inr, ◌⊎◌,
}
use fctools.Base.Action.{Action, of_outcome, ◌>>=◌, ◌>>◌, fail_if}
use fctools.Text.{Text, txt}
use fctools.FilePath.{FilePath}
use fctools.Host.{Host, Request, Frame, chunk, trailers}
use fctools.Host.Calls.{call, answer}
use fctools.Executor.{force_chown}
use fctools.Process.{
  socket_was_disabled, incorrect_socket_uri, hyper_client_failed, ctrl_alt_del_request_not_built,
  ctrl_alt_del_request_failed, ProcessAction, outside, executor_call, update_process, ensure_state,
  started,
}

-- `StatusCode::is_success`
unfoldable pub is_success : ℕ → Bool
is_success status = leb 200 status && ltb status 300

module _ (H : Host) where
  -- `self.socket_path.as_ref().ok_or(SocketWasDisabled)?`
  abbrev pub socket_ref : ProcessAction H FilePath
  socket_ref (p, w) = (ok_or p.socket_path socket_was_disabled, (p, w))

  abbrev pub init_from : Bool → FilePath → ProcessAction H Done
  init_from true socket_path s = (ok tt, s)
  init_from false socket_path s =
      (executor_call H (λ p. force_chown H socket_path p.shell_spawner)
          >> update_process H (λ p. record p { hyper_client = true }))
        s

  -- `get_or_try_init`: the socket is owned once, before the client is made.
  unfoldable pub init_hyper_client : FilePath → ProcessAction H Done
  init_hyper_client socket_path s = init_from s.0.hyper_client socket_path s

  unfoldable pub send_api_request : Text → Request → ProcessAction H H.Response
  unfolding ensure_state init_hyper_client
  send_api_request route request = do
    ensure_state H started
    socket_path ← socket_ref
    init_hyper_client socket_path
    uri ← of_outcome (ok_or (H.unix_uri socket_path route) incorrect_socket_uri)
    outside H hyper_client_failed (λ p. call (λ e. e) (H.request uri request))

  unfoldable pub send_ctrl_alt_del : ProcessAction H Done
  unfolding send_api_request is_success
  send_ctrl_alt_del = do
    request ← outside H ctrl_alt_del_request_not_built (λ p.
        of_outcome
          (answer (H.build_request (txt "PUT") none (txt "{\"action_type\": \"SendCtrlAltDel\"}"))))
    response ← send_api_request (txt "/actions") request
    fail_if (not (is_success (H.status response))) (ctrl_alt_del_request_failed (H.status response))

  -- `HyperResponseExt::recv_to_buf`, from the buffer so far.
  unfoldable pub recv_to_buf : List (H.BodyError ⊎ Frame) → List ℕ → Outcome H.BodyError (List ℕ)
  recv_to_buf [] buf = ok buf
  recv_to_buf (inl e ∷ frames) buf = err e
  recv_to_buf (inr (chunk bytes) ∷ frames) buf = recv_to_buf frames (buf ++ bytes)
  recv_to_buf (inr trailers ∷ frames) buf = recv_to_buf frames buf

  abbrev map_ok : {E A B : Type 0} → (A → B) → Outcome E A → Outcome E B
  map_ok f r = elim r [ ok a ↦ ok (f a) | err e ↦ err e | panic ↦ panic ]

  -- `HyperResponseExt::recv_to_string`
  unfoldable pub recv_to_string : H.Response → Action H.World H.BodyError Text
  unfolding recv_to_buf
  recv_to_string response w =
      let (frames, w') = H.frames response w in
      (map_ok H.from_utf8_lossy (recv_to_buf frames []), w')
