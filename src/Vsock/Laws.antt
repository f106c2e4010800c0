-- ===== src/Vsock/Laws.antt =====
-- Where src/ext/http_vsock.rs and src/ext/grpc_vsock.rs connect to.
use mathlib.Core.Path.{subst}
use fctools.Base.{
  ◌≡◌, refl, sym, ap, ◌∙◌, ℕ, Option, none, some, Outcome, ok, err, panic, ok_or, inl, inr,
}
use fctools.Base.Action.{◌>>=◌, pure, bind-eq, bind-err}
use fctools.FilePath.{FilePath}
use fctools.Host.{Host}
use fctools.Host.Calls.{call, answer_cases, call-inl, call-inr}
use fctools.ShellSpawner.{ShellSpawner}
use fctools.Executor.{VmmExecutor, VmmInstallation}
use fctools.Process.{inner_to_outer_path}
use fctools.Models.{VsockDevice}
use fctools.Vm.Configuration.{VmConfiguration, data_of}
use fctools.Vm.Machine.{Json, Vm}
use fctools.Vm.Prepare.{prepare_arced}
use fctools.Vm.Prepare.Places.{vsock_place}
use fctools.Vm.Prepare.Laws.{prepare_arced-IsPrepared}
use fctools.Vsock.{
  Clients, VsockHttpError, cannot_connect, cannot_handshake, http_path, vsock_connect_over_http,
}

module _ (H : Host) (K : Clients H) where
  -- What was answered for each result of a connection over HTTP to this path and port.
  abbrev pub Connects :
      FilePath → ℕ → H.World → Outcome (VsockHttpError H K) K.SendRequest × H.World → Type 0
  Connects path port w (ok send_request, w') =
      (stream : K.Stream) × (w1 : H.World) × (connection : K.Connection) × (w2 : H.World)
      × (K.connect path port w ≡ (inr stream, w1))
      × (K.handshake stream w1 ≡ (inr (send_request, connection), w2))
      × (w' ≡ K.spawn connection w2)
  Connects path port w (err (cannot_connect e), w') = K.connect path port w ≡ (inl e, w')
  Connects path port w (err (cannot_handshake e), w') =
      (stream : K.Stream) × (w1 : H.World) × (K.connect path port w ≡ (inr stream, w1))
      × (K.handshake stream w1 ≡ (inl e, w'))
  Connects path port w (err _, w') = ⊥
  Connects path port w (panic, w') = ⊥

  shaken_hands :
      (path : FilePath) (port : ℕ) (w w1 : H.World) (stream : K.Stream)
      → K.connect path port w ≡ (inr stream, w1)
      → Connects path port w (
          (call {F = VsockHttpError H K} cannot_handshake (K.handshake stream) >>= λ shaken w.
          pure shaken.0 (K.spawn shaken.1 w))
            w1)
  shaken_hands path port w w1 stream h =
      let shake = call {F = VsockHttpError H K} cannot_handshake (K.handshake stream) in
      elim (answer_cases (K.handshake stream w1)) [
        | inl (e, w2, g) ↦
            subst (Connects path port w)
              (sym (bind-err shake _ w1 (call-inl cannot_handshake (K.handshake stream) w1 g)))
              (stream, w1, h, g)
        | inr ((send_request, connection), w2, g) ↦
            subst (Connects path port w)
              (sym (bind-eq shake _ w1 (call-inr cannot_handshake (K.handshake stream) w1 g)))
              (stream, w1, connection, w2, h, g, refl)
      ]

  connected :
      (v : Vm H) (path : FilePath) (port : ℕ) (w : H.World)
      → v.accessible_paths.vsock_multiplexer_path ≡ some path
      → Connects path port w (vsock_connect_over_http H K v port w)
  unfolding vsock_connect_over_http
  connected v path port w e =
      let connect = call {F = VsockHttpError H K} cannot_connect (K.connect path port) in
      let found : http_path H K v w ≡ (ok path, w) =
        ap (λ o. (ok_or o VsockHttpError.vsock_not_configured, w)) e in
      subst (Connects path port w) (sym (bind-eq (http_path H K v) _ w found))
        (elim (answer_cases (K.connect path port w)) [
          | inl (e, w1, h) ↦
              subst (Connects path port w)
                (sym (bind-err connect _ w (call-inl cannot_connect (K.connect path port) w h))) h
          | inr (stream, w1, h) ↦
              subst (Connects path port w)
                (sym (bind-eq connect _ w (call-inr cannot_connect (K.connect path port) w h)))
                (shaken_hands path port w w1 stream h)
        ])

module _ (H : Host) (J : Json) (K : Clients H) where
  -- To the vsock of the configuration, or nowhere.
  abbrev pub Reaches :
      Vm H
      → Option VsockDevice
      → ℕ
      → H.World
      → Outcome (VsockHttpError H K) K.SendRequest × H.World
      → Type 0
  Reaches v none port w r = r ≡ (err VsockHttpError.vsock_not_configured, w)
  Reaches v (some vsock) port w r =
      Connects H K (inner_to_outer_path H v.vmm_process vsock.uds_path) port w r

  reached :
      (v : Vm H) (o : Option VsockDevice) (port : ℕ) (w : H.World)
      → v.accessible_paths.vsock_multiplexer_path
        ≡ vsock_place (v.vmm_process.executor.inner_to_outer_path v.vmm_process.installation) o
      → Reaches v o port w (vsock_connect_over_http H K v port w)
  unfolding inner_to_outer_path
  reached v none port w e =
      unfold vsock_connect_over_http in
      bind-err (http_path H K v) _ w (ap (λ o. (ok_or o VsockHttpError.vsock_not_configured, w)) e)
  reached v (some vsock) port w e = connected H K v _ port w e

  -- On a machine as `prepare_arced` returns it, a connection over HTTP goes to the given port at the outer
  -- path of the vsock that the given configuration has. It fails with the error of the connection or of the
  -- handshake, or hands the connection to the runtime. Without a vsock nothing is called.
  pub vsock_connect_over_http-Reaches :
      (executor : VmmExecutor H) (spawner : ShellSpawner H) (installation : VmmInstallation)
      (configuration : VmConfiguration) (w : H.World) {v : Vm H}
      → (prepare_arced H J executor spawner installation configuration w).0 ≡ ok v
      → (port : ℕ) (w' : H.World)
      → Reaches v
          (data_of configuration).vsock_device
          port
          w'
          (vsock_connect_over_http H K v port w')
  vsock_connect_over_http-Reaches executor spawner installation configuration w {v = v} e port w' =
      let (sound, waits, original, owned, (c, m, configured, asked, names, rest, access)) =
        prepare_arced-IsPrepared H J executor spawner installation configuration w e in
      let (drives, metrics, log, vsock, listeners) = access in
      let same : (data_of c).vsock_device ≡ (data_of configuration).vsock_device =
        ap (λ d. d.vsock_device) rest in
      reached v (data_of configuration).vsock_device port w'
        (vsock ∙ rw (same, owned.0, owned.2) refl)
