-- ===== src/Vsock.antt =====
-- src/ext/http_vsock.rs and src/ext/grpc_vsock.rs: connections to programs in the guest. The clients of
-- the crates hyper, hyper-client-sockets, hyper-util and tonic are the parameter `Clients`.
pub mod Laws
mod Tests
use fctools.Base.{ℕ, Done, Option, Outcome, ok_or, map_err, ◌++◌, ◌⊎◌}
use fctools.Base.Action.{Action, pure, ◌>>=◌, ◌>>◌, of_outcome}
use fctools.Text.{Text, txt}
use fctools.FilePath.{FilePath}
use fctools.Host.{Host, Request}
use fctools.Host.Calls.{Call, call, answer}
use fctools.Arguments.Printing.{decimal}
use fctools.Vm.Machine.{Vm}

-- `FirecrackerTowerService`
pub record FirecrackerTowerService : Type 0 where
  pub guest_port : ℕ
  pub uds_path : FilePath

pub record Clients (H : Host) : Type 1 where
  -- `HyperFirecrackerStream::connect`, `http1::handshake`, and `tokio::spawn` of the connection.
  pub Stream : Type 0
  pub SendRequest : Type 0
  pub Connection : Type 0
  pub connect : FilePath → ℕ → Call H.World H.IoError Stream
  pub handshake : Stream → Call H.World H.HyperError (SendRequest × Connection)
  pub spawn : Connection → H.World → H.World
  -- The pooled client, and `Uri::firecracker`.
  pub UriError : Type 0
  pub PoolError : Type 0
  pub Client : Type 0
  pub build : Client
  pub firecracker_uri : FilePath → ℕ → Text → UriError ⊎ H.Uri
  pub pool_request : Client → H.Uri → Request → Call H.World PoolError H.Response
  -- `Endpoint::try_from`, `connect_with_connector` and `connect_with_connector_lazy`.
  pub Endpoint : Type 0
  pub Channel : Type 0
  pub TonicError : Type 0
  pub try_from : Text → TonicError ⊎ Endpoint
  pub connect_with_connector : Endpoint → FirecrackerTowerService → Call H.World TonicError Channel
  pub connect_with_connector_lazy : Endpoint → FirecrackerTowerService → Channel

module _ (H : Host) (K : Clients H) where
  pub data VsockHttpError : Type 0 where
    vsock_not_configured : VsockHttpError
    cannot_connect : H.IoError → VsockHttpError
    cannot_handshake : H.HyperError → VsockHttpError
    cannot_bind : H.IoError → VsockHttpError

  pub data VsockHttpPoolError : Type 0 where
    uri_cannot_be_constructed : K.UriError → VsockHttpPoolError
    connection_pool_error : K.PoolError → VsockHttpPoolError

  pub record VsockHttpPool : Type 0 where
    pub client : K.Client
    pub socket_path : FilePath
    pub guest_port : ℕ

  pub data VsockGrpcError : Type 0 where
    vsock_not_configured : VsockGrpcError
    provided_address_rejected connection_failed : K.TonicError → VsockGrpcError

  abbrev pub HttpAction : Type 0 → Type 0
  HttpAction A = Action H.World VsockHttpError A

  abbrev pub GrpcAction : Type 0 → Type 0
  GrpcAction A = Action H.World VsockGrpcError A

  -- The path of the vsock, or the error that there is none.
  abbrev pub http_path : Vm H → HttpAction FilePath
  http_path vm =
      of_outcome
        (ok_or vm.accessible_paths.vsock_multiplexer_path VsockHttpError.vsock_not_configured)

  unfoldable pub vsock_connect_over_http : Vm H → ℕ → HttpAction K.SendRequest
  vsock_connect_over_http vm guest_port = do
    uds_path ← http_path vm
    stream ← call cannot_connect (K.connect uds_path guest_port)
    shaken ← call cannot_handshake (K.handshake stream)
    (λ w. pure shaken.0 (K.spawn shaken.1 w))

  unfoldable pub vsock_create_http_connection_pool : Vm H → ℕ → HttpAction VsockHttpPool
  vsock_create_http_connection_pool vm guest_port = do
    socket_path ← http_path vm
    pure (record { client = K.build; socket_path = socket_path; guest_port = guest_port })

  -- `VsockHttpPool::send_request`
  unfoldable pub send_request :
      VsockHttpPool → Text → Request → Action H.World VsockHttpPoolError H.Response
  send_request pool uri request = do
    actual_uri ← of_outcome (
        map_err uri_cannot_be_constructed
          (answer (K.firecracker_uri pool.socket_path pool.guest_port uri)))
    call connection_pool_error (K.pool_request pool.client actual_uri request)

  unfoldable pub create_endpoint_and_service :
      Vm H → ℕ → (K.Endpoint → K.Endpoint) → GrpcAction (K.Endpoint × FirecrackerTowerService)
  create_endpoint_and_service vm guest_port configure_endpoint = do
    uds_path ←
        of_outcome
          (ok_or vm.accessible_paths.vsock_multiplexer_path VsockGrpcError.vsock_not_configured)
    endpoint ← of_outcome (
        map_err provided_address_rejected
          (answer (K.try_from (txt "http://[::1]:" ++ decimal guest_port))))
    pure (configure_endpoint endpoint, record { guest_port = guest_port; uds_path = uds_path })

  unfoldable pub vsock_connect_over_grpc :
      Vm H → ℕ → (K.Endpoint → K.Endpoint) → GrpcAction K.Channel
  unfolding create_endpoint_and_service
  vsock_connect_over_grpc vm guest_port configure_endpoint = do
    made ← create_endpoint_and_service vm guest_port configure_endpoint
    call connection_failed (K.connect_with_connector made.0 made.1)

  unfoldable pub vsock_lazily_connect_over_grpc :
      Vm H → ℕ → (K.Endpoint → K.Endpoint) → GrpcAction K.Channel
  unfolding create_endpoint_and_service
  vsock_lazily_connect_over_grpc vm guest_port configure_endpoint = do
    made ← create_endpoint_and_service vm guest_port configure_endpoint
    pure (K.connect_with_connector_lazy made.0 made.1)

  -- `FirecrackerTowerService::call`
  unfoldable pub call_service : FirecrackerTowerService → Action H.World H.IoError K.Stream
  call_service service = call (λ e. e) (K.connect service.uds_path service.guest_port)
