-- ===== src/Metrics/Entry.antt =====
-- src/ext/metrics.rs: one entry of the metrics.
use fctools.Base.{ℕ}
use fctools.Metrics.Requests.{
  ApiServerMetrics, BalloonMetrics, BlockMetrics, DeprecatedApiMetrics, GetApiRequestsMetrics,
  PatchApiRequestsMetrics, PutApiRequestsMetrics, I8042Metrics, UartMetrics,
}
use fctools.Metrics.Devices.{
  LatencyMetrics, LoggerMetrics, MmdsMetrics, NetMetrics, SeccompMetrics, VcpuMetrics, VmmMetrics,
  SignalsMetrics, VsockMetrics, EntropyMetrics,
}

pub record Metrics : Type 0 where
  pub utc_timestamp_ms : ℕ
  pub api_server : ApiServerMetrics
  pub balloon : BalloonMetrics
  pub block : BlockMetrics
  pub deprecated_api : DeprecatedApiMetrics
  pub get_api_requests : GetApiRequestsMetrics
  pub patch_api_requests : PatchApiRequestsMetrics
  pub put_api_requests : PutApiRequestsMetrics
  pub i8042 : I8042Metrics
  pub uart : UartMetrics
  pub latencies_us : LatencyMetrics
  pub logger : LoggerMetrics
  pub mmds : MmdsMetrics
  pub net : NetMetrics
  pub seccomp : SeccompMetrics
  pub vcpu : VcpuMetrics
  pub vmm : VmmMetrics
  pub signals : SignalsMetrics
  pub vsock : VsockMetrics
  pub entropy : EntropyMetrics
