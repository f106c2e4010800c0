-- ===== src/Metrics/Requests.antt =====
-- src/ext/metrics.rs: the metrics of the API server, the block devices and the requests.
use fctools.Base.{ℕ}

pub record MetricsAggregate : Type 0 where
  pub min_us : ℕ
  pub max_us : ℕ
  pub sum_us : ℕ

pub record ApiServerMetrics : Type 0 where
  pub process_startup_time_us : ℕ
  pub process_startup_time_cpu_us : ℕ
  pub sync_response_fails : ℕ
  pub sync_vmm_send_timeout_count : ℕ

pub record BalloonMetrics : Type 0 where
  pub activate_fails : ℕ
  pub inflate_count : ℕ
  pub stats_updates_count : ℕ
  pub stats_update_fails : ℕ
  pub deflate_count : ℕ
  pub event_fails : ℕ

pub record BlockMetrics : Type 0 where
  pub activate_fails : ℕ
  pub cfg_fails : ℕ
  pub no_avail_buffer : ℕ
  pub event_fails : ℕ
  pub execute_fails : ℕ
  pub invalid_reqs_count : ℕ
  pub flush_count : ℕ
  pub queue_event_count : ℕ
  pub rate_limiter_event_count : ℕ
  pub update_count : ℕ
  pub update_fails : ℕ
  pub read_bytes : ℕ
  pub write_bytes : ℕ
  pub read_count : ℕ
  pub write_count : ℕ
  pub read_agg : MetricsAggregate
  pub write_agg : MetricsAggregate
  pub rate_limiter_throttled_events : ℕ
  pub io_engine_throttled_events : ℕ
  pub remaining_reqs_count : ℕ

pub record DeprecatedApiMetrics : Type 0 where
  pub deprecated_http_api_calls : ℕ
  pub deprecated_cmd_line_api_calls : ℕ

pub record GetApiRequestsMetrics : Type 0 where
  pub instance_info_count : ℕ
  pub machine_cfg_count : ℕ
  pub mmds_count : ℕ
  pub vmm_version_count : ℕ

pub record PatchApiRequestsMetrics : Type 0 where
  pub drive_count : ℕ
  pub drive_fails : ℕ
  pub network_count : ℕ
  pub network_fails : ℕ
  pub machine_cfg_count : ℕ
  pub machine_cfg_fails : ℕ
  pub mmds_count : ℕ
  pub mmds_fails : ℕ

pub record PutApiRequestsMetrics : Type 0 where
  pub actions_count : ℕ
  pub actions_fails : ℕ
  pub boot_source_count : ℕ
  pub boot_source_fails : ℕ
  pub drive_count : ℕ
  pub drive_fails : ℕ
  pub logger_count : ℕ
  pub logger_fails : ℕ
  pub machine_cfg_count : ℕ
  pub machine_cfg_fails : ℕ
  pub cpu_cfg_count : ℕ
  pub cpu_cfg_fails : ℕ
  pub metrics_count : ℕ
  pub metrics_fails : ℕ
  pub network_count : ℕ
  pub network_fails : ℕ
  pub mmds_count : ℕ
  pub mmds_fails : ℕ
  pub vsock_count : ℕ
  pub vsock_fails : ℕ

pub record I8042Metrics : Type 0 where
  pub error_count : ℕ
  pub missed_read_count : ℕ
  pub missed_write_count : ℕ
  pub read_count : ℕ
  pub write_count : ℕ
  pub reset_count : ℕ

pub record UartMetrics : Type 0 where
  pub error_count : ℕ
  pub flush_count : ℕ
  pub missed_read_count : ℕ
  pub missed_write_count : ℕ
  pub read_count : ℕ
  pub write_count : ℕ
