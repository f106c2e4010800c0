-- ===== src/Metrics/Devices.antt =====
-- src/ext/metrics.rs: the metrics of the other devices and of the virtual machine.
use fctools.Base.{ℕ}
use fctools.Metrics.Requests.{MetricsAggregate}

pub record LatencyMetrics : Type 0 where
  pub full_create_snapshot : ℕ
  pub diff_create_snapshot : ℕ
  pub load_snapshot : ℕ
  pub pause_vm : ℕ
  pub resume_vm : ℕ
  pub vmm_full_create_snapshot : ℕ
  pub vmm_diff_create_snapshot : ℕ
  pub vmm_load_snapshot : ℕ
  pub vmm_pause_vm : ℕ
  pub vmm_resume_vm : ℕ

pub record LoggerMetrics : Type 0 where
  pub missed_metrics_count : ℕ
  pub metrics_fails : ℕ
  pub missed_log_count : ℕ
  pub log_fails : ℕ

pub record MmdsMetrics : Type 0 where
  pub rx_accepted : ℕ
  pub rx_accepted_err : ℕ
  pub rx_accepted_unusual : ℕ
  pub rx_bad_eth : ℕ
  pub rx_count : ℕ
  pub tx_bytes : ℕ
  pub tx_count : ℕ
  pub tx_errors : ℕ
  pub tx_frames : ℕ
  pub connections_created : ℕ
  pub connections_destroyed : ℕ

pub record NetMetrics : Type 0 where
  pub activate_fails : ℕ
  pub cfg_fails : ℕ
  pub mac_address_updates : ℕ
  pub no_rx_avail_buffer : ℕ
  pub no_tx_avail_buffer : ℕ
  pub event_fails : ℕ
  pub rx_queue_event_count : ℕ
  pub rx_event_rate_limiter_count : ℕ
  pub rx_partial_writes : ℕ
  pub rx_rate_limiter_throttled : ℕ
  pub rx_tap_event_count : ℕ
  pub rx_bytes_count : ℕ
  pub rx_packets_count : ℕ
  pub rx_fails : ℕ
  pub rx_count : ℕ
  pub tap_read_fails : ℕ
  pub tap_write_fails : ℕ
  pub tap_write_agg : MetricsAggregate
  pub tx_bytes_count : ℕ
  pub tx_malformed_frames : ℕ
  pub tx_fails : ℕ
  pub tx_count : ℕ
  pub tx_packets_count : ℕ
  pub tx_partial_reads : ℕ
  pub tx_queue_event_count : ℕ
  pub tx_rate_limiter_event_count : ℕ
  pub tx_rate_limiter_throttled : ℕ
  pub tx_spoofed_mac_count : ℕ
  pub tx_remaining_reqs_count : ℕ

pub record SeccompMetrics : Type 0 where
  pub num_faults : ℕ

pub record VcpuMetrics : Type 0 where
  pub exit_io_in : ℕ
  pub exit_io_out : ℕ
  pub exit_mmio_read : ℕ
  pub exit_mmio_write : ℕ
  pub failures : ℕ
  pub exit_io_in_agg : MetricsAggregate
  pub exit_io_out_agg : MetricsAggregate
  pub exit_mmio_read_agg : MetricsAggregate
  pub exit_mmio_write_agg : MetricsAggregate

pub record VmmMetrics : Type 0 where
  pub device_events : ℕ
  pub panic_count : ℕ

pub record SignalsMetrics : Type 0 where
  pub sigbus : ℕ
  pub sigsegv : ℕ
  pub sigxfsz : ℕ
  pub sigxcpu : ℕ
  pub sigpipe : ℕ
  pub sighup : ℕ
  pub sigill : ℕ

pub record VsockMetrics : Type 0 where
  pub activate_fails : ℕ
  pub cfg_fails : ℕ
  pub rx_queue_event_fails : ℕ
  pub tx_queue_event_fails : ℕ
  pub ev_queue_event_fails : ℕ
  pub muxer_event_fails : ℕ
  pub conn_event_fails : ℕ
  pub rx_queue_event_count : ℕ
  pub tx_queue_event_count : ℕ
  pub rx_bytes_count : ℕ
  pub tx_bytes_count : ℕ
  pub rx_packets_count : ℕ
  pub tx_packets_count : ℕ
  pub conns_added : ℕ
  pub conns_killed : ℕ
  pub conns_removed : ℕ
  pub killq_resync : ℕ
  pub tx_flush_fails : ℕ
  pub tx_write_fails : ℕ
  pub rx_read_fails : ℕ

pub record EntropyMetrics : Type 0 where
  pub activate_fails : ℕ
  pub entropy_event_fails : ℕ
  pub entropy_event_count : ℕ
  pub entropy_bytes : ℕ
  pub host_rng_fails : ℕ
  pub entropy_rate_limiter_throttled : ℕ
  pub rate_limiter_event_count : ℕ
