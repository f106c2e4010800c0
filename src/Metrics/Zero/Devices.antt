-- ===== src/Metrics/Zero/Devices.antt =====
-- Zero metrics of the other devices and of the virtual machine of src/ext/metrics.rs.
use fctools.Metrics.Devices.{
  LatencyMetrics, LoggerMetrics, MmdsMetrics, NetMetrics, SeccompMetrics, VcpuMetrics, VmmMetrics,
  SignalsMetrics, VsockMetrics, EntropyMetrics,
}
use fctools.Metrics.Zero.Requests.{zero_aggregate}

abbrev pub zero_latency : LatencyMetrics
zero_latency = record {
  full_create_snapshot = 0;
  diff_create_snapshot = 0;
  load_snapshot = 0;
  pause_vm = 0;
  resume_vm = 0;
  vmm_full_create_snapshot = 0;
  vmm_diff_create_snapshot = 0;
  vmm_load_snapshot = 0;
  vmm_pause_vm = 0;
  vmm_resume_vm = 0;
}

abbrev pub zero_logger : LoggerMetrics
zero_logger = record {
  missed_metrics_count = 0;
  metrics_fails = 0;
  missed_log_count = 0;
  log_fails = 0;
}

abbrev pub zero_mmds : MmdsMetrics
zero_mmds = record {
  rx_accepted = 0;
  rx_accepted_err = 0;
  rx_accepted_unusual = 0;
  rx_bad_eth = 0;
  rx_count = 0;
  tx_bytes = 0;
  tx_count = 0;
  tx_errors = 0;
  tx_frames = 0;
  connections_created = 0;
  connections_destroyed = 0;
}

abbrev pub zero_net : NetMetrics
zero_net = record {
  activate_fails = 0;
  cfg_fails = 0;
  mac_address_updates = 0;
  no_rx_avail_buffer = 0;
  no_tx_avail_buffer = 0;
  event_fails = 0;
  rx_queue_event_count = 0;
  rx_event_rate_limiter_count = 0;
  rx_partial_writes = 0;
  rx_rate_limiter_throttled = 0;
  rx_tap_event_count = 0;
  rx_bytes_count = 0;
  rx_packets_count = 0;
  rx_fails = 0;
  rx_count = 0;
  tap_read_fails = 0;
  tap_write_fails = 0;
  tap_write_agg = zero_aggregate;
  tx_bytes_count = 0;
  tx_malformed_frames = 0;
  tx_fails = 0;
  tx_count = 0;
  tx_packets_count = 0;
  tx_partial_reads = 0;
  tx_queue_event_count = 0;
  tx_rate_limiter_event_count = 0;
  tx_rate_limiter_throttled = 0;
  tx_spoofed_mac_count = 0;
  tx_remaining_reqs_count = 0;
}

abbrev pub zero_seccomp : SeccompMetrics
zero_seccomp = record { num_faults = 0 }

abbrev pub zero_vcpu : VcpuMetrics
zero_vcpu = record {
  exit_io_in = 0;
  exit_io_out = 0;
  exit_mmio_read = 0;
  exit_mmio_write = 0;
  failures = 0;
  exit_io_in_agg = zero_aggregate;
  exit_io_out_agg = zero_aggregate;
  exit_mmio_read_agg = zero_aggregate;
  exit_mmio_write_agg = zero_aggregate;
}

abbrev pub zero_vmm : VmmMetrics
zero_vmm = record { device_events = 0; panic_count = 0 }

abbrev pub zero_signals : SignalsMetrics
zero_signals = record {
  sigbus = 0;
  sigsegv = 0;
  sigxfsz = 0;
  sigxcpu = 0;
  sigpipe = 0;
  sighup = 0;
  sigill = 0;
}

abbrev pub zero_vsock : VsockMetrics
zero_vsock = record {
  activate_fails = 0;
  cfg_fails = 0;
  rx_queue_event_fails = 0;
  tx_queue_event_fails = 0;
  ev_queue_event_fails = 0;
  muxer_event_fails = 0;
  conn_event_fails = 0;
  rx_queue_event_count = 0;
  tx_queue_event_count = 0;
  rx_bytes_count = 0;
  tx_bytes_count = 0;
  rx_packets_count = 0;
  tx_packets_count = 0;
  conns_added = 0;
  conns_killed = 0;
  conns_removed = 0;
  killq_resync = 0;
  tx_flush_fails = 0;
  tx_write_fails = 0;
  rx_read_fails = 0;
}

abbrev pub zero_entropy : EntropyMetrics
zero_entropy = record {
  activate_fails = 0;
  entropy_event_fails = 0;
  entropy_event_count = 0;
  entropy_bytes = 0;
  host_rng_fails = 0;
  entropy_rate_limiter_throttled = 0;
  rate_limiter_event_count = 0;
}
