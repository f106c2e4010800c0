-- ===== src/Metrics/Zero/Requests.antt =====
-- Zero metrics of the API server, the block devices and the requests of src/ext/metrics.rs.
use fctools.Metrics.Requests.{
  MetricsAggregate, ApiServerMetrics, BalloonMetrics, BlockMetrics, DeprecatedApiMetrics,
  GetApiRequestsMetrics, PatchApiRequestsMetrics, PutApiRequestsMetrics, I8042Metrics, UartMetrics,
}

abbrev pub zero_aggregate : MetricsAggregate
zero_aggregate = record { min_us = 0; max_us = 0; sum_us = 0 }

abbrev pub zero_api_server : ApiServerMetrics
zero_api_server = record {
  process_startup_time_us = 0;
  process_startup_time_cpu_us = 0;
  sync_response_fails = 0;
  sync_vmm_send_timeout_count = 0;
}

abbrev pub zero_balloon : BalloonMetrics
zero_balloon = record {
  activate_fails = 0;
  inflate_count = 0;
  stats_updates_count = 0;
  stats_update_fails = 0;
  deflate_count = 0;
  event_fails = 0;
}

abbrev pub zero_block : BlockMetrics
zero_block = record {
  activate_fails = 0;
  cfg_fails = 0;
  no_avail_buffer = 0;
  event_fails = 0;
  execute_fails = 0;
  invalid_reqs_count = 0;
  flush_count = 0;
  queue_event_count = 0;
  rate_limiter_event_count = 0;
  update_count = 0;
  update_fails = 0;
  read_bytes = 0;
  write_bytes = 0;
  read_count = 0;
  write_count = 0;
  read_agg = zero_aggregate;
  write_agg = zero_aggregate;
  rate_limiter_throttled_events = 0;
  io_engine_throttled_events = 0;
  remaining_reqs_count = 0;
}

abbrev pub zero_deprecated_api : DeprecatedApiMetrics
zero_deprecated_api = record { deprecated_http_api_calls = 0; deprecated_cmd_line_api_calls = 0 }

abbrev pub zero_get_api_requests : GetApiRequestsMetrics
zero_get_api_requests = record {
  instance_info_count = 0;
  machine_cfg_count = 0;
  mmds_count = 0;
  vmm_version_count = 0;
}

abbrev pub zero_patch_api_requests : PatchApiRequestsMetrics
zero_patch_api_requests = record {
  drive_count = 0;
  drive_fails = 0;
  network_count = 0;
  network_fails = 0;
  machine_cfg_count = 0;
  machine_cfg_fails = 0;
  mmds_count = 0;
  mmds_fails = 0;
}

abbrev pub zero_put_api_requests : PutApiRequestsMetrics
zero_put_api_requests = record {
  actions_count = 0;
  actions_fails = 0;
  boot_source_count = 0;
  boot_source_fails = 0;
  drive_count = 0;
  drive_fails = 0;
  logger_count = 0;
  logger_fails = 0;
  machine_cfg_count = 0;
  machine_cfg_fails = 0;
  cpu_cfg_count = 0;
  cpu_cfg_fails = 0;
  metrics_count = 0;
  metrics_fails = 0;
  network_count = 0;
  network_fails = 0;
  mmds_count = 0;
  mmds_fails = 0;
  vsock_count = 0;
  vsock_fails = 0;
}

abbrev pub zero_i8042 : I8042Metrics
zero_i8042 = record {
  error_count = 0;
  missed_read_count = 0;
  missed_write_count = 0;
  read_count = 0;
  write_count = 0;
  reset_count = 0;
}

abbrev pub zero_uart : UartMetrics
zero_uart = record {
  error_count = 0;
  flush_count = 0;
  missed_read_count = 0;
  missed_write_count = 0;
  read_count = 0;
  write_count = 0;
}
