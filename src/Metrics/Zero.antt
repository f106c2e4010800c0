-- ===== src/Metrics/Zero.antt =====
-- An entry of src/ext/metrics.rs in which every metric is zero.
mod Requests
mod Devices
use fctools.Metrics.Entry.{Metrics}
use Requests.{
  zero_api_server, zero_balloon, zero_block, zero_deprecated_api, zero_get_api_requests,
  zero_patch_api_requests, zero_put_api_requests, zero_i8042, zero_uart,
}
use Devices.{
  zero_latency, zero_logger, zero_mmds, zero_net, zero_seccomp, zero_vcpu, zero_vmm, zero_signals,
  zero_vsock, zero_entropy,
}

abbrev pub zero_entry : Metrics
zero_entry = record {
  utc_timestamp_ms = 0;
  api_server = zero_api_server;
  balloon = zero_balloon;
  block = zero_block;
  deprecated_api = zero_deprecated_api;
  get_api_requests = zero_get_api_requests;
  patch_api_requests = zero_patch_api_requests;
  put_api_requests = zero_put_api_requests;
  i8042 = zero_i8042;
  uart = zero_uart;
  latencies_us = zero_latency;
  logger = zero_logger;
  mmds = zero_mmds;
  net = zero_net;
  seccomp = zero_seccomp;
  vcpu = zero_vcpu;
  vmm = zero_vmm;
  signals = zero_signals;
  vsock = zero_vsock;
  entropy = zero_entropy;
}
