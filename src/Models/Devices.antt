-- ===== src/Models/Devices.antt =====
-- src/vm/models.rs: the metrics, the MMDS, the entropy and the vsock device, and the request of a snapshot.
use fctools.Base.{ℕ, none, some, List}
use fctools.Text.{Text}
use fctools.FilePath.{FilePath}
use fctools.LinkLocal.{Ipv4Addr}
use fctools.Models.{
  RateLimiter, MetricsSystem, MmdsVersion, MmdsConfiguration, EntropyDevice, VsockDevice,
  SnapshotType, CreateSnapshot,
}

unfoldable pub new_metrics : FilePath → MetricsSystem
new_metrics metrics_path = record { metrics_path = metrics_path }

unfoldable pub new_mmds : MmdsVersion → List Text → MmdsConfiguration
new_mmds version network_interfaces = record {
  version = version;
  network_interfaces = network_interfaces;
  ipv4_address = none;
}

module _ (mmds : MmdsConfiguration) where
  unfoldable pub ipv4_address : Ipv4Addr → MmdsConfiguration
  ipv4_address v = record mmds { ipv4_address = some v }

unfoldable pub new_entropy : EntropyDevice
new_entropy = record { rate_limiter = none }

module _ (entropy : EntropyDevice) where
  unfoldable pub rate_limiter : RateLimiter → EntropyDevice
  rate_limiter v = record entropy { rate_limiter = some v }

unfoldable pub new_vsock : ℕ → FilePath → VsockDevice
new_vsock guest_cid uds_path = record { guest_cid = guest_cid; uds_path = uds_path }

unfoldable pub new_create : FilePath → FilePath → CreateSnapshot
new_create snapshot_path mem_file_path = record {
  snapshot_path = snapshot_path;
  mem_file_path = mem_file_path;
  snapshot_type = none;
}

module _ (create : CreateSnapshot) where
  unfoldable pub snapshot_type : SnapshotType → CreateSnapshot
  snapshot_type v = record create { snapshot_type = some v }
