-- ===== src/Models/Network.antt =====
-- src/vm/models.rs: a network interface.
use fctools.Base.{none, some}
use fctools.Text.{Text}
use fctools.Models.{RateLimiter, NetworkInterface}

unfoldable pub new : Text → Text → NetworkInterface
new iface_id host_dev_name = record {
  iface_id = iface_id;
  host_dev_name = host_dev_name;
  guest_mac = none;
  rx_rate_limiter = none;
  tx_rate_limiter = none;
}

module _ (interface : NetworkInterface) where
  unfoldable pub guest_mac : Text → NetworkInterface
  guest_mac v = record interface { guest_mac = some v }

  unfoldable pub rx_rate_limiter : RateLimiter → NetworkInterface
  rx_rate_limiter v = record interface { rx_rate_limiter = some v }

  unfoldable pub tx_rate_limiter : RateLimiter → NetworkInterface
  tx_rate_limiter v = record interface { tx_rate_limiter = some v }
