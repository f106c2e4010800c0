-- ===== src/Models/Updates.antt =====
-- src/vm/models.rs: what the calls of the API change of a running virtual machine.
use fctools.Base.{ℕ, Option, none, some}
use fctools.Text.{Text}
use fctools.FilePath.{FilePath}
use fctools.Models.{RateLimiter}

pub record UpdateBalloonDevice : Type 0 where
  pub amount_mib : ℕ

pub record UpdateBalloonStatistics : Type 0 where
  pub stats_polling_interval_s : ℕ

pub record UpdateDrive : Type 0 where
  pub drive_id : Text
  pub path_on_host : Option FilePath
  pub rate_limiter : Option RateLimiter

pub record UpdateNetworkInterface : Type 0 where
  pub iface_id : Text
  pub rx_rate_limiter : Option RateLimiter
  pub tx_rate_limiter : Option RateLimiter

unfoldable pub new_update_balloon : ℕ → UpdateBalloonDevice
new_update_balloon amount_mib = record { amount_mib = amount_mib }

unfoldable pub new_update_statistics : ℕ → UpdateBalloonStatistics
new_update_statistics stats_polling_interval_s = record {
  stats_polling_interval_s = stats_polling_interval_s;
}

unfoldable pub new_update_drive : Text → UpdateDrive
new_update_drive drive_id = record { drive_id = drive_id; path_on_host = none; rate_limiter = none }

module _ (drive : UpdateDrive) where
  unfoldable pub path_on_host : FilePath → UpdateDrive
  path_on_host v = record drive { path_on_host = some v }

  unfoldable pub rate_limiter : RateLimiter → UpdateDrive
  rate_limiter v = record drive { rate_limiter = some v }

unfoldable pub new_update_network : Text → UpdateNetworkInterface
new_update_network iface_id = record {
  iface_id = iface_id;
  rx_rate_limiter = none;
  tx_rate_limiter = none;
}

module _ (interface : UpdateNetworkInterface) where
  unfoldable pub rx_rate_limiter : RateLimiter → UpdateNetworkInterface
  rx_rate_limiter v = record interface { rx_rate_limiter = some v }

  unfoldable pub tx_rate_limiter : RateLimiter → UpdateNetworkInterface
  tx_rate_limiter v = record interface { tx_rate_limiter = some v }
