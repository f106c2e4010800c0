-- ===== src/Models/Balloon.antt =====
-- src/vm/models.rs: the balloon device.
use fctools.Base.{Bool}
use fctools.Models.{ℤ, pos, BalloonDevice}

unfoldable pub new : ℤ → Bool → BalloonDevice
new amount_mib deflate_on_oom = record {
  amount_mib = amount_mib;
  deflate_on_oom = deflate_on_oom;
  stats_polling_interval_s = pos 0;
}

module _ (balloon : BalloonDevice) where
  unfoldable pub stats_polling_interval_s : ℤ → BalloonDevice
  stats_polling_interval_s interval = record balloon { stats_polling_interval_s = interval }

  unfoldable pub get_amount_mib : ℤ
  get_amount_mib = balloon.amount_mib

  unfoldable pub get_deflate_on_oom : Bool
  get_deflate_on_oom = balloon.deflate_on_oom

  unfoldable pub get_stats_polling_interval_s : ℤ
  get_stats_polling_interval_s = balloon.stats_polling_interval_s
