-- ===== src/Models/Drives.antt =====
-- src/vm/models.rs: a drive.
use fctools.Base.{Bool, none, some}
use fctools.Text.{Text}
use fctools.FilePath.{FilePath}
use fctools.Models.{DriveCacheType, DriveIoEngine, RateLimiter, Drive}

unfoldable pub new : Text → Bool → Drive
new drive_id is_root_device = record {
  drive_id = drive_id;
  is_root_device = is_root_device;
  cache_type = none;
  partuuid = none;
  is_read_only = none;
  path_on_host = none;
  rate_limiter = none;
  io_engine = none;
  socket = none;
}

module _ (drive : Drive) where
  unfoldable pub cache_type : DriveCacheType → Drive
  cache_type v = record drive { cache_type = some v }

  unfoldable pub partuuid : Text → Drive
  partuuid v = record drive { partuuid = some v }

  unfoldable pub is_read_only : Bool → Drive
  is_read_only v = record drive { is_read_only = some v }

  unfoldable pub path_on_host : FilePath → Drive
  path_on_host v = record drive { path_on_host = some v }

  unfoldable pub rate_limiter : RateLimiter → Drive
  rate_limiter v = record drive { rate_limiter = some v }

  unfoldable pub io_engine : DriveIoEngine → Drive
  io_engine v = record drive { io_engine = some v }

  unfoldable pub socket : FilePath → Drive
  socket v = record drive { socket = some v }
