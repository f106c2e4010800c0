-- ===== src/Models/Logger.antt =====
-- src/vm/models.rs: the logger.
use fctools.Base.{Bool, none, some}
use fctools.Text.{Text}
use fctools.FilePath.{FilePath}
use fctools.Models.{LogLevel, LoggerSystem}

unfoldable pub new : LoggerSystem
new = record {
  log_path = none;
  level = none;
  show_level = none;
  show_log_origin = none;
  module_name = none;
}

module _ (logger : LoggerSystem) where
  unfoldable pub log_path : FilePath → LoggerSystem
  log_path v = record logger { log_path = some v }

  unfoldable pub level : LogLevel → LoggerSystem
  level v = record logger { level = some v }

  unfoldable pub show_level : Bool → LoggerSystem
  show_level v = record logger { show_level = some v }

  unfoldable pub show_log_origin : Bool → LoggerSystem
  show_log_origin v = record logger { show_log_origin = some v }

  unfoldable pub module_name : Text → LoggerSystem
  module_name v = record logger { module_name = some v }
