-- ===== src/Models/Boot.antt =====
-- src/vm/models.rs: the boot source.
use fctools.Base.{none, some}
use fctools.Text.{Text}
use fctools.FilePath.{FilePath}
use fctools.Models.{BootSource}

unfoldable pub new : FilePath → BootSource
new kernel_image_path = record {
  kernel_image_path = kernel_image_path;
  boot_args = none;
  initrd_path = none;
}

module _ (source : BootSource) where
  unfoldable pub boot_args : Text → BootSource
  boot_args v = record source { boot_args = some v }

  unfoldable pub initrd_path : FilePath → BootSource
  initrd_path v = record source { initrd_path = some v }
