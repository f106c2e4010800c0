-- ===== src/Models/Responses.antt =====
-- src/vm/models.rs: what the API answers.
use fctools.Base.{ℕ, Bool, Option, List}
use fctools.Text.{Text}
use fctools.Models.{
  BalloonDevice, BootSource, Drive, LoggerSystem, MachineConfiguration, MetricsSystem,
  MmdsConfiguration, NetworkInterface, VsockDevice,
}

pub record BalloonStatistics : Type 0 where
  pub target_pages : ℕ
  pub actual_pages : ℕ
  pub target_mib : ℕ
  pub actual_mib : ℕ
  pub swap_in : Option ℕ
  pub swap_out : Option ℕ
  pub major_faults : Option ℕ
  pub minor_faults : Option ℕ
  pub free_memory : Option ℕ
  pub available_memory : Option ℕ
  pub disk_caches : Option ℕ
  pub hugetlb_allocations : Option ℕ
  pub hugetlb_failures : Option ℕ

pub record ReprFirecrackerVersion : Type 0 where
  pub firecracker_version : Text

pub record Info : Type 0 where
  pub id : Text
  pub is_paused : Bool
  pub vmm_version : Text
  pub app_name : Text

pub data ReprIsPaused : Type 0 where
  running paused : ReprIsPaused

pub record ReprInfo : Type 0 where
  pub id : Text
  pub is_paused : ReprIsPaused
  pub vmm_version : Text
  pub app_name : Text

pub record ReprApiError : Type 0 where
  pub fault_message : Text

pub record EffectiveConfiguration : Type 0 where
  pub balloon_device : Option BalloonDevice
  pub drives : List Drive
  pub boot_source : Option BootSource
  pub logger_system : Option LoggerSystem
  pub machine_configuration : Option MachineConfiguration
  pub metrics_system : Option MetricsSystem
  pub mmds_configuration : Option MmdsConfiguration
  pub network_interfaces : List NetworkInterface
  pub vsock_device : Option VsockDevice
