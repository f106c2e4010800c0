-- ===== src/Models.antt =====
-- src/vm/models.rs: the data of the devices and requests of the API. The types that occur in a
-- configuration of a virtual machine, with what builds a `LoadSnapshot`; the children have the builder
-- methods of the other types, and the types of single requests and of responses.
pub mod Balloon
pub mod Boot
pub mod Drives
pub mod Limits
pub mod Logger
pub mod MachineConfig
pub mod Network
pub mod Devices
pub mod Updates
pub mod Responses
use fctools.Base.{ℕ, Bool, Option, none, some, List}
use fctools.Text.{Text}
use fctools.FilePath.{FilePath}
use fctools.LinkLocal.{Ipv4Addr}

-- A signed number, of 32 bits in the source.
pub data ℤ : Type 0 where
  pos negsuc : ℕ → ℤ

pub record BalloonDevice : Type 0 where
  pub amount_mib : ℤ
  pub deflate_on_oom : Bool
  pub stats_polling_interval_s : ℤ

pub record BootSource : Type 0 where
  pub kernel_image_path : FilePath
  pub boot_args : Option Text
  pub initrd_path : Option FilePath

pub data DriveCacheType : Type 0 where
  unsafe writeback : DriveCacheType

pub data DriveIoEngine : Type 0 where
  sync async : DriveIoEngine

pub record TokenBucket : Type 0 where
  pub size : ℕ
  pub one_time_burst : Option ℕ
  pub refill_time : ℕ

pub record RateLimiter : Type 0 where
  pub bandwidth : TokenBucket
  pub ops : TokenBucket

pub record Drive : Type 0 where
  pub drive_id : Text
  pub is_root_device : Bool
  pub cache_type : Option DriveCacheType
  pub partuuid : Option Text
  pub is_read_only : Option Bool
  pub path_on_host : Option FilePath
  pub rate_limiter : Option RateLimiter
  pub io_engine : Option DriveIoEngine
  pub socket : Option FilePath

pub data LogLevel : Type 0 where
  off trace debug info warn error : LogLevel

pub record LoggerSystem : Type 0 where
  pub log_path : Option FilePath
  pub level : Option LogLevel
  pub show_level : Option Bool
  pub show_log_origin : Option Bool
  pub module_name : Option Text

pub data HugePages : Type 0 where
  no_huge_pages hugetlbfs_2m : HugePages

pub record MachineConfiguration : Type 0 where
  pub vcpu_count : ℕ
  pub mem_size_mib : ℕ
  pub smt : Option Bool
  pub track_dirty_pages : Option Bool
  pub huge_pages : Option HugePages

pub record MetricsSystem : Type 0 where
  pub metrics_path : FilePath

pub data MmdsVersion : Type 0 where
  v1 v2 : MmdsVersion

pub record MmdsConfiguration : Type 0 where
  pub version : MmdsVersion
  pub network_interfaces : List Text
  pub ipv4_address : Option Ipv4Addr

pub record EntropyDevice : Type 0 where
  pub rate_limiter : Option RateLimiter

pub record NetworkInterface : Type 0 where
  pub iface_id : Text
  pub host_dev_name : Text
  pub guest_mac : Option Text
  pub rx_rate_limiter : Option RateLimiter
  pub tx_rate_limiter : Option RateLimiter

pub record VsockDevice : Type 0 where
  pub guest_cid : ℕ
  pub uds_path : FilePath

pub data MemoryBackendType : Type 0 where
  file uffd : MemoryBackendType

pub record MemoryBackend : Type 0 where
  pub backend_type : MemoryBackendType
  pub backend_path : FilePath

pub record LoadSnapshot : Type 0 where
  pub enable_diff_snapshots : Option Bool
  pub mem_backend : MemoryBackend
  pub snapshot_path : FilePath
  pub resume_vm : Option Bool

pub data SnapshotType : Type 0 where
  full diff : SnapshotType

pub record CreateSnapshot : Type 0 where
  pub snapshot_type : Option SnapshotType
  pub snapshot_path : FilePath
  pub mem_file_path : FilePath

-- `MemoryBackend::new`
unfoldable pub new_backend : MemoryBackendType → FilePath → MemoryBackend
new_backend backend_type backend_path = record {
  backend_type = backend_type;
  backend_path = backend_path;
}

-- `LoadSnapshot::new`
unfoldable pub new_load : FilePath → MemoryBackend → LoadSnapshot
new_load snapshot_path mem_backend = record {
  enable_diff_snapshots = none;
  mem_backend = mem_backend;
  snapshot_path = snapshot_path;
  resume_vm = none;
}

unfoldable pub enable_diff_snapshots : LoadSnapshot → Bool → LoadSnapshot
enable_diff_snapshots l b = record l { enable_diff_snapshots = some b }

unfoldable pub resume_vm : LoadSnapshot → Bool → LoadSnapshot
resume_vm l b = record l { resume_vm = some b }

pub record CpuidRegisterModifier : Type 0 where
  pub register : Text
  pub bitmap : Text

pub record CpuidModifier : Type 0 where
  pub leaf : Text
  pub subleaf : Text
  pub flags : ℕ
  pub modifiers : List CpuidRegisterModifier

pub record MsrModifier : Type 0 where
  pub addr : Text
  pub bitmap : Text

pub record VcpuFeature : Type 0 where
  pub index : ℕ
  pub bitmap : Text

pub record RegModifier : Type 0 where
  pub addr : Text
  pub bitmap : Text

pub record CpuTemplate : Type 0 where
  pub kvm_capabilities : List Text
  pub cpuid_modifiers : List CpuidModifier
  pub msr_modifiers : List MsrModifier
  pub vcpu_features : List VcpuFeature
  pub reg_modifiers : List RegModifier
