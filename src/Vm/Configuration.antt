-- ===== src/Vm/Configuration.antt =====
-- src/vm/configuration.rs: the configuration of a virtual machine.
use fctools.Base.{Option, none, some, List, [], ◌∷◌, ◌++◌}
use fctools.FilePath.{FilePath}
use fctools.Models.{
  BootSource, Drive, MachineConfiguration, CpuTemplate, NetworkInterface, BalloonDevice,
  VsockDevice, LoggerSystem, MetricsSystem, MmdsConfiguration, EntropyDevice, LoadSnapshot,
}

pub data InitMethod : Type 0 where
  via_api_calls : InitMethod
  via_json_configuration : FilePath → InitMethod

pub record VmConfigurationData : Type 0 where
  pub boot_source : BootSource
  pub drives : List Drive
  pub machine_configuration : MachineConfiguration
  pub cpu_template : Option CpuTemplate
  pub network_interfaces : List NetworkInterface
  pub balloon_device : Option BalloonDevice
  pub vsock_device : Option VsockDevice
  pub logger_system : Option LoggerSystem
  pub metrics_system : Option MetricsSystem
  pub mmds_configuration : Option MmdsConfiguration
  pub entropy_device : Option EntropyDevice

pub data VmConfiguration : Type 0 where
  new_vm : InitMethod → VmConfigurationData → VmConfiguration
  restored_from_snapshot : LoadSnapshot → VmConfigurationData → VmConfiguration

-- `VmConfiguration::data`
unfoldable pub data_of : VmConfiguration → VmConfigurationData
data_of (new_vm init_method d) = d
data_of (restored_from_snapshot load_snapshot d) = d

-- `VmConfigurationData::new`
unfoldable pub new_data : BootSource → MachineConfiguration → VmConfigurationData
new_data boot_source machine_configuration = record {
  boot_source = boot_source;
  drives = [];
  machine_configuration = machine_configuration;
  cpu_template = none;
  network_interfaces = [];
  balloon_device = none;
  vsock_device = none;
  logger_system = none;
  metrics_system = none;
  mmds_configuration = none;
  entropy_device = none;
}

module _ (d : VmConfigurationData) where
  unfoldable pub drive : Drive → VmConfigurationData
  drive x = record d { drives = d.drives ++ (x ∷ []) }

  unfoldable pub drives : List Drive → VmConfigurationData
  drives xs = record d { drives = d.drives ++ xs }

  unfoldable pub cpu_template : CpuTemplate → VmConfigurationData
  cpu_template t = record d { cpu_template = some t }

  unfoldable pub network_interface : NetworkInterface → VmConfigurationData
  network_interface x = record d { network_interfaces = d.network_interfaces ++ (x ∷ []) }

  unfoldable pub network_interfaces : List NetworkInterface → VmConfigurationData
  network_interfaces xs = record d { network_interfaces = d.network_interfaces ++ xs }

  unfoldable pub balloon_device : BalloonDevice → VmConfigurationData
  balloon_device x = record d { balloon_device = some x }

  unfoldable pub vsock_device : VsockDevice → VmConfigurationData
  vsock_device x = record d { vsock_device = some x }

  unfoldable pub logger_system : LoggerSystem → VmConfigurationData
  logger_system x = record d { logger_system = some x }

  unfoldable pub metrics_system : MetricsSystem → VmConfigurationData
  metrics_system x = record d { metrics_system = some x }

  unfoldable pub mmds_configuration : MmdsConfiguration → VmConfigurationData
  mmds_configuration x = record d { mmds_configuration = some x }

  unfoldable pub entropy_device : EntropyDevice → VmConfigurationData
  entropy_device x = record d { entropy_device = some x }
