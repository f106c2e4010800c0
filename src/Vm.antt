-- ===== src/Vm.antt =====
-- src/vm/: virtual machines. The configuration, the snapshots, and how `Vm::prepare_arced` of
-- src/vm/mod.rs puts the executor's paths into the configuration.
pub mod Configuration
pub mod Mappings
pub mod Snapshot
pub mod Machine
pub mod Api
pub mod Motion
pub mod Prepare
pub mod Lifecycle
pub mod Shutdown
pub mod Start
pub mod Cleanup
pub mod Sample
mod Tests
