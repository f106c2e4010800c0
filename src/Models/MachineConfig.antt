-- ===== src/Models/MachineConfig.antt =====
-- src/vm/models.rs: the configuration of the machine.
use fctools.Base.{ℕ, Bool, Option, none, some}
use fctools.Models.{HugePages, MachineConfiguration}

unfoldable pub new : ℕ → ℕ → MachineConfiguration
new vcpu_count mem_size_mib = record {
  vcpu_count = vcpu_count;
  mem_size_mib = mem_size_mib;
  smt = none;
  track_dirty_pages = none;
  huge_pages = none;
}

module _ (machine : MachineConfiguration) where
  unfoldable pub smt : Bool → MachineConfiguration
  smt v = record machine { smt = some v }

  unfoldable pub track_dirty_pages : Bool → MachineConfiguration
  track_dirty_pages v = record machine { track_dirty_pages = some v }

  unfoldable pub huge_pages : HugePages → MachineConfiguration
  huge_pages v = record machine { huge_pages = some v }

  unfoldable pub get_vcpu_count : ℕ
  get_vcpu_count = machine.vcpu_count

  unfoldable pub get_mem_size_mib : ℕ
  get_mem_size_mib = machine.mem_size_mib

  unfoldable pub get_smt : Option Bool
  get_smt = machine.smt

  unfoldable pub get_track_dirty_pages : Option Bool
  get_track_dirty_pages = machine.track_dirty_pages

  unfoldable pub get_huge_pages : Option HugePages
  get_huge_pages = machine.huge_pages
