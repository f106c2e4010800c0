-- ===== src/SnapshotEditor/Tests.antt =====
-- The theorems on src/ext/snapshot_editor.rs in the simulated host.
use fctools.Base.{Bool, true, false, Option, none, some}
use fctools.Text.{Text, txt, starts_with}
use fctools.FilePath.{FilePath}
use fctools.Host.{Host}
use fctools.SnapshotEditor.{SnapshotEditor}
use fctools.SnapshotEditor.Laws.{Informs, vcpu_states, get_info, get_info-Informs}
use fctools.Simulation.{simulation, Machine, idle}

abbrev S : Host
S = simulation

abbrev editor : SnapshotEditor
editor = record { path = txt "/bin/editor" }

-- Only absolute paths are texts here.
abbrev if_absolute : Bool → FilePath → Option Text
if_absolute true path = some path
if_absolute false path = none

abbrev to_str : FilePath → Option Text
to_str path = if_absolute (starts_with path (txt "/")) path

abbrev failing : Machine
failing = record idle { exit_code = some 1 }

get_info-Informs_example :
    Informs S to_str vcpu_states editor
      (txt "/snapshot")
      failing
      (get_info S to_str vcpu_states editor (txt "/snapshot") failing)
get_info-Informs_example = get_info-Informs S to_str vcpu_states editor (txt "/snapshot") failing
