-- ===== src/Executor/Installation/Tests.antt =====
-- The theorem on `verify` of src/executor/installation.rs in the simulated host, where each program
-- prints its own path: the second binary has the wrong name.
use fctools.Base.{[], ◌∷◌}
use fctools.Text.{Text, txt}
use fctools.Host.{Host}
use fctools.Executor.{VmmInstallation}
use fctools.Executor.Installation.{verify}
use fctools.Executor.Installation.Laws.{Verdict, binaries, verify-Verdict}
use fctools.Simulation.{simulation, Machine, idle}

abbrev S : Host
S = simulation

abbrev mislabeled : VmmInstallation
mislabeled = record {
  firecracker_path = txt "Firecracker v1.9.0";
  jailer_path = txt "Firecracker v1.9.0";
  snapshot_editor_path = txt "snapshot-editor v1.9.0";
}

abbrev disk : Machine
disk = record idle { files = mislabeled.firecracker_path ∷ mislabeled.snapshot_editor_path ∷ [] }

abbrev version : Text
version = txt "v1.9.0"

verify-Verdict_example :
    Verdict S version
      (binaries S version mislabeled)
      disk
      (verify S mislabeled version disk).0
      (verify S mislabeled version disk).1
verify-Verdict_example = verify-Verdict S version mislabeled disk
