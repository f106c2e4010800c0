-- ===== src/Executor/Installation.antt =====
-- src/executor/installation.rs: the check of the installed binaries.
pub mod Laws
mod Tests
use fctools.Base.{Done, Bool, true, false, not, List, [], ◌∷◌, Outcome, ok, err}
use fctools.Base.Action.{Action, pure, ◌>>=◌, ◌>>◌, fail_if}
use fctools.Text.{Text, txt, starts_with, contains}
use fctools.FilePath.{FilePath}
use fctools.Host.{Host, Output}
use fctools.Host.Calls.{call}
use fctools.Executor.{VmmInstallation}

pub data VmmInstallationError (H : Host) : Type 0 where
  filesystem_error : H.IoError → VmmInstallationError H
  binary_missing binary_not_executable binary_is_of_incorrect_type : VmmInstallationError H
  binary_does_not_match_expected_version : VmmInstallationError H

module _ (H : Host) where
  abbrev pub InstallationAction : Type 0 → Type 0
  InstallationAction A = Action H.World (VmmInstallationError H) A

  -- `verify_imp`
  unfoldable pub verify_imp : FilePath → Text → Text → InstallationAction Done
  verify_imp path expected_version expected_name = do
    exists ← call filesystem_error (H.try_exists path)
    fail_if (not exists) binary_missing
    output ← call (λ e. binary_not_executable) (H.output path (txt "--version" ∷ []))
    fail_if (not (starts_with (H.from_utf8_lossy output.stdout) expected_name))
        binary_is_of_incorrect_type
    fail_if (not (contains (H.from_utf8_lossy output.stdout) expected_version))
        binary_does_not_match_expected_version

  -- `VmmInstallation::verify`
  unfoldable pub verify : VmmInstallation → Text → InstallationAction Done
  unfolding verify_imp
  verify installation expected_version = do
    verify_imp installation.firecracker_path expected_version (txt "Firecracker")
    verify_imp installation.jailer_path expected_version (txt "Jailer")
    verify_imp installation.snapshot_editor_path expected_version (txt "snapshot-editor")
    pure tt
