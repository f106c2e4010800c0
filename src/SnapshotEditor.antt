-- ===== src/SnapshotEditor.antt =====
-- src/ext/snapshot_editor.rs: the calls of the snapshot-editor binary. `to_str` says which paths are
-- UTF-8.
pub mod Runs
pub mod Laws
mod Tests
use fctools.Base.{Done, not, Option, List, [], ◌∷◌, Outcome, ok_or}
use fctools.Base.Action.{Action, pure, ◌>>=◌, ◌>>◌, of_outcome, fail_if}
use fctools.Text.{Text, txt}
use fctools.FilePath.{FilePath}
use fctools.Host.{Host, Output, null, piped}
use fctools.Host.Calls.{call}
use fctools.Executor.{VmmInstallation}

pub record SnapshotEditor : Type 0 where
  pub path : FilePath

-- `SnapshotEditorExt::snapshot_editor`
unfoldable pub snapshot_editor : VmmInstallation → SnapshotEditor
snapshot_editor installation = record { path = installation.snapshot_editor_path }

pub data SnapshotEditorError (H : Host) : Type 0 where
  process_fork_failed process_wait_failed : H.IoError → SnapshotEditorError H
  exited_with_non_zero_status : H.ExitStatus → SnapshotEditorError H
  non_utf8_path : SnapshotEditorError H

module _ (H : Host) where
  abbrev pub EditorAction : Type 0 → Type 0
  EditorAction A = Action H.World (SnapshotEditorError H) A

  unfoldable pub fork : SnapshotEditor → List Text → EditorAction (Output H.ExitStatus)
  fork editor args = do
    child ← call process_fork_failed (
        H.spawn (record {
          program = editor.path;
          args = args;
          stdin = null;
          stdout = piped;
          stderr = null;
        }))
    output ← call process_wait_failed (H.wait_with_output child)
    fail_if (not (H.success output.status)) (exited_with_non_zero_status output.status)
    pure output

  module _ (to_str : FilePath → Option Text) where
    -- `path.as_ref().to_str().ok_or(NonUTF8Path)?`
    abbrev pub utf8 : FilePath → EditorAction Text
    utf8 path = of_outcome (ok_or (to_str path) non_utf8_path)

    unfoldable pub rebase_memory : SnapshotEditor → FilePath → FilePath → EditorAction Done
    unfolding fork
    rebase_memory editor base_memory_path diff_memory_path = do
      base ← utf8 base_memory_path
      diff ← utf8 diff_memory_path
      output ← fork editor (
          txt "edit-memory"
          ∷ txt "rebase"
          ∷ txt "--memory-path"
          ∷ base
          ∷ txt "--diff-path"
          ∷ diff
          ∷ [])
      pure tt

    unfoldable pub get_snapshot_version : SnapshotEditor → FilePath → EditorAction Text
    unfolding fork
    get_snapshot_version editor snapshot_path = do
      path ← utf8 snapshot_path
      output ← fork editor (txt "info-vmstate" ∷ txt "version" ∷ txt "--vmstate-path" ∷ path ∷ [])
      pure (H.from_utf8_lossy output.stdout)

    unfoldable pub get_snapshot_vcpu_states : SnapshotEditor → FilePath → EditorAction Text
    unfolding fork
    get_snapshot_vcpu_states editor snapshot_path = do
      path ← utf8 snapshot_path
      output ←
          fork editor (txt "info-vmstate" ∷ txt "vcpu-states" ∷ txt "--vmstate-path" ∷ path ∷ [])
      pure (H.from_utf8_lossy output.stdout)

    unfoldable pub get_snapshot_vm_state : SnapshotEditor → FilePath → EditorAction Text
    unfolding fork
    get_snapshot_vm_state editor snapshot_path = do
      path ← utf8 snapshot_path
      output ← fork editor (txt "info-vmstate" ∷ txt "vm-state" ∷ txt "--vmstate-path" ∷ path ∷ [])
      pure (H.from_utf8_lossy output.stdout)
