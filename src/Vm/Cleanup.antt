-- ===== src/Vm/Cleanup.antt =====
-- `Vm::cleanup` of src/vm/mod.rs, with its tasks that remove files.
pub mod Laws
pub mod Joining
mod Tests
use fctools.Base.{
  ℕ, zero, suc, Done, Bool, true, false, Option, none, some, List, [], ◌∷◌, Outcome, ok, inl, inr,
}
use fctools.Base.Action.{◌>>=◌, ◌>>◌}
use fctools.FilePath.{FilePath}
use fctools.Host.{Host}
use fctools.Process
use fctools.Vm.Machine.{Json, Vm, AccessiblePaths, VmAction, on_process, ensure_exited_or_crashed}

module _ (H : Host) where
  -- A `JoinSet`, by how many tasks were spawned into it, and the world.
  abbrev pub JoinSet : Type 0
  JoinSet = ℕ × H.World

  abbrev pub spawn_remove : FilePath → JoinSet → JoinSet
  spawn_remove path (tasks, w) = (suc tasks, H.spawn_blocking (H.remove_file path) w)

  abbrev pub spawn_optional : Option FilePath → JoinSet → JoinSet
  spawn_optional none join_set = join_set
  spawn_optional (some path) join_set = spawn_remove path join_set

  unfoldable pub spawn_each : List FilePath → JoinSet → JoinSet
  spawn_each [] join_set = join_set
  spawn_each (path ∷ paths) join_set = spawn_each paths (spawn_remove path join_set)

  -- The listeners are removed with the multiplexer only.
  abbrev pub spawn_vsock : Option FilePath → List FilePath → JoinSet → JoinSet
  spawn_vsock none listener_paths join_set = join_set
  spawn_vsock (some multiplexer_path) listener_paths join_set =
      spawn_each listener_paths (spawn_remove multiplexer_path join_set)

  -- `while let Some(path) = snapshot_traces.pop()`: the last path is popped first.
  unfoldable pub spawn_popped : List FilePath → JoinSet → JoinSet
  spawn_popped [] join_set = join_set
  spawn_popped (path ∷ paths) join_set = spawn_remove path (spawn_popped paths join_set)

  -- The loop over the joined tasks, whose results are dropped: one round for each task.
  unfoldable pub join_ignored : JoinSet → H.World
  join_ignored (zero, w) = w
  join_ignored (suc tasks, w) =
      let (next, w') = H.join_next w in
      let rest = join_ignored (tasks, w') in elim next [ none ↦ w' | some result ↦ rest ]

  unfoldable pub spawn_removals : AccessiblePaths → List FilePath → JoinSet → JoinSet
  unfolding spawn_each spawn_popped
  spawn_removals paths snapshot_traces join_set = spawn_popped snapshot_traces (
      spawn_vsock paths.vsock_multiplexer_path paths.vsock_listener_paths
        (spawn_optional paths.metrics_path (spawn_optional paths.log_path join_set)))

module _ (H : Host) (J : Json) where
  abbrev pub remove_traces : Bool → VmAction H J Done
  remove_traces true s = (ok tt, s)
  remove_traces false (v, w) = (
    ok tt,
    (
      record v { snapshot_traces = [] },
      join_ignored H (spawn_removals H v.accessible_paths v.snapshot_traces (0, w)),
    ),
  )

  unfoldable pub cleanup : VmAction H J Done
  unfolding ensure_exited_or_crashed spawn_removals join_ignored
  cleanup = do
    ensure_exited_or_crashed H J
    on_process H J (Process.cleanup H)
    (λ s. remove_traces s.0.executor_traceless s)
