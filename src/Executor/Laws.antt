-- ===== src/Executor/Laws.antt =====
-- The helpers of src/executor/mod.rs on every outcome of the shell.
use fctools.FilePath.{FilePath}
use fctools.Host.{Host}
use fctools.ShellSpawner.{ShellSpawner}
