-- ===== src/Metrics.antt =====
-- src/ext/metrics.rs: the task that gathers the metrics. Lines of a file and the channel are tokio's, and
-- the parser is serde_json's: they are the parameter `Gathering`.
pub mod Requests
pub mod Devices
pub mod Entry
pub mod Laws
mod Zero
mod Tests
use fctools.Base.{
  ℕ, zero, suc, Done, Option, none, some, Outcome, map_err, ◌⊎◌, ◌==◌, if◌then◌else◌,
}
use fctools.Base.Action.{Action, pure, ◌>>=◌, ◌>>◌, of_outcome}
use fctools.Text.{Text}
use fctools.FilePath.{FilePath}
use fctools.Host.{Host}
use fctools.Host.Calls.{Call, call, answer}
use Entry.{Metrics}

-- `File::open` with `BufReader::lines`, `next_line`, `serde_json::from_str`, and `Sender::send`, whose error
-- gives the entry back.
pub record Gathering (H : Host) : Type 1 where
  pub Lines : Type 0
  pub SerdeError : Type 0
  pub open_lines : FilePath → Call H.World H.IoError Lines
  pub next_line : Lines → Call H.World H.IoError (Option Text)
  pub from_str : Text → SerdeError ⊎ Metrics
  pub send : Metrics → Call H.World Metrics Done

pub data MetricsTaskError (H : Host) (G : Gathering H) : Type 0 where
  io : H.IoError → MetricsTaskError H G
  serde : G.SerdeError → MetricsTaskError H G
  send : Metrics → MetricsTaskError H G

module _ (H : Host) (G : Gathering H) where
  abbrev pub TaskAction : Type 0 → Type 0
  TaskAction A = Action H.World (MetricsTaskError H G) A

  -- A line is parsed and sent; without one the loop goes on.
  abbrev pub forward : Option Text → TaskAction Done
  forward none = pure tt
  forward (some line) = do
    metrics_entry ← of_outcome (map_err serde (answer (G.from_str line)))
    call MetricsTaskError.send (G.send metrics_entry)

  -- One turn of the `loop`.
  unfoldable pub turn : G.Lines → TaskAction Done
  turn buf_reader = call io (G.next_line buf_reader) >>= forward

  -- The first turns of the task, which ends by an error only: with `ok` it is still running.
  unfoldable pub turns : ℕ → G.Lines → TaskAction Done
  unfolding turn
  turns zero buf_reader = pure tt
  turns (suc n) buf_reader = turn buf_reader >> turns n buf_reader

  -- The body of the task that `spawn_metrics_task` spawns.
  unfoldable pub metrics_task : FilePath → ℕ → TaskAction Done
  unfolding turns
  metrics_task metrics_path n = do
    buf_reader ← call io (G.open_lines metrics_path)
    turns n buf_reader
