-- ===== src/Simulation.antt =====
-- A small host for the runs at concrete inputs: a set of files, and one process whose exit code is
-- known once it has ended. It models no code of the repository.
use fctools.Base.{
  zero, suc, ◌⊎◌, ℕ, ◌*◌, Done, Bool, false, ◌||◌, Option, none, some, List, [], ◌∷◌, ◌==◌, inr,
  if◌then◌else◌,
}
use fctools.Text.{Text}
use fctools.FilePath.{FilePath, path_eq}
use fctools.Host.{Host, Output, Stdio, null, piped}
use fctools.Host.Calls.{Call}
use fctools.Metrics.Entry.{Metrics}

-- The files and directories that are there, the exit code of the process, how many
-- tasks are not joined, the lines of the metrics that
-- were and were not read, and the entries that were sent.
pub record Machine : Type 0 where
  pub files : List FilePath
  pub exit_code : Option ℕ
  pub tasks : ℕ
  pub unread : List Text
  pub seen : List Text
  pub sent : List Metrics

unfoldable pub is_there : FilePath → List FilePath → Bool
is_there p [] = false
is_there p (q ∷ qs) = path_eq p q || is_there p qs

unfoldable pub without : FilePath → List FilePath → List FilePath
without p [] = []
without p (q ∷ qs) = if path_eq p q then without p qs else q ∷ without p qs

abbrev adds : FilePath → Call Machine Text Done
adds p m = (inr tt, record m { files = p ∷ m.files })

abbrev drops : FilePath → Call Machine Text Done
drops p m = (inr tt, record m { files = without p m.files })

abbrev pipe_for : Stdio → Option Done
pipe_for null = none
pipe_for piped = some tt

abbrev pub code_of : Option ℕ → ℕ
code_of none = 0
code_of (some code) = code

abbrev pub joined : ℕ → Machine → Option (Done ⊎ (Text ⊎ Done)) × Machine
joined zero m = (none, m)
joined (suc n) m = (some (inr (inr tt)), record m { tasks = n })

abbrev report_of : Option ℕ → List ℕ → Output ℕ
report_of code printed = record { status = code_of code; stdout = printed; stderr = [] }

-- A program prints its own path. Requests are answered with 204 and an empty body.
abbrev pub simulation : Host
simulation = record {
  World = Machine;
  IoError = Text;
  other_error = λ message. message;
  try_exists = λ p m. (inr (is_there p m.files), m);
  create_dir_all = adds;
  remove_dir_all = drops;
  remove_file = drops;
  create_file = adds;
  write = λ p text. adds p;
  copy = λ p q. adds q;
  rename = λ p q m. adds q (drops p m).1;
  hard_link = λ p q. adds q;
  ExitStatus = ℕ;
  Handle = Done;
  Pipe = Done;
  success = λ code. code == 0;
  into_raw = λ code. code * 256;
  geteuid = 1000;
  getegid = 1000;
  spawn = λ c m. (
    inr (record {
      handle = tt;
      stdin = pipe_for c.stdin;
      stdout = pipe_for c.stdout;
      stderr = pipe_for c.stderr;
    }),
    m,
  );
  write_pipe = λ p text m. (inr tt, m);
  try_wait = λ h m. (inr m.exit_code, m);
  wait = λ h m. (inr (code_of m.exit_code), record m { exit_code = some (code_of m.exit_code) });
  start_kill = λ h m. (inr tt, record m { exit_code = some 9 });
  wait_with_output = λ child m. (inr (report_of m.exit_code []), m);
  output = λ p args m. (inr (report_of m.exit_code p), m);
  JoinError = Done;
  spawn_blocking = λ task m. record (task m).1 { tasks = suc m.tasks };
  join_next = λ m. joined m.tasks m;
  HyperError = Done;
  BodyError = Done;
  HttpError = Done;
  Uri = Text;
  Response = ℕ;
  unix_uri = λ socket route. some route;
  build_request = λ method content_type body.
      inr (record { method = method; content_type = content_type; body = body });
  request = λ uri request m. (inr 204, m);
  status = λ response. response;
  frames = λ response m. ([], m);
  from_utf8_lossy = λ bytes. bytes;
}

abbrev pub idle : Machine
idle = record { files = []; exit_code = none; tasks = 0; unread = []; seen = []; sent = [] }
