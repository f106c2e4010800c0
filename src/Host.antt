-- ===== src/Host.antt =====
-- What the program runs on and does not implement: the operating system as `std`, `tokio` and `libc`
-- show it, and the crates `hyper` and `http`. Every call may change the world and may
-- answer anything; what a proof needs of the answers is a hypothesis of its theorem.
pub mod Calls
use fctools.Base.{ℕ, Bool, Done, Option, List, ◌⊎◌, Outcome}
use fctools.Base.Action.{Action}
use fctools.Text.{Text}
use fctools.FilePath.{FilePath}
use Calls.{Call}

-- `std::process::Stdio`
pub data Stdio : Type 0 where
  null piped : Stdio

-- `tokio::process::Command`, as far as the source sets it.
pub record Command : Type 0 where
  pub program : FilePath
  pub args : List Text
  pub stdin : Stdio
  pub stdout : Stdio
  pub stderr : Stdio

-- `tokio::process::Child`: the process and the pipes that have not been taken out.
pub record Child (Handle Pipe : Type 0) : Type 0 where
  pub handle : Handle
  pub stdin : Option Pipe
  pub stdout : Option Pipe
  pub stderr : Option Pipe

-- `std::process::Output`
pub record Output (ExitStatus : Type 0) : Type 0 where
  pub status : ExitStatus
  pub stdout : List ℕ
  pub stderr : List ℕ

-- `http::Request<Full<Bytes>>` without its URI, which the client sets.
pub record Request : Type 0 where
  pub method : Text
  pub content_type : Option Text
  pub body : Text

-- A frame of a response body: data, or trailers.
pub data Frame : Type 0 where
  chunk : List ℕ → Frame
  trailers : Frame

pub record Host : Type 1 where
  pub World : Type 0
  -- Files.
  pub IoError : Type 0
  pub other_error : Text → IoError
  pub try_exists : FilePath → Call World IoError Bool
  pub create_dir_all : FilePath → Call World IoError Done
  pub remove_dir_all : FilePath → Call World IoError Done
  pub remove_file : FilePath → Call World IoError Done
  pub create_file : FilePath → Call World IoError Done
  pub write : FilePath → Text → Call World IoError Done
  pub copy : FilePath → FilePath → Call World IoError Done
  pub rename : FilePath → FilePath → Call World IoError Done
  pub hard_link : FilePath → FilePath → Call World IoError Done
  -- Processes.
  pub ExitStatus : Type 0
  pub Handle : Type 0
  pub Pipe : Type 0
  pub success : ExitStatus → Bool
  pub into_raw : ExitStatus → ℕ
  pub geteuid : ℕ
  pub getegid : ℕ
  pub spawn : Command → Call World IoError (Child Handle Pipe)
  pub write_pipe : Pipe → Text → Call World IoError Done
  pub try_wait : Handle → Call World IoError (Option ExitStatus)
  pub wait : Handle → Call World IoError ExitStatus
  pub start_kill : Handle → Call World IoError Done
  pub wait_with_output : Child Handle Pipe → Call World IoError (Output ExitStatus)
  -- `Command::output` of a program with arguments, whose standard output is piped.
  pub output : FilePath → List Text → Call World IoError (Output ExitStatus)
  -- Tasks of a `JoinSet`.
  pub JoinError : Type 0
  pub spawn_blocking : Call World IoError Done → World → World
  pub join_next : World → Option (JoinError ⊎ (IoError ⊎ Done)) × World
  -- HTTP over the Unix socket.
  pub HyperError : Type 0
  pub BodyError : Type 0
  pub HttpError : Type 0
  pub Uri : Type 0
  pub Response : Type 0
  pub unix_uri : FilePath → Text → Option Uri
  pub build_request : Text → Option Text → Text → HttpError ⊎ Request
  pub request : Uri → Request → Call World HyperError Response
  pub status : Response → ℕ
  pub frames : Response → World → List (BodyError ⊎ Frame) × World
  pub from_utf8_lossy : List ℕ → Text
