-- ===== src/Vm/Lifecycle/Runs.antt =====
-- Runs of src/vm/mod.rs and src/vm/api.rs: any calls on a prepared virtual machine.
use fctools.Base.{ℕ, Bool, Option, List}
use fctools.Text.{Text}
use fctools.FilePath.{FilePath}
use fctools.Host.{Host, Request}
use fctools.Models.{CreateSnapshot}
use fctools.Vm.Machine.{Json, Vm, take_pipes, register_vsock_listener_path}
use fctools.Vm.Machine
use fctools.Vm.Api.{api_custom_request, api_pause, api_resume, api_create_snapshot}
use fctools.Vm.Api.Queries.{Query, asked, asked-Follows}
use fctools.Vm.Shutdown.{ShutdownMethod, shutdown}
use fctools.Vm.Cleanup.{cleanup}
use fctools.Vm.Start.{start}
use fctools.Vm.Motion.{VmWorld}
use fctools.Vm.Lifecycle.{
  Kind, starting, pausing, resuming, asking, Course, life, IsSoundVm, following,
}
use fctools.Vm.Lifecycle.Flags.{
  api_pause-Refines, api_resume-Refines, custom_kind, custom-Refines, create_snapshot-Refines,
}
use fctools.Vm.Lifecycle.Calls.{
  take_pipes-Refines, register-Refines, cleanup-Refines, shutdown-Refines,
}
use fctools.Vm.Lifecycle.Starting.{start-Refines}

-- The calls of `Vm`. The timers of `start` and `shutdown` come with them.
pub data VmOperation (H : Host) (J : Json) : Type 0 where
  starts : ℕ → Bool → VmOperation H J
  shuts_down : (H.World → Bool × H.World) → List ShutdownMethod → VmOperation H J
  pauses resumes cleans_up takes_pipes reads_state : VmOperation H J
  registers : FilePath → VmOperation H J
  creates_snapshot : CreateSnapshot → VmOperation H J
  requests : Text → Request → Option Bool → VmOperation H J
  asks : Query J → VmOperation H J

module _ (H : Host) (J : Json) where
  -- The state that a call leaves, whatever it answers.
  unfoldable pub after : VmOperation H J → VmWorld H → VmWorld H
  unfolding asked
  after (starts checks late) s = (start H J checks late s).1
  after (shuts_down elapses methods) s = (shutdown H J elapses methods s).1
  after pauses s = (api_pause H J s).1
  after resumes s = (api_resume H J s).1
  after cleans_up s = (cleanup H J s).1
  after takes_pipes s = (take_pipes H J s).1
  after reads_state s = (Machine.state H J s).1
  after (registers path) s = (register_vsock_listener_path H J path s).1
  after (creates_snapshot create) s = (api_create_snapshot H J create s).1
  after (requests route request mark) s = (api_custom_request H J route request mark s).1
  after (asks query) s = asked H J query s

  abbrev pub kind_of : VmOperation H J → Kind
  kind_of (starts checks late) = starting
  kind_of (shuts_down elapses methods) = pausing
  kind_of pauses = pausing
  kind_of resumes = resuming
  kind_of cleans_up = asking
  kind_of takes_pipes = asking
  kind_of reads_state = asking
  kind_of (registers path) = asking
  kind_of (creates_snapshot create) = asking
  kind_of (requests route request mark) = custom_kind H J mark
  kind_of (asks query) = asking

  -- Each call refines the abstract machine: from a sound virtual machine it comes to a sound one, along
  -- the steps that calls of its kind may take. Only `start` boots a machine, only `pause`, `shutdown`
  -- and a custom request that says so pause it, only `resume` and such a request resume it, any call
  -- may notice that a machine that lives has ended, and nothing leads back from the end.
  pub after-Refines :
      (operation : VmOperation H J) (s : VmWorld H)
      → IsSoundVm H 0 s.0
      → IsSoundVm H 0 (after operation s).0
        × Course (kind_of operation) (life H s.0) (life H (after operation s).0)
  unfolding after following
  after-Refines (starts checks late) = start-Refines H J checks late
  after-Refines (shuts_down elapses methods) = shutdown-Refines H J elapses methods
  after-Refines pauses = api_pause-Refines H J
  after-Refines resumes = api_resume-Refines H J
  after-Refines cleans_up = cleanup-Refines H J asking
  after-Refines takes_pipes = take_pipes-Refines H J asking
  after-Refines reads_state = (following H J asking 0).sees
  after-Refines (registers path) = register-Refines H J asking path
  after-Refines (creates_snapshot create) = create_snapshot-Refines H J create
  after-Refines (requests route request mark) = custom-Refines H J route request mark
  after-Refines (asks query) = asked-Follows (following H J asking 0) query
