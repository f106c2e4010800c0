-- ===== src/Vm/Machine.antt =====
-- src/vm/mod.rs: the virtual machine around its process, its state, and the checks of the state. What
-- serde_json makes of the bodies is a parameter.
use fctools.Base.{
  ℕ, Done, Bool, true, false, not, ◌&&◌, Option, List, [], ◌∷◌, ◌++◌, ◌==◌, ok, map_err, ◌⊎◌,
}
use fctools.Base.Action.{Action, pure, raise, ◌>>=◌, ◌>>◌, fail_if}
use fctools.Text.{Text}
use fctools.FilePath.{FilePath}
use fctools.Host.{Host}
use fctools.Models.{
  BootSource, Drive, MachineConfiguration, CpuTemplate, NetworkInterface, BalloonDevice,
  VsockDevice, LoggerSystem, MetricsSystem, MmdsConfiguration, EntropyDevice, LoadSnapshot,
  CreateSnapshot,
}
use fctools.Models.Updates.{
  UpdateBalloonDevice, UpdateBalloonStatistics, UpdateDrive, UpdateNetworkInterface,
}
use fctools.Models.Responses.{
  BalloonStatistics, ReprFirecrackerVersion, ReprInfo, ReprApiError, EffectiveConfiguration,
}
use fctools.Process.{VmmProcess, VmmProcessState, VmmProcessError, VmmProcessPipes, ProcessAction}
use fctools.Process
use fctools.Vm.Configuration.{VmConfiguration, VmConfigurationData}

-- The actions of `ReprActionType`, and the states of `ReprUpdatedState`.
pub data ReprActionType : Type 0 where
  flush_metrics instance_start send_ctrl_alt_del : ReprActionType

pub data ReprUpdatedState : Type 0 where
  paused_state resumed_state : ReprUpdatedState

-- What the calls of src/vm/api.rs serialise, and what `start` writes to a file: a value of a type of the
-- code, or of any other type that is `Serialize`.
pub data Body (Serializable : Type 0) : Type 0 where
  boot_source_body : BootSource → Body Serializable
  drive_body : Drive → Body Serializable
  machine_body : MachineConfiguration → Body Serializable
  cpu_body : CpuTemplate → Body Serializable
  network_body : NetworkInterface → Body Serializable
  balloon_body : BalloonDevice → Body Serializable
  vsock_body : VsockDevice → Body Serializable
  logger_body : LoggerSystem → Body Serializable
  metrics_body : MetricsSystem → Body Serializable
  mmds_body : MmdsConfiguration → Body Serializable
  entropy_body : EntropyDevice → Body Serializable
  load_snapshot_body : LoadSnapshot → Body Serializable
  create_snapshot_body : CreateSnapshot → Body Serializable
  action_body : ReprActionType → Body Serializable
  state_body : ReprUpdatedState → Body Serializable
  configuration_body : VmConfigurationData → Body Serializable
  update_balloon_body : UpdateBalloonDevice → Body Serializable
  update_statistics_body : UpdateBalloonStatistics → Body Serializable
  update_drive_body : UpdateDrive → Body Serializable
  update_network_body : UpdateNetworkInterface → Body Serializable
  value_body : Serializable → Body Serializable

-- `serde_json`: bodies to JSON, and responses from JSON. `Serializable` are the values of all types that
-- are `Serialize`, and `Value` is `serde_json::Value`, one of these types.
pub record Json : Type 1 where
  pub SerdeError : Type 0
  pub Value : Type 0
  pub Serializable : Type 0
  pub untyped : Value → Serializable
  pub to_string : Body Serializable → SerdeError ⊎ Text
  pub value_from_str : Text → SerdeError ⊎ Value
  pub api_error_from_str : Text → SerdeError ⊎ ReprApiError
  pub info_from_str : Text → SerdeError ⊎ ReprInfo
  pub version_from_str : Text → SerdeError ⊎ ReprFirecrackerVersion
  pub balloon_from_str : Text → SerdeError ⊎ BalloonDevice
  pub statistics_from_str : Text → SerdeError ⊎ BalloonStatistics
  pub machine_from_str : Text → SerdeError ⊎ MachineConfiguration
  pub effective_from_str : Text → SerdeError ⊎ EffectiveConfiguration

pub data VmState (H : Host) : Type 0 where
  not_started running paused exited : VmState H
  crashed : H.ExitStatus → VmState H

pub data VmError (H : Host) (J : Json) : Type 0 where
  process_error : VmmProcessError H → VmError H J
  expected_state : VmState H → VmState H → VmError H J
  expected_exited_or_crashed expected_paused_or_running : VmState H → VmError H J
  serde_error : J.SerdeError → VmError H J
  io_error : H.IoError → VmError H J
  api_responded_with_fault : ℕ → Text → VmError H J
  api_request_not_constructed : H.HttpError → VmError H J
  api_response_could_not_be_received : H.BodyError → VmError H J
  api_response_expected_empty : Text → VmError H J
  no_shutdown_methods_specified timeout disabled_api_socket_is_unsupported missing_path_mapping :
      VmError H J

pub record AccessiblePaths : Type 0 where
  pub drive_sockets : List (Text × FilePath)
  pub metrics_path : Option FilePath
  pub log_path : Option FilePath
  pub vsock_multiplexer_path : Option FilePath
  pub vsock_listener_paths : List FilePath

pub record Vm (H : Host) : Type 0 where
  pub vmm_process : VmmProcess H
  pub is_paused : Bool
  pub original_configuration_data : VmConfigurationData
  pub configuration : Option VmConfiguration
  pub accessible_paths : AccessiblePaths
  pub executor_traceless : Bool
  pub snapshot_traces : List FilePath

module _ (H : Host) (J : Json) where
  abbrev pub VmAction : Type 0 → Type 0
  VmAction A = Action (Vm H × H.World) (VmError H J) A

  -- A call of the process, with its error mapped.
  abbrev pub on_process : {A : Type 0} → ProcessAction H A → VmAction A
  on_process m (v, w) =
      let (r, s) = m (v.vmm_process, w) in
      (map_err process_error r, (record v { vmm_process = s.0 }, s.1))

  abbrev pub update_vm : (Vm H → Vm H) → VmAction Done
  update_vm f (v, w) = (ok tt, (f v, w))

  abbrev pub vm_state : Bool → VmmProcessState H → VmState H
  vm_state true VmmProcessState.started = paused
  vm_state false VmmProcessState.started = running
  vm_state is_paused VmmProcessState.exited = exited
  vm_state is_paused (VmmProcessState.crashed exit_status) = crashed exit_status
  vm_state is_paused _ = not_started

  -- `Vm::state`
  unfoldable pub state : VmAction (VmState H)
  state (v, w) =
      let (r, s) = Process.state H (v.vmm_process, w) in
      (ok (vm_state v.is_paused s.0.state), (record v { vmm_process = s.0 }, s.1))

  -- `PartialEq` of the states.
  unfoldable pub state_eq : VmState H → VmState H → Bool
  state_eq not_started not_started = true
  state_eq running running = true
  state_eq paused paused = true
  state_eq exited exited = true
  state_eq (crashed s) (crashed t) = H.into_raw s == H.into_raw t
  state_eq _ _ = false

  unfoldable pub ensure_state : VmState H → VmAction Done
  unfolding state state_eq
  ensure_state expected = state >>= λ current.
      fail_if (not (state_eq current expected)) (expected_state expected current)

  unfoldable pub ensure_paused_or_running : VmAction Done
  unfolding state state_eq
  ensure_paused_or_running = state >>= λ current.
      fail_if (not (state_eq current running) && not (state_eq current paused))
        (expected_paused_or_running current)

  abbrev pub check_exited_or_crashed : VmState H → VmAction Done
  check_exited_or_crashed (crashed exit_status) = pure tt
  check_exited_or_crashed exited = pure tt
  check_exited_or_crashed current = raise (expected_exited_or_crashed current)

  unfoldable pub ensure_exited_or_crashed : VmAction Done
  unfolding state
  ensure_exited_or_crashed = state >>= check_exited_or_crashed

  unfoldable pub take_pipes : VmAction (VmmProcessPipes H.Pipe)
  unfolding ensure_paused_or_running
  take_pipes = ensure_paused_or_running >> on_process (Process.take_pipes H)

  unfoldable pub register_vsock_listener_path : FilePath → VmAction Done
  register_vsock_listener_path listener_path = update_vm (λ v. record v {
    accessible_paths = record v.accessible_paths {
      vsock_listener_paths = v.accessible_paths.vsock_listener_paths ++ (listener_path ∷ []);
    };
  })
