-- ===== src/Vm/Api.antt =====
-- src/vm/api.rs: the calls of Firecracker's API that initialise, pause, resume and snapshot a virtual
-- machine.
pub mod Laws
pub mod Keeping
pub mod Pausing
pub mod Calls
pub mod Queries
mod Tests
use fctools.Base.{
  ℕ, Done, Bool, true, false, not, Option, none, some, List, [], ◌∷◌, ◌++◌, Outcome, ok, err, ◌⊎◌,
  map_err,
}
use fctools.Base.Action.{Action, pure, raise, of_outcome, ◌>>=◌, ◌>>◌}
use fctools.Text.{Text, txt, is_blank}
use fctools.FilePath.{FilePath}
use fctools.Host.{Host, Request}
use fctools.Host.Calls.{answer}
use fctools.Models.{
  BootSource, Drive, MachineConfiguration, CpuTemplate, NetworkInterface, BalloonDevice,
  VsockDevice, LoggerSystem, MetricsSystem, MmdsConfiguration, EntropyDevice, LoadSnapshot,
  CreateSnapshot,
}
use fctools.Process.{inner_to_outer_path}
use fctools.Process.Socket
use fctools.Process.Socket.{is_success, recv_to_string}
use fctools.Vm.Configuration.{VmConfigurationData}
use fctools.Vm.Snapshot.{SnapshotData}
use fctools.Vm.Machine.{
  Body, boot_source_body, drive_body, machine_body, cpu_body, network_body, balloon_body,
  vsock_body, logger_body, metrics_body, mmds_body, entropy_body, load_snapshot_body,
  create_snapshot_body, action_body, state_body, instance_start, paused_state, resumed_state, Json,
  Vm, running, paused, VmError, serde_error, api_responded_with_fault, api_request_not_constructed,
  api_response_could_not_be_received, api_response_expected_empty, VmAction, on_process, update_vm,
  ensure_state, ensure_paused_or_running,
}

module _ (H : Host) (J : Json) where
  abbrev pub in_world : {E A : Type 0} → (E → VmError H J) → Action H.World E A → VmAction H J A
  in_world f m (v, w) = let (r, w') = m w in (map_err f r, (v, w'))

  -- The request, with its body as JSON.
  unfoldable pub build : Text → Option (Body J.Serializable) → VmAction H J Request
  build method none =
      of_outcome (map_err api_request_not_constructed (answer (H.build_request method none [])))
  build method (some body) =
      of_outcome (map_err serde_error (answer (J.to_string body))) >>= λ json. of_outcome (
        map_err api_request_not_constructed
          (answer (H.build_request method (some (txt "application/json")) json)))

  abbrev pub check_status : Bool → ℕ → Text → VmAction H J Text
  check_status true status response_json = pure response_json
  check_status false status response_json =
      of_outcome (map_err serde_error (answer (J.api_error_from_str response_json)))
      >>= λ api_error. raise (api_responded_with_fault status api_error.fault_message)

  unfoldable pub send_api_request_internal :
      Text → Text → Option (Body J.Serializable) → VmAction H J Text
  unfolding build is_success recv_to_string
  send_api_request_internal route method request_body = do
    request ← build method request_body
    response ← on_process H J (Socket.send_api_request H route request)
    response_json ← in_world api_response_could_not_be_received (recv_to_string H response)
    check_status (is_success (H.status response)) (H.status response) response_json

  abbrev pub expect_empty : Bool → Text → VmAction H J Done
  expect_empty true response_json = pure tt
  expect_empty false response_json = raise (api_response_expected_empty response_json)

  unfoldable pub send_api_request : Text → Text → Option (Body J.Serializable) → VmAction H J Done
  unfolding send_api_request_internal is_blank
  send_api_request route method request_body =
      send_api_request_internal route method request_body >>= λ response_json.
      expect_empty (is_blank response_json) response_json

  unfoldable pub send_api_request_with_response :
      {Resp : Type 0}
      → (Text → J.SerdeError ⊎ Resp)
      → Text
      → Text
      → Option (Body J.Serializable)
      → VmAction H J Resp
  unfolding send_api_request_internal
  send_api_request_with_response from_str route method request_body =
      send_api_request_internal route method request_body >>= λ response_json.
      of_outcome (map_err serde_error (answer (from_str response_json)))

  -- `if let Some(ref device) = ... { send_api_request(vm, route, "PUT", Some(device)).await?; }`
  abbrev pub put_optional :
      {A : Type 0} → Text → (A → Body J.Serializable) → Option A → VmAction H J Done
  put_optional route body none = pure tt
  put_optional route body (some device) = send_api_request route (txt "PUT") (some (body device))

  unfoldable pub put_drives : List Drive → VmAction H J Done
  unfolding send_api_request
  put_drives [] = pure tt
  put_drives (drive ∷ drives) = do
    send_api_request (txt "/drives/" ++ drive.drive_id) (txt "PUT") (some (drive_body drive))
    put_drives drives

  unfoldable pub put_network_interfaces : List NetworkInterface → VmAction H J Done
  unfolding send_api_request
  put_network_interfaces [] = pure tt
  put_network_interfaces (interface ∷ interfaces) = do
    send_api_request (txt "/network-interfaces/" ++ interface.iface_id) (txt "PUT")
        (some (network_body interface))
    put_network_interfaces interfaces

  unfoldable pub init_new : VmConfigurationData → VmAction H J Done
  unfolding send_api_request put_drives put_network_interfaces
  init_new d = do
    send_api_request (txt "/boot-source") (txt "PUT") (some (boot_source_body d.boot_source))
    put_drives d.drives
    send_api_request (txt "/machine-config") (txt "PUT")
        (some (machine_body d.machine_configuration))
    put_optional (txt "/cpu-config") cpu_body d.cpu_template
    put_network_interfaces d.network_interfaces
    put_optional (txt "/balloon") balloon_body d.balloon_device
    put_optional (txt "/vsock") vsock_body d.vsock_device
    put_optional (txt "/logger") logger_body d.logger_system
    put_optional (txt "/metrics") metrics_body d.metrics_system
    put_optional (txt "/mmds/config") mmds_body d.mmds_configuration
    put_optional (txt "/entropy") entropy_body d.entropy_device
    send_api_request (txt "/actions") (txt "PUT") (some (action_body instance_start))

  unfoldable pub init_restored_from_snapshot :
      VmConfigurationData → LoadSnapshot → VmAction H J Done
  unfolding send_api_request
  init_restored_from_snapshot d load_snapshot = do
    put_optional (txt "/logger") logger_body d.logger_system
    put_optional (txt "/metrics") metrics_body d.metrics_system
    send_api_request (txt "/snapshot/load") (txt "PUT") (some (load_snapshot_body load_snapshot))

  unfoldable pub api_custom_request : Text → Request → Option Bool → VmAction H J H.Response
  unfolding ensure_paused_or_running
  api_custom_request route request new_is_paused = do
    ensure_paused_or_running H J
    response ← on_process H J (Socket.send_api_request H route request)
    (elim new_is_paused [
      | none ↦ pure tt
      | some is_paused ↦ update_vm H J (λ v. record v { is_paused = is_paused })
    ])
    pure response

  unfoldable pub api_pause : VmAction H J Done
  unfolding ensure_state send_api_request
  api_pause = do
    ensure_state H J running
    send_api_request (txt "/vm") (txt "PATCH") (some (state_body paused_state))
    update_vm H J (λ v. record v { is_paused = true })

  unfoldable pub api_resume : VmAction H J Done
  unfolding ensure_state send_api_request
  api_resume = do
    ensure_state H J paused
    send_api_request (txt "/vm") (txt "PATCH") (some (state_body resumed_state))
    update_vm H J (λ v. record v { is_paused = false })

  -- The two files are remembered, unless the executor is traceless.
  abbrev pub trace_files : Bool → FilePath → FilePath → Vm H → Vm H
  trace_files true snapshot_path mem_file_path v = v
  trace_files false snapshot_path mem_file_path v = record v {
    snapshot_traces = v.snapshot_traces ++ (snapshot_path ∷ mem_file_path ∷ []);
  }

  abbrev pub snapshot_of : CreateSnapshot → Vm H → SnapshotData
  snapshot_of create_snapshot v = record {
    snapshot_path = inner_to_outer_path H v.vmm_process create_snapshot.snapshot_path;
    mem_file_path = inner_to_outer_path H v.vmm_process create_snapshot.mem_file_path;
    configuration_data = v.original_configuration_data;
  }

  abbrev pub taken : CreateSnapshot → VmAction H J SnapshotData
  taken create_snapshot (v, w) =
      let s = snapshot_of create_snapshot v in
      (ok s, (trace_files v.executor_traceless s.snapshot_path s.mem_file_path v, w))

  unfoldable pub api_create_snapshot : CreateSnapshot → VmAction H J SnapshotData
  unfolding ensure_state send_api_request inner_to_outer_path
  api_create_snapshot create_snapshot = do
    ensure_state H J paused
    send_api_request (txt "/snapshot/create") (txt "PUT")
        (some (create_snapshot_body create_snapshot))
    taken create_snapshot
