-- ===== src/Vm/Api/Calls.antt =====
-- src/vm/api.rs: the calls that ask for the state of a virtual machine, or update a device of it. A
-- value of a type parameter `T: Serialize` is one of `J.Serializable`, and `T: DeserializeOwned` a function from JSON.
use fctools.Base.{Done, Bool, true, false, none, some, ◌++◌, ◌⊎◌}
use fctools.Base.Action.{pure, ◌>>=◌, ◌>>◌}
use fctools.Text.{Text, txt}
use fctools.Host.{Host}
use fctools.Models.{BalloonDevice, MachineConfiguration}
use fctools.Models.Updates.{
  UpdateBalloonDevice, UpdateBalloonStatistics, UpdateDrive, UpdateNetworkInterface,
}
use fctools.Models.Responses.{
  BalloonStatistics, Info, ReprInfo, ReprIsPaused, EffectiveConfiguration,
}
use fctools.Models.Responses
use fctools.Vm.Machine.{
  value_body, action_body, flush_metrics, update_balloon_body, update_statistics_body,
  update_drive_body, update_network_body, Json, running, VmAction, ensure_state,
  ensure_paused_or_running,
}
use fctools.Vm.Api.{send_api_request, send_api_request_with_response}

-- `repr.is_paused == ReprIsPaused::Paused`
abbrev pub is_paused_repr : ReprIsPaused → Bool
is_paused_repr Responses.paused = true
is_paused_repr Responses.running = false

abbrev pub info_of : ReprInfo → Info
info_of repr = record {
  id = repr.id;
  is_paused = is_paused_repr repr.is_paused;
  vmm_version = repr.vmm_version;
  app_name = repr.app_name;
}

module _ (H : Host) (J : Json) where
  unfoldable pub api_get_info : VmAction H J Info
  unfolding ensure_paused_or_running send_api_request_with_response
  api_get_info = do
    ensure_paused_or_running H J
    repr ← send_api_request_with_response H J J.info_from_str (txt "/") (txt "GET") none
    pure (info_of repr)

  unfoldable pub api_flush_metrics : VmAction H J Done
  unfolding ensure_paused_or_running send_api_request
  api_flush_metrics = do
    ensure_paused_or_running H J
    send_api_request H J (txt "/actions") (txt "PUT") (some (action_body flush_metrics))

  unfoldable pub api_get_balloon_device : VmAction H J BalloonDevice
  unfolding ensure_paused_or_running send_api_request_with_response
  api_get_balloon_device = do
    ensure_paused_or_running H J
    send_api_request_with_response H J J.balloon_from_str (txt "/balloon") (txt "GET") none

  unfoldable pub api_update_balloon_device : UpdateBalloonDevice → VmAction H J Done
  unfolding ensure_paused_or_running send_api_request
  api_update_balloon_device update_balloon = do
    ensure_paused_or_running H J
    send_api_request H J (txt "/balloon") (txt "PATCH") (some (update_balloon_body update_balloon))

  unfoldable pub api_get_balloon_statistics : VmAction H J BalloonStatistics
  unfolding ensure_state send_api_request_with_response
  api_get_balloon_statistics = do
    ensure_state H J running
    send_api_request_with_response H J J.statistics_from_str (txt "/balloon/statistics") (txt "GET")
        none

  unfoldable pub api_update_balloon_statistics : UpdateBalloonStatistics → VmAction H J Done
  unfolding ensure_paused_or_running send_api_request
  api_update_balloon_statistics update_balloon_statistics = do
    ensure_paused_or_running H J
    send_api_request H J (txt "/balloon/statistics") (txt "PATCH")
        (some (update_statistics_body update_balloon_statistics))

  unfoldable pub api_update_drive : UpdateDrive → VmAction H J Done
  unfolding ensure_paused_or_running send_api_request
  api_update_drive update_drive = do
    ensure_paused_or_running H J
    send_api_request H J (txt "/drives/" ++ update_drive.drive_id) (txt "PATCH")
        (some (update_drive_body update_drive))

  unfoldable pub api_update_network_interface : UpdateNetworkInterface → VmAction H J Done
  unfolding ensure_paused_or_running send_api_request
  api_update_network_interface update_network_interface = do
    ensure_paused_or_running H J
    send_api_request H J (txt "/network-interfaces/" ++ update_network_interface.iface_id)
        (txt "PATCH") (some (update_network_body update_network_interface))

  unfoldable pub api_get_machine_configuration : VmAction H J MachineConfiguration
  unfolding ensure_paused_or_running send_api_request_with_response
  api_get_machine_configuration = do
    ensure_paused_or_running H J
    send_api_request_with_response H J J.machine_from_str (txt "/machine-config") (txt "GET") none

  unfoldable pub api_get_firecracker_version : VmAction H J Text
  unfolding ensure_paused_or_running send_api_request_with_response
  api_get_firecracker_version = do
    ensure_paused_or_running H J
    repr ← send_api_request_with_response H J J.version_from_str (txt "/version") (txt "GET") none
    pure repr.firecracker_version

  unfoldable pub api_get_effective_configuration : VmAction H J EffectiveConfiguration
  unfolding ensure_paused_or_running send_api_request_with_response
  api_get_effective_configuration = do
    ensure_paused_or_running H J
    send_api_request_with_response H J J.effective_from_str (txt "/vm/config") (txt "GET") none

  unfoldable pub api_create_mmds : J.Serializable → VmAction H J Done
  unfolding ensure_paused_or_running send_api_request
  api_create_mmds value = do
    ensure_paused_or_running H J
    send_api_request H J (txt "/mmds") (txt "PUT") (some (value_body value))

  unfoldable pub api_update_mmds : J.Serializable → VmAction H J Done
  unfolding ensure_paused_or_running send_api_request
  api_update_mmds value = do
    ensure_paused_or_running H J
    send_api_request H J (txt "/mmds") (txt "PATCH") (some (value_body value))

  unfoldable pub api_create_mmds_untyped : J.Value → VmAction H J Done
  unfolding ensure_paused_or_running send_api_request
  api_create_mmds_untyped value = do
    ensure_paused_or_running H J
    send_api_request H J (txt "/mmds") (txt "PUT") (some (value_body (J.untyped value)))

  unfoldable pub api_update_mmds_untyped : J.Value → VmAction H J Done
  unfolding ensure_paused_or_running send_api_request
  api_update_mmds_untyped value = do
    ensure_paused_or_running H J
    send_api_request H J (txt "/mmds") (txt "PATCH") (some (value_body (J.untyped value)))

  unfoldable pub api_get_mmds : {T : Type 0} → (Text → J.SerdeError ⊎ T) → VmAction H J T
  unfolding ensure_paused_or_running send_api_request_with_response
  api_get_mmds from_str = do
    ensure_paused_or_running H J
    send_api_request_with_response H J from_str (txt "/mmds") (txt "GET") none

  unfoldable pub api_get_mmds_untyped : VmAction H J J.Value
  unfolding ensure_paused_or_running send_api_request_with_response
  api_get_mmds_untyped = do
    ensure_paused_or_running H J
    send_api_request_with_response H J J.value_from_str (txt "/mmds") (txt "GET") none
