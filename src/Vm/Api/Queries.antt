-- ===== src/Vm/Api/Queries.antt =====
-- The calls of src/vm/api.rs that ask for something or update a device, as one type.
use fctools.Base.{none, some, ◌++◌}
use fctools.Base.Action.{◌>>◌, ◌>>=◌, pure}
use fctools.Text.{txt}
use fctools.Host.{Host}
use fctools.Models.Updates.{
  UpdateBalloonDevice, UpdateBalloonStatistics, UpdateDrive, UpdateNetworkInterface,
}
use fctools.Vm.Machine.{
  value_body, action_body, flush_metrics, update_balloon_body, update_statistics_body,
  update_drive_body, update_network_body, Json, running, VmAction, ensure_state,
  ensure_paused_or_running,
}
use fctools.Vm.Motion.{
  Motion, VmWorld, Follows, same, bind, ensure_state-Follows, ensure_paused_or_running-Follows,
  send-Follows, send_with_response-Follows,
}
use fctools.Vm.Api.{send_api_request, send_api_request_with_response}
use fctools.Vm.Api.Calls.{
  info_of, api_get_info, api_get_balloon_statistics, api_get_firecracker_version, api_flush_metrics,
  api_update_balloon_device, api_update_balloon_statistics, api_update_drive,
  api_update_network_interface, api_create_mmds, api_update_mmds, api_create_mmds_untyped,
  api_update_mmds_untyped, api_get_balloon_device, api_get_machine_configuration,
  api_get_effective_configuration, api_get_mmds_untyped,
}

pub data Query (J : Json) : Type 0 where
  flushes_metrics : Query J
  updates_balloon : UpdateBalloonDevice → Query J
  updates_statistics : UpdateBalloonStatistics → Query J
  updates_drive : UpdateDrive → Query J
  updates_network : UpdateNetworkInterface → Query J
  creates_mmds updates_mmds : J.Serializable → Query J
  creates_mmds_untyped updates_mmds_untyped : J.Value → Query J
  gets_info gets_statistics gets_version gets_balloon gets_machine gets_effective gets_mmds :
      Query J

module _ (H : Host) (J : Json) where
  -- The state that a query leaves, whatever it answers.
  unfoldable pub asked : Query J → VmWorld H → VmWorld H
  asked flushes_metrics s = (api_flush_metrics H J s).1
  asked (updates_balloon u) s = (api_update_balloon_device H J u s).1
  asked (updates_statistics u) s = (api_update_balloon_statistics H J u s).1
  asked (updates_drive u) s = (api_update_drive H J u s).1
  asked (updates_network u) s = (api_update_network_interface H J u s).1
  asked (creates_mmds u) s = (api_create_mmds H J u s).1
  asked (updates_mmds u) s = (api_update_mmds H J u s).1
  asked (creates_mmds_untyped u) s = (api_create_mmds_untyped H J u s).1
  asked (updates_mmds_untyped u) s = (api_update_mmds_untyped H J u s).1
  asked gets_info s = (api_get_info H J s).1
  asked gets_statistics s = (api_get_balloon_statistics H J s).1
  asked gets_version s = (api_get_firecracker_version H J s).1
  asked gets_balloon s = (api_get_balloon_device H J s).1
  asked gets_machine s = (api_get_machine_configuration H J s).1
  asked gets_effective s = (api_get_effective_configuration H J s).1
  asked gets_mmds s = (api_get_mmds_untyped H J s).1

module _ {H : Host} {J : Json} (M : Motion H J) where
  guarded :
      {A : Type 0} (m : VmAction H J A)
      → Follows M m
      → Follows M (ensure_paused_or_running H J >> m)
  guarded m h =
      bind M (ensure_paused_or_running H J) (λ a. m) (ensure_paused_or_running-Follows M) (λ a. h)

  -- A query follows every motion that the look at the state and the request of the process follow.
  pub asked-Follows : (q : Query J) (s : VmWorld H) → M.Rel s (asked H J q s)
  unfolding asked
  asked-Follows flushes_metrics s =
      unfold api_flush_metrics in
      guarded (send_api_request H J (txt "/actions") (txt "PUT") (some (action_body flush_metrics)))
        (send-Follows M (txt "/actions") (txt "PUT") (some (action_body flush_metrics))) s
  asked-Follows (updates_balloon u) s =
      unfold api_update_balloon_device in
      guarded (send_api_request H J (txt "/balloon") (txt "PATCH") (some (update_balloon_body u)))
        (send-Follows M (txt "/balloon") (txt "PATCH") (some (update_balloon_body u))) s
  asked-Follows (updates_statistics u) s =
      unfold api_update_balloon_statistics in
      guarded
        (send_api_request H J (txt "/balloon/statistics") (txt "PATCH")
          (some (update_statistics_body u)))
        (send-Follows M (txt "/balloon/statistics") (txt "PATCH") (some (update_statistics_body u)))
        s
  asked-Follows (updates_drive u) s =
      unfold api_update_drive in
      guarded
        (send_api_request H J (txt "/drives/" ++ u.drive_id) (txt "PATCH")
          (some (update_drive_body u)))
        (send-Follows M (txt "/drives/" ++ u.drive_id) (txt "PATCH") (some (update_drive_body u))) s
  asked-Follows (updates_network u) s =
      unfold api_update_network_interface in
      guarded
        (send_api_request H J (txt "/network-interfaces/" ++ u.iface_id) (txt "PATCH")
          (some (update_network_body u)))
        (send-Follows M (txt "/network-interfaces/" ++ u.iface_id) (txt "PATCH")
          (some (update_network_body u)))
        s
  asked-Follows (creates_mmds u) s =
      unfold api_create_mmds in
      guarded (send_api_request H J (txt "/mmds") (txt "PUT") (some (value_body u)))
        (send-Follows M (txt "/mmds") (txt "PUT") (some (value_body u))) s
  asked-Follows (updates_mmds u) s =
      unfold api_update_mmds in
      guarded (send_api_request H J (txt "/mmds") (txt "PATCH") (some (value_body u)))
        (send-Follows M (txt "/mmds") (txt "PATCH") (some (value_body u))) s
  asked-Follows (creates_mmds_untyped u) s =
      unfold api_create_mmds_untyped in
      guarded (send_api_request H J (txt "/mmds") (txt "PUT") (some (value_body (J.untyped u))))
        (send-Follows M (txt "/mmds") (txt "PUT") (some (value_body (J.untyped u)))) s
  asked-Follows (updates_mmds_untyped u) s =
      unfold api_update_mmds_untyped in
      guarded (send_api_request H J (txt "/mmds") (txt "PATCH") (some (value_body (J.untyped u))))
        (send-Follows M (txt "/mmds") (txt "PATCH") (some (value_body (J.untyped u)))) s
  asked-Follows gets_balloon s =
      unfold api_get_balloon_device in
      guarded
        (send_api_request_with_response H J J.balloon_from_str (txt "/balloon") (txt "GET") none)
        (send_with_response-Follows M J.balloon_from_str (txt "/balloon") (txt "GET") none) s
  asked-Follows gets_machine s =
      unfold api_get_machine_configuration in
      guarded
        (send_api_request_with_response H J J.machine_from_str (txt "/machine-config") (txt "GET")
          none)
        (send_with_response-Follows M J.machine_from_str (txt "/machine-config") (txt "GET") none) s
  asked-Follows gets_effective s =
      unfold api_get_effective_configuration in
      guarded
        (send_api_request_with_response H J J.effective_from_str (txt "/vm/config") (txt "GET")
          none)
        (send_with_response-Follows M J.effective_from_str (txt "/vm/config") (txt "GET") none) s
  asked-Follows gets_mmds s =
      unfold api_get_mmds_untyped in
      guarded (send_api_request_with_response H J J.value_from_str (txt "/mmds") (txt "GET") none)
        (send_with_response-Follows M J.value_from_str (txt "/mmds") (txt "GET") none) s
  asked-Follows gets_info s =
      unfold api_get_info in
      guarded
        (send_api_request_with_response H J J.info_from_str (txt "/") (txt "GET") none >>= λ repr.
          pure (info_of repr))
        (bind M (send_api_request_with_response H J J.info_from_str (txt "/") (txt "GET") none)
          (λ repr. pure (info_of repr))
          (send_with_response-Follows M J.info_from_str (txt "/") (txt "GET") none)
          (λ repr. same M))
        s
  asked-Follows gets_version s =
      unfold api_get_firecracker_version in
      guarded
        (send_api_request_with_response H J J.version_from_str (txt "/version") (txt "GET") none
          >>= λ repr. pure repr.firecracker_version)
        (bind M
          (send_api_request_with_response H J J.version_from_str (txt "/version") (txt "GET") none)
          (λ repr. pure repr.firecracker_version)
          (send_with_response-Follows M J.version_from_str (txt "/version") (txt "GET") none)
          (λ repr. same M))
        s
  asked-Follows gets_statistics s =
      unfold api_get_balloon_statistics in
      bind M (ensure_state H J running)
        (λ a.
          send_api_request_with_response H J J.statistics_from_str (txt "/balloon/statistics")
            (txt "GET") none)
        (ensure_state-Follows M running)
        (λ a.
          send_with_response-Follows M J.statistics_from_str (txt "/balloon/statistics") (txt "GET")
            none)
        s
