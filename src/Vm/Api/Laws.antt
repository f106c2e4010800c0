-- ===== src/Vm/Api/Laws.antt =====
-- The initialisation of src/vm/api.rs as one list of requests.
use fctools.Base.{
  ◌≡◌, refl, sym, ◌∙◌, Done, List, [], ◌∷◌, ◌++◌, Option, none, some, Outcome, ok, err, panic,
}
use fctools.Base.Action.{pure, ◌>>◌, resume, then_assoc, then_cong}
use fctools.Text.{Text, txt}
use fctools.Host.{Host}
use fctools.Models.{Drive, NetworkInterface}
use fctools.Vm.Configuration.{VmConfigurationData}
use fctools.Vm.Machine.{
  Body, boot_source_body, drive_body, machine_body, cpu_body, network_body, balloon_body,
  vsock_body, logger_body, metrics_body, mmds_body, entropy_body, action_body, instance_start, Json,
  Vm, VmAction,
}
use fctools.Vm.Api.{send_api_request, put_drives, put_network_interfaces, put_optional, init_new}

-- A PUT request: its route and its body.
abbrev pub Put : Type 0 → Type 0
Put Serializable = Text × Body Serializable

abbrev pub one_if : {A S : Type 0} → Text → (A → Body S) → Option A → List (Put S)
one_if route body none = []
one_if route body (some device) = (route, body device) ∷ []

abbrev pub drive_puts : {S : Type 0} → List Drive → List (Put S)
drive_puts [] = []
drive_puts (drive ∷ drives) =
    (txt "/drives/" ++ drive.drive_id, drive_body drive) ∷ drive_puts drives

abbrev pub network_puts : {S : Type 0} → List NetworkInterface → List (Put S)
network_puts [] = []
network_puts (i ∷ is) = (txt "/network-interfaces/" ++ i.iface_id, network_body i) ∷ network_puts is

-- What a new virtual machine is told: its kernel first, each device once, and the start last.
abbrev pub puts_of : {S : Type 0} → VmConfigurationData → List (Put S)
puts_of d =
    ((txt "/boot-source", boot_source_body d.boot_source) ∷ [])
    ++ (drive_puts d.drives
        ++ (((txt "/machine-config", machine_body d.machine_configuration) ∷ [])
            ++ (one_if (txt "/cpu-config") cpu_body d.cpu_template
                ++ (network_puts d.network_interfaces
                    ++ (one_if (txt "/balloon") balloon_body d.balloon_device
                        ++ (one_if (txt "/vsock") vsock_body d.vsock_device
                            ++ (one_if (txt "/logger") logger_body d.logger_system
                                ++ (one_if (txt "/metrics") metrics_body d.metrics_system
                                    ++ (one_if (txt "/mmds/config") mmds_body d.mmds_configuration
                                        ++ (one_if (txt "/entropy") entropy_body d.entropy_device
                                            ++ ((txt "/actions", action_body instance_start)
                                                ∷ [])))))))))))

resume-pure : {S E : Type 0} (r : Outcome E Done × S) → resume r (λ a. pure {E = E} tt) ≡ r
resume-pure (ok a, s) = refl
resume-pure (err e, s) = refl
resume-pure (panic, s) = refl

module _ (H : Host) (J : Json) where
  -- The requests one after the other, up to the first that fails.
  abbrev pub put_all : List (Put J.Serializable) → VmAction H J Done
  put_all [] = pure tt
  put_all ((route, body) ∷ puts) =
      send_api_request H J route (txt "PUT") (some body) >> put_all puts

  -- Both do the same from every state.
  abbrev Agrees : VmAction H J Done → List (Put J.Serializable) → Type 0
  Agrees m puts = (s : Vm H × H.World) → m s ≡ put_all puts s

  put_step :
      (route : Text) (body : Body J.Serializable) (k : VmAction H J Done)
      (rest : List (Put J.Serializable))
      → Agrees k rest
      → Agrees (send_api_request H J route (txt "PUT") (some body) >> k) ((route, body) ∷ rest)
  put_step route body k rest h =
      then_cong (send_api_request H J route (txt "PUT") (some body)) k (put_all rest) h

  last_step :
      (route : Text) (body : Body J.Serializable)
      → Agrees (send_api_request H J route (txt "PUT") (some body)) ((route, body) ∷ [])
  last_step route body s = sym (resume-pure (send_api_request H J route (txt "PUT") (some body) s))

  optional_step :
      {A : Type 0} (route : Text) (body : A → Body J.Serializable) (o : Option A)
      (k : VmAction H J Done) (rest : List (Put J.Serializable))
      → Agrees k rest
      → Agrees (put_optional H J route body o >> k) (one_if route body o ++ rest)
  optional_step route body none k rest h = h
  optional_step route body (some device) k rest h = put_step route (body device) k rest h

  drives_step :
      (drives : List Drive) (k : VmAction H J Done) (rest : List (Put J.Serializable))
      → Agrees k rest
      → Agrees (put_drives H J drives >> k) (drive_puts drives ++ rest)
  unfolding put_drives
  drives_step [] k rest h s = h s
  drives_step (drive ∷ drives) k rest h s =
      let first =
        send_api_request H J (txt "/drives/" ++ drive.drive_id) (txt "PUT")
          (some (drive_body drive)) in
      then_assoc first (put_drives H J drives) k s
      ∙ then_cong first (put_drives H J drives >> k) (put_all (drive_puts drives ++ rest))
          (drives_step drives k rest h) s

  networks_step :
      (interfaces : List NetworkInterface) (k : VmAction H J Done)
      (rest : List (Put J.Serializable))
      → Agrees k rest
      → Agrees (put_network_interfaces H J interfaces >> k) (network_puts interfaces ++ rest)
  unfolding put_network_interfaces
  networks_step [] k rest h s = h s
  networks_step (i ∷ is) k rest h s =
      let first =
        send_api_request H J (txt "/network-interfaces/" ++ i.iface_id) (txt "PUT")
          (some (network_body i)) in
      then_assoc first (put_network_interfaces H J is) k s
      ∙ then_cong first (put_network_interfaces H J is >> k) (put_all (network_puts is ++ rest))
          (networks_step is k rest h) s

  -- The initialisation of a new virtual machine sends exactly these requests and stops at the first
  -- that fails: the boot source, each drive, the machine configuration, the CPU template, each network
  -- interface, the balloon, the vsock, the logger, the metrics, the MMDS and the entropy device where
  -- they are configured, in this order, and the start of the instance last.
  pub init_new-put_all :
      (d : VmConfigurationData) (s : Vm H × H.World) → init_new H J d s ≡ put_all (puts_of d) s
  unfolding init_new
  init_new-put_all d = put_step _ _ _ _ (
      drives_step d.drives _ _ (
        put_step _ _ _ _ (
          optional_step _ _ d.cpu_template _ _ (
            networks_step d.network_interfaces _ _ (
              optional_step _ _ d.balloon_device _ _ (
                optional_step _ _ d.vsock_device _ _ (
                  optional_step _ _ d.logger_system _ _ (
                    optional_step _ _ d.metrics_system _ _ (
                      optional_step _ _ d.mmds_configuration _ _ (
                        optional_step _ _ d.entropy_device _ _
                          (last_step (txt "/actions") (action_body instance_start))))))))))))
