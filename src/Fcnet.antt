-- ===== src/Fcnet.antt =====
-- src/ext/fcnet.rs: the command line of fcnet. The addresses of the crate `cidr` and how they and those of
-- `std::net` are printed are the parameter `Addresses`.
pub mod Words
pub mod Laws
mod Tests
use fctools.Base.{
  Done, Bool, true, false, not, Option, none, some, List, [], ◌∷◌, ◌++◌, Outcome, if◌then◌else◌,
}
use fctools.Base.Action.{Action, pure, ◌>>=◌, ◌>>◌, with_err, fail_if}
use fctools.Text.{Text, txt, is_empty}
use fctools.FilePath.{FilePath}
use fctools.Host.{Host, Output}
use fctools.Host.Calls.{call}
use fctools.ShellSpawner.{ShellSpawner}

pub record Addresses : Type 1 where
  pub IpInet : Type 0
  pub IpAddr : Type 0
  pub address : IpInet → IpAddr
  pub mask : IpInet → IpAddr
  pub inet_to_string : IpInet → Text
  pub addr_to_string : IpAddr → Text

pub data FcnetError (H : Host) : Type 0 where
  shell_spawn_failed process_fork_failed : H.IoError → FcnetError H
  fcnet_returned_error : Output H.ExitStatus → FcnetError H

module _ (I : Addresses) where
  pub record FcnetNetnsOptions : Type 0 where
    pub netns_name : Option Text
    pub veth1_name : Option Text
    pub veth2_name : Option Text
    pub veth1_ip : Option I.IpInet
    pub veth2_ip : Option I.IpInet
    pub guest_ip : Option I.IpAddr
    pub forwarded_guest_ip : Option I.IpAddr

  pub data FcnetConfigurationType : Type 0 where
    simple_type : FcnetConfigurationType
    netns_type : FcnetNetnsOptions → FcnetConfigurationType

  pub record FcnetConfiguration : Type 0 where
    pub iptables_path : Option FilePath
    pub iface_name : Option Text
    pub tap_name : Option Text
    pub tap_ip : Option I.IpInet
    pub configuration_type : FcnetConfigurationType
    pub pipes_to_null : Bool

  abbrev pub of_type : FcnetConfigurationType → FcnetConfiguration
  of_type configuration_type = record {
    iptables_path = none;
    iface_name = none;
    tap_name = none;
    tap_ip = none;
    configuration_type = configuration_type;
    pipes_to_null = false;
  }

  unfoldable pub simple : FcnetConfiguration
  simple = of_type simple_type

  unfoldable pub netns : FcnetNetnsOptions → FcnetConfiguration
  netns netns_options = of_type (netns_type netns_options)

  unfoldable pub new_options : FcnetNetnsOptions
  new_options = record {
    netns_name = none;
    veth1_name = none;
    veth2_name = none;
    veth1_ip = none;
    veth2_ip = none;
    guest_ip = none;
    forwarded_guest_ip = none;
  }

  module _ (c : FcnetConfiguration) where
    unfoldable pub iptables_path : FilePath → FcnetConfiguration
    iptables_path x = record c { iptables_path = some x }

    unfoldable pub iface_name : Text → FcnetConfiguration
    iface_name x = record c { iface_name = some x }

    unfoldable pub tap_name : Text → FcnetConfiguration
    tap_name x = record c { tap_name = some x }

    unfoldable pub tap_ip : I.IpInet → FcnetConfiguration
    tap_ip x = record c { tap_ip = some x }

    unfoldable pub pipes_to_null : FcnetConfiguration
    pipes_to_null = record c { pipes_to_null = true }

  module _ (o : FcnetNetnsOptions) where
    unfoldable pub netns_name : Text → FcnetNetnsOptions
    netns_name x = record o { netns_name = some x }

    unfoldable pub veth1_name : Text → FcnetNetnsOptions
    veth1_name x = record o { veth1_name = some x }

    unfoldable pub veth2_name : Text → FcnetNetnsOptions
    veth2_name x = record o { veth2_name = some x }

    unfoldable pub veth1_ip : I.IpInet → FcnetNetnsOptions
    veth1_ip x = record o { veth1_ip = some x }

    unfoldable pub veth2_ip : I.IpInet → FcnetNetnsOptions
    veth2_ip x = record o { veth2_ip = some x }

    unfoldable pub guest_ip : I.IpAddr → FcnetNetnsOptions
    guest_ip x = record o { guest_ip = some x }

    unfoldable pub forwarded_guest_ip : I.IpAddr → FcnetNetnsOptions
    forwarded_guest_ip x = record o { forwarded_guest_ip = some x }

  abbrev tap_ip_or_default : Option I.IpInet → Text
  tap_ip_or_default (some tap_ip) = I.addr_to_string (I.address tap_ip)
  tap_ip_or_default none = txt "172.16.0.1"

  unfoldable pub get_tap_ip_str : FcnetConfiguration → Text
  get_tap_ip_str c = tap_ip_or_default c.tap_ip

  unfoldable pub get_guest_routing_command : FcnetConfiguration → Text
  unfolding get_tap_ip_str
  get_guest_routing_command c = txt "ip route add default via " ++ get_tap_ip_str c

  unfoldable pub get_guest_ip_boot_arg : FcnetConfiguration → I.IpInet → Text → Text
  unfolding get_tap_ip_str
  get_guest_ip_boot_arg c guest_ip guest_iface_name =
      txt "ip="
      ++ (I.addr_to_string (I.address guest_ip)
          ++ (txt "::"
              ++ (get_tap_ip_str c
                  ++ (txt ":"
                      ++ (I.addr_to_string (I.mask guest_ip)
                          ++ (txt "::" ++ (guest_iface_name ++ txt ":off")))))))

-- The closure `push_arg` of `exec`, on the arguments so far.
unfoldable pub push_arg : Text → Text → Text → Text
push_arg name value arguments =
    if is_empty value
    then (arguments ++ txt " ") ++ name
    else arguments ++ (txt " --" ++ (name ++ (txt " " ++ value)))

-- `if let Some(value) { push_arg(name, value) }`
unfoldable pub push_option : Text → Option Text → Text → Text
unfolding push_arg
push_option name none arguments = arguments
push_option name (some value) arguments = push_arg name value arguments

abbrev pub shown : {A : Type 0} → (A → Text) → Option A → Option Text
shown print none = none
shown print (some a) = some (print a)

module _ (I : Addresses) where
  abbrev pub push_netns_options : FcnetNetnsOptions I → Text → Text
  push_netns_options o arguments =
      let a = push_option (txt "netns") o.netns_name arguments in
      let a = push_option (txt "veth1") o.veth1_name a in
      let a = push_option (txt "veth2") o.veth2_name a in
      let a = push_option (txt "veth1-ip") (shown I.inet_to_string o.veth1_ip) a in
      let a = push_option (txt "veth2-ip") (shown I.inet_to_string o.veth2_ip) a in
      let a = push_option (txt "guest-ip") (shown I.addr_to_string o.guest_ip) a in
      push_option (txt "forwarded-guest-ip") (shown I.addr_to_string o.forwarded_guest_ip) a

  abbrev pub push_type : FcnetConfigurationType I → Text → Text
  push_type simple_type arguments = push_arg (txt "simple") [] arguments
  push_type (netns_type netns_options) arguments =
      push_netns_options netns_options (push_arg (txt "netns") [] arguments)

  -- The arguments that `exec` puts together, the operation first.
  unfoldable pub arguments : Text → FcnetConfiguration I → Text
  unfolding push_arg push_option
  arguments operation c =
      let a = push_option (txt "iptables-path") c.iptables_path operation in
      let a = push_option (txt "iface") c.iface_name a in
      let a = push_option (txt "tap") c.tap_name a in
      let a = push_option (txt "tap-ip") (shown I.inet_to_string c.tap_ip) a in
      push_type c.configuration_type a

  module _ (H : Host) (c : FcnetConfiguration I) where
    abbrev pub FcnetAction : Type 0 → Type 0
    FcnetAction A = Action H.World (FcnetError H) A

    unfoldable pub exec : Text → FilePath → ShellSpawner H → FcnetAction Done
    unfolding arguments
    exec operation fcnet_path shell_spawner = do
      child ←
          with_err shell_spawn_failed
            (shell_spawner.spawn (fcnet_path ++ (txt " " ++ arguments operation c)) c.pipes_to_null)
      process_output ← call process_fork_failed (H.wait_with_output child)
      fail_if (not (H.success process_output.status)) (fcnet_returned_error process_output)

    unfoldable pub add : FilePath → ShellSpawner H → FcnetAction Done
    unfolding exec
    add = exec (txt "--add")

    unfoldable pub check : FilePath → ShellSpawner H → FcnetAction Done
    unfolding exec
    check = exec (txt "--check")

    unfoldable pub delete : FilePath → ShellSpawner H → FcnetAction Done
    unfolding exec
    delete = exec (txt "--del")
