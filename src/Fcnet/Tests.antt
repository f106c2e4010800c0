-- ===== src/Fcnet/Tests.antt =====
-- The theorem on src/ext/fcnet.rs in the simulated host, with addresses that are their own text.
use fctools.Base.{◌≡◌, refl, ◌++◌, ◌∷◌}
use fctools.Text.{Text, txt}
use fctools.Host.{Host}
use fctools.ShellSpawner.{same_user, default_same_user}
use fctools.Fcnet.{
  Addresses, FcnetConfiguration, netns, new_options, netns_name, veth1_ip, iface_name, tap_ip,
  arguments, push_option, get_guest_ip_boot_arg,
}
use fctools.Fcnet.Words.{HasNoEmptyValue, spaced, words}
use fctools.Fcnet.Laws.{Ran, flag, checks, run, run-Ran}
use fctools.Simulation.{simulation, idle}

abbrev S : Host
S = simulation

abbrev texts : Addresses
texts = record {
  IpInet = Text;
  IpAddr = Text;
  address = λ inet. inet;
  mask = λ inet. txt "255.255.255.252";
  inet_to_string = λ inet. inet ++ txt "/30";
  addr_to_string = λ addr. addr;
}

abbrev configured : FcnetConfiguration texts
configured =
    let options = netns_name texts (new_options texts) (txt "fc") in
    let options = veth1_ip texts options (txt "10.0.0.1") in
    tap_ip texts (iface_name texts (netns texts options) (txt "eth0")) (txt "172.16.0.1")

configured-HasNoEmptyValue : HasNoEmptyValue texts configured
unfolding netns_name new_options veth1_ip tap_ip iface_name netns
configured-HasNoEmptyValue = ((λ e. cc, (λ e. cc, tt)), (λ e. cc, (λ e. cc, tt)))

line :
    arguments texts (txt "--add") configured
    ≡ txt "--add --iface eth0 --tap-ip 172.16.0.1/30 netns --netns fc --veth1-ip 10.0.0.1/30"
unfolding arguments netns_name new_options veth1_ip tap_ip iface_name netns push_option
line = refl

boot_arg :
    get_guest_ip_boot_arg texts configured (txt "172.16.0.2") (txt "eth0")
    ≡ txt "ip=172.16.0.2::172.16.0.1:255.255.255.252::eth0:off"
unfolding get_guest_ip_boot_arg netns_name new_options veth1_ip tap_ip iface_name netns
boot_arg = refl

run-Ran_example :
    Ran texts S
      (same_user S default_same_user)
      (txt "/bin/fcnet" ++ spaced (flag checks ∷ words texts configured))
      configured.pipes_to_null
      idle
      (run texts S checks configured (txt "/bin/fcnet") (same_user S default_same_user) idle)
run-Ran_example =
    run-Ran texts S checks configured configured-HasNoEmptyValue (txt "/bin/fcnet")
      (same_user S default_same_user) idle
