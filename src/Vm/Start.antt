-- ===== src/Vm/Start.antt =====
-- `Vm::start` of src/vm/mod.rs. How often the socket is looked for before the timer is up, and whether
-- it is up in the sleep that follows, are parameters.
pub mod Keeping
pub mod Laws
mod Tests
use fctools.Base.{
  if◌then◌else◌, ℕ, zero, suc, Done, Bool, true, false, Option, none, some, Outcome, ok, err, panic,
  map_err, ok_or,
}
use fctools.Base.Action.{Action, pure, raise, of_outcome, fail_if, ◌>>=◌, ◌>>◌}
use fctools.FilePath.{FilePath}
use fctools.Host.{Host}
use fctools.Host.Calls.{Call, answer, call}
use fctools.Arguments.{ConfigurationFileOverride, no_override, enable}
use fctools.Process
use fctools.Process.{inner_to_outer_path}
use fctools.Vm.Configuration.{
  InitMethod, via_api_calls, via_json_configuration, VmConfiguration, new_vm,
  restored_from_snapshot, VmConfigurationData,
}
use fctools.Vm.Machine.{
  Json, Vm, VmError, not_started, serde_error, io_error, timeout,
  disabled_api_socket_is_unsupported, configuration_body, VmAction, on_process, ensure_state,
}
use fctools.Vm.Prepare.{PrepareAction, prepare_file}
use fctools.Vm.Api.{init_new, init_restored_from_snapshot}

module _ (H : Host) (J : Json) where
  -- What changes the world and not the virtual machine.
  abbrev pub in_place : {A : Type 0} → PrepareAction H J A → VmAction H J A
  in_place m (v, w) = let (r, w') = m w in (r, (v, w'))

  abbrev pub on_host : {A : Type 0} → Call H.World H.IoError A → VmAction H J A
  on_host c = in_place (call io_error c)

  -- `.take().expect(...)`
  abbrev pub take_from : Option VmConfiguration → VmAction H J VmConfiguration
  take_from none (v, w) = (panic, (v, w))
  take_from (some c) (v, w) = (ok c, (record v { configuration = none }, w))

  unfoldable pub take_configuration : VmAction H J VmConfiguration
  take_configuration s = take_from s.0.configuration s

  abbrev pub socket_path : VmAction H J FilePath
  socket_path s =
      (ok_or (Process.get_socket_path H s.0.vmm_process) disabled_api_socket_is_unsupported, s)

  abbrev pub write_at : FilePath → VmConfigurationData → VmAction H J Done
  write_at inner_path d s =
      (of_outcome (map_err serde_error (answer (J.to_string (configuration_body d)))) >>= λ json.
      on_host (H.write (inner_to_outer_path H s.0.vmm_process inner_path) json))
        s

  unfoldable pub write_configuration : VmConfiguration → VmAction H J ConfigurationFileOverride
  unfolding prepare_file inner_to_outer_path
  write_configuration (new_vm (via_json_configuration inner_path) d) = do
    in_place (prepare_file H J inner_path true)
    write_at inner_path d
    pure (enable inner_path)
  write_configuration (new_vm via_api_calls d) = pure no_override
  write_configuration (restored_from_snapshot load_snapshot d) = pure no_override

  -- The loop that waits for the socket.
  unfoldable pub wait_for_socket : ℕ → Bool → FilePath → VmAction H J Done
  wait_for_socket zero late path = raise timeout
  wait_for_socket (suc checks) late path =
      let rest = wait_for_socket checks late path in
      on_host (H.try_exists path) >>= λ exists. if exists then fail_if late timeout else rest

  unfoldable pub initialize : VmConfiguration → VmAction H J Done
  unfolding init_new init_restored_from_snapshot
  initialize (new_vm via_api_calls d) = init_new H J d
  initialize (new_vm (via_json_configuration inner_path) d) = pure tt
  initialize (restored_from_snapshot load_snapshot d) =
      init_restored_from_snapshot H J d load_snapshot

  unfoldable pub start : ℕ → Bool → VmAction H J Done
  unfolding ensure_state take_configuration write_configuration wait_for_socket initialize
  start checks late = do
    ensure_state H J not_started
    configuration ← take_configuration
    path ← socket_path
    config_override ← write_configuration configuration
    on_process H J (Process.invoke H config_override)
    wait_for_socket checks late path
    initialize configuration
