-- ===== src/Vm/Start/Keeping.antt =====
-- The parts of `Vm::start` of src/vm/mod.rs follow every motion that the requests follow.
use fctools.Base.{if◌then◌else◌, ℕ, zero, suc, Done, Bool, true, false, map_err}
use fctools.Base.Action.{pure, ◌>>=◌, fail_if, of_outcome}
use fctools.Base.Moving.{fail_if-Moves}
use fctools.FilePath.{FilePath}
use fctools.Host.{Host}
use fctools.Host.Calls.{Call, answer}
use fctools.Arguments.{ConfigurationFileOverride, enable}
use fctools.Process
use fctools.Process.{inner_to_outer_path}
use fctools.Vm.Configuration.{
  VmConfiguration, VmConfigurationData, new_vm, restored_from_snapshot, via_api_calls,
  via_json_configuration,
}
use fctools.Vm.Machine.{Json, VmAction, on_process, serde_error, timeout, configuration_body}
use fctools.Vm.Motion.{Motion, Follows, same, bind, init_new-Follows, init_restored-Follows}
use fctools.Vm.Prepare.{PrepareAction, prepare_file}
use fctools.Vm.Start.{
  on_host, in_place, socket_path, write_at, write_configuration, wait_for_socket, initialize,
}

-- The rest of `start`, once the configuration is taken.
abbrev pub after_take : (H : Host) (J : Json) → ℕ → Bool → VmConfiguration → VmAction H J Done
after_take H J checks late c = socket_path H J >>= λ path.
    write_configuration H J c >>= λ config_override.
    on_process H J (Process.invoke H config_override) >>= λ a.
    wait_for_socket H J checks late path >>= λ b. initialize H J c

module _ {H : Host} {J : Json} (M : Motion H J) where
  place-Follows : {A : Type 0} (m : PrepareAction H J A) → Follows M (in_place H J m)
  place-Follows m (v, w) = M.passes v w _

  host-Follows : {A : Type 0} (c : Call H.World H.IoError A) → Follows M (on_host H J c)
  host-Follows c (v, w) = M.passes v w _

  initialize-Follows : (configuration : VmConfiguration) → Follows M (initialize H J configuration)
  unfolding initialize
  initialize-Follows (new_vm via_api_calls d) s = init_new-Follows M d s
  initialize-Follows (new_vm (via_json_configuration inner_path) d) s = same M s
  initialize-Follows (restored_from_snapshot load_snapshot d) s =
      init_restored-Follows M d load_snapshot s

  choice-Follows :
      {A : Type 0} (b : Bool) (m n : VmAction H J A)
      → Follows M m
      → Follows M n
      → Follows M (if b then m else n)
  choice-Follows true m n h k = h
  choice-Follows false m n h k = k

  wait-Follows :
      (checks : ℕ) (late : Bool) (path : FilePath)
      → Follows M (wait_for_socket H J checks late path)
  unfolding wait_for_socket
  wait-Follows zero late path s = same M s
  wait-Follows (suc checks) late path s =
      let rest = wait_for_socket H J checks late path in
      bind M (on_host H J (H.try_exists path))
        (λ exists. if exists then fail_if late timeout else rest) (host-Follows (H.try_exists path))
        (λ exists.
          choice-Follows exists (fail_if late timeout) rest
            (fail_if-Moves M.Rel (same M) late timeout) (wait-Follows checks late path))
        s

  write_at-Follows :
      (inner_path : FilePath) (d : VmConfigurationData) → Follows M (write_at H J inner_path d)
  write_at-Follows inner_path d s =
      bind M (of_outcome (map_err serde_error (answer (J.to_string (configuration_body d)))))
        (λ json. on_host H J (H.write (inner_to_outer_path H s.0.vmm_process inner_path) json))
        (same M)
        (λ json. host-Follows (H.write (inner_to_outer_path H s.0.vmm_process inner_path) json)) s

  write-Follows :
      (configuration : VmConfiguration) → Follows M (write_configuration H J configuration)
  unfolding write_configuration
  write-Follows (new_vm (via_json_configuration inner_path) d) s =
      bind M (in_place H J (prepare_file H J inner_path true))
        (λ a. write_at H J inner_path d >>= λ b. pure (enable inner_path))
        (place-Follows (prepare_file H J inner_path true))
        (λ a.
          bind M (write_at H J inner_path d) (λ b. pure (enable inner_path))
            (write_at-Follows inner_path d) (λ b. same M))
        s
  write-Follows (new_vm via_api_calls d) s = same M s
  write-Follows (restored_from_snapshot load_snapshot d) s = same M s

  -- `start` after the look at the state and the configuration, for a motion that allows `invoke`.
  pub after_take-Follows :
      (checks : ℕ) (late : Bool)
      → ((c : ConfigurationFileOverride) → Follows M (on_process H J (Process.invoke H c)))
      → (c : VmConfiguration) → Follows M (after_take H J checks late c)
  after_take-Follows checks late invoked c =
      let wait : FilePath → Done → VmAction H J Done =
        λ path a. wait_for_socket H J checks late path >>= λ b. initialize H J c in
      let run : FilePath → ConfigurationFileOverride → VmAction H J Done =
        λ path config_override. on_process H J (Process.invoke H config_override) >>= wait path in
      bind M (socket_path H J) (λ path. write_configuration H J c >>= run path) (same M)
        (λ path. bind M (write_configuration H J c) (run path) (write-Follows c) (λ config_override.
          bind M (on_process H J (Process.invoke H config_override)) (wait path)
            (invoked config_override)
            (λ a.
              bind M (wait_for_socket H J checks late path) (λ b. initialize H J c)
                (wait-Follows checks late path) (λ b. initialize-Follows c))))
