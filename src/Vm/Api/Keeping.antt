-- ===== src/Vm/Api/Keeping.antt =====
-- What the requests of src/vm/api.rs leave as it is in a virtual machine.
use fctools.Base.{◌≡◌, refl, ◌∙◌}
use fctools.Host.{Host}
use fctools.Process.Fixed.{Fixed, Fixed-chain, state-Fixed, send_api_request-Fixed}
use fctools.Vm.Machine.{Json, state}
use fctools.Vm.Motion.{Motion, VmWorld}

module _ (H : Host) (J : Json) where
  -- The process belongs to the same executor and installation, and nothing that a cleanup or a
  -- snapshot needs has changed.
  abbrev pub Remains : VmWorld H → VmWorld H → Type 0
  Remains s t =
      Fixed H (s.0.vmm_process, s.1) (t.0.vmm_process, t.1)
      × (t.0.original_configuration_data ≡ s.0.original_configuration_data)
      × (t.0.executor_traceless ≡ s.0.executor_traceless)
      × (t.0.snapshot_traces ≡ s.0.snapshot_traces)

  unfoldable pub remaining : Motion H J
  unfolding state
  remaining = record {
    Rel = Remains;
    passes = λ v w w'. ((refl, refl, refl), refl, refl, refl);
    chain = λ s t u (p, a, b, c) (p', a', b', c'). (
      Fixed-chain H (s.0.vmm_process, s.1) (t.0.vmm_process, t.1) (u.0.vmm_process, u.1) p p',
      a' ∙ a,
      b' ∙ b,
      c' ∙ c,
    );
    sees = λ s. (state-Fixed H (s.0.vmm_process, s.1), refl, refl, refl);
    asks = λ route request s.
        (send_api_request-Fixed H route request (s.0.vmm_process, s.1), refl, refl, refl);
  }
