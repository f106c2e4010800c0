-- ===== src/Vm/Start/Laws.antt =====
-- What `Vm::start` of src/vm/mod.rs does to the configuration of the virtual machine.
use fctools.Base.{◌≡◌, refl, sym, ap, ◌∙◌, ℕ, Done, Bool, Option, none, some, ok, panic}
use fctools.Base.Action.{◌>>=◌, resume, bind-eq}
use fctools.Base.Moving.{bind_from}
use fctools.Host.{Host}
use fctools.Vm.Configuration.{VmConfiguration}
use fctools.Vm.Machine.{Json, not_started, ensure_state, state}
use fctools.Vm.Motion.{Motion, VmWorld, ensure_state-Follows}
use fctools.Vm.Start.{take_from, take_configuration, start}
use fctools.Vm.Start.Keeping.{after_take, after_take-Follows}

module _ (H : Host) (J : Json) where
  -- The motion that keeps the configuration.
  keeping : Motion H J
  unfolding state
  keeping = record {
    Rel = λ s t. t.0.configuration ≡ s.0.configuration;
    passes = λ v w w'. refl;
    chain = λ s t u h k. k ∙ h;
    sees = λ s. refl;
    asks = λ route request s. refl;
  }

  module _ (checks : ℕ) (late : Bool) where
    take_from-none :
        (o : Option VmConfiguration) (s : VmWorld H)
        → s.0.configuration ≡ o
        → (take_from H J o s).1.0.configuration ≡ none
    take_from-none none s h = h
    take_from-none (some c) s h = refl

    -- What follows keeps the configuration, which has been taken or was not there.
    rest_none :
        (t : VmWorld H)
        → ((take_configuration H J >>= after_take H J checks late) t).1.0.configuration ≡ none
    unfolding take_configuration keeping
    rest_none t =
        let taken = take_from-none t.0.configuration t refl in
        bind_from (λ s u. u.0.configuration ≡ none) (λ s u v h k. k) (take_configuration H J)
          (after_take H J checks late) t taken
          (λ c u e.
            after_take-Follows keeping checks late (λ o s. refl) c u
            ∙ sym (ap (λ r. r.1.0.configuration) e)
            ∙ taken)

    start-none :
        (s t : VmWorld H) {a : Done}
        → ensure_state H J not_started s ≡ (ok a, t)
        → (start H J checks late s).1.0.configuration ≡ none
    unfolding start take_configuration keeping
    start-none s t h =
        ap (λ r. r.1.0.configuration) (bind-eq (ensure_state H J not_started) _ s h) ∙ rest_none t

    -- When a virtual machine is still not started after a start that found it not started, a second
    -- start panics: the first one has taken the configuration, however it ended.
    pub start-start :
        (s t u : VmWorld H)
        → ensure_state H J not_started s ≡ (ok tt, t)
        → ensure_state H J not_started (start H J checks late s).1 ≡ (ok tt, u)
        → (start H J checks late (start H J checks late s).1).0 ≡ panic
    unfolding start take_configuration keeping
    start-start s t u h k =
        let first = (start H J checks late s).1 in
        let gone : u.0.configuration ≡ none =
          sym (ap (λ r. r.1.0.configuration) k)
          ∙ ensure_state-Follows keeping not_started first
          ∙ start-none s t h in
        ap (λ r. r.0) (bind-eq (ensure_state H J not_started) _ first k)
        ∙ ap (λ o. (resume (take_from H J o u) (after_take H J checks late)).0) gone
