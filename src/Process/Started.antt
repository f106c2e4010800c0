-- ===== src/Process/Started.antt =====
-- What `invoke` of src/process.rs does to the state.
use fctools.Base.{
  ◌≡◌, refl, sym, ap, ◌∙◌, ◌⊎◌, inl, inr, arith, Outcome, ok, err, panic, Done, some,
}
use fctools.Base.Action.{◌>>=◌, resume}
use fctools.Host.{Host, Child}
use fctools.Arguments.{ConfigurationFileOverride}
use fctools.Process.{
  ProcessState, ProcessAction, VmmProcessError, awaiting_start, started, ensure_state, update_state,
  executor_call, update_process, invoke,
}
use fctools.Process.Invariant.{stage}
use fctools.Process.Operations.{state_eq_start}
use fctools.Process.Answers.{ensure_state_inv}
use fctools.Process.Drift.{Drifts, ensure_state-DriftsBy, stays, chained}

module _ (H : Host) where
  -- A process that awaited its start has been started, or nothing but a drift has happened.
  abbrev pub Starts : ProcessState H → ProcessState H → Type 0
  Starts s t = Drifts H s t ⊎ ((s.0.state ≡ awaiting_start) × (t.0.state ≡ started))

  -- `invoke` after the look at the state.
  abbrev launched : ConfigurationFileOverride → ProcessAction H Done
  launched c =
      executor_call H (λ p. p.executor.invoke p.installation p.shell_spawner c) >>= λ child.
      update_process H (λ p. record p { child = some child; state = started })

  invoked :
      (r : Outcome (VmmProcessError H) (Child H.Handle H.Pipe) × ProcessState H)
      (s : ProcessState H)
      → r.1.0 ≡ s.0
      → let t =
          (resume r (λ child.
            update_process H (λ p. record p { child = some child; state = started }))).1 in
        Drifts H s t ⊎ (t.0.state ≡ started)
  invoked (ok child, t) s e = inr refl
  invoked (err x, t) s e = inl (rw e (stays H s))
  invoked (panic, t) s e = inl (rw e (stays H s))

  from_start :
      (s t : ProcessState H)
      → Drifts H s t
      → t.0.state ≡ awaiting_start
      → s.0.state ≡ awaiting_start
  from_start s t (inl same, back) e = sym same ∙ e
  from_start s t (inr (child, ended), back) e = let wrong = ap (stage H) e in absurd (omega arith)

  checked :
      (c : ConfigurationFileOverride) (r : Outcome (VmmProcessError H) Done × ProcessState H)
      (s : ProcessState H)
      → ensure_state H awaiting_start s ≡ r
      → Drifts H s r.1
      → Starts s (resume r (λ a. launched c)).1
  checked c (ok a, t) s e d =
      let (seen, is) = ensure_state_inv H awaiting_start s e in
      let at_start : t.0.state ≡ awaiting_start =
        ap (λ u. u.0.state) seen ∙ state_eq_start H (update_state H s).0.state is in
      elim (invoked (executor_call H (λ p. p.executor.invoke p.installation p.shell_spawner c) t) t
        refl) [
          | inl d' ↦ inl (chained H s t (launched c t).1 d d')
          | inr done ↦ inr (from_start s t d at_start, done)
        ]
  checked c (err x, t) s e d = inl d
  checked c (panic, t) s e d = inl d

  pub invoke-Starts :
      (c : ConfigurationFileOverride) (s : ProcessState H) → Starts s (invoke H c s).1
  unfolding invoke
  invoke-Starts c s =
      checked c (ensure_state H awaiting_start s) s refl (ensure_state-DriftsBy H awaiting_start s)
