-- ===== src/Process/Refusals.antt =====
-- Which calls of src/process.rs are refused in which states, and what a refused call leaves.
use fctools.Base.{◌≡◌, refl, ap, ◌∙◌, Bool, true, false, none, err, inl, inr, ◌⊎◌, Done}
use fctools.Base.Action.{of_outcome, ◌>>=◌, bind-err, bind-eq}
use fctools.Text.{txt}
use fctools.Host.{Host, Request}
use fctools.Host.Calls.{answer}
use fctools.Process.{
  ProcessState, ProcessAction, outside, VmmProcessState, awaiting_prepare, awaiting_start, started,
  exited, crashed, state, update_state, state_eq, expected_state, expected_exited_or_crashed,
  check_exited_or_crashed, ensure_exited_or_crashed, ensure_state, prepare, invoke, take_pipes,
  send_sigkill, wait_for_exit, cleanup, ctrl_alt_del_request_not_built,
}
use fctools.Process.Socket.{send_api_request, send_ctrl_alt_del}
use fctools.Process.Steps.{
  Operation, prepares, takes_pipes, sends_ctrl_alt_del, sends_sigkill, waits_for_exit, reads_state,
  cleans_up, invokes, sends_api_request, after,
}

module _ (H : Host) where
  abbrev is_awaiting_prepare : VmmProcessState H → Bool
  is_awaiting_prepare awaiting_prepare = true
  is_awaiting_prepare _ = false

  abbrev is_awaiting_start : VmmProcessState H → Bool
  is_awaiting_start awaiting_start = true
  is_awaiting_start _ = false

  abbrev is_started : VmmProcessState H → Bool
  is_started started = true
  is_started _ = false

  abbrev has_ended : VmmProcessState H → Bool
  has_ended exited = true
  has_ended (crashed exit_status) = true
  has_ended _ = false

  -- In which states a call may be made: each in one phase of the process, and the look in all.
  unfoldable pub permits : Operation → VmmProcessState H → Bool
  permits prepares st = is_awaiting_prepare st
  permits (invokes config_override) st = is_awaiting_start st
  permits (sends_api_request route request) st = is_started st
  permits takes_pipes st = is_started st
  permits sends_ctrl_alt_del st = is_started st
  permits sends_sigkill st = is_started st
  permits waits_for_exit st = is_started st
  permits cleans_up st = has_ended st
  permits reads_state st = true

  state_eq-awaiting_prepare :
      (st : VmmProcessState H) → state_eq H st awaiting_prepare ≡ is_awaiting_prepare st
  unfolding state_eq
  state_eq-awaiting_prepare awaiting_prepare = refl
  state_eq-awaiting_prepare awaiting_start = refl
  state_eq-awaiting_prepare started = refl
  state_eq-awaiting_prepare exited = refl
  state_eq-awaiting_prepare (crashed x) = refl

  state_eq-awaiting_start :
      (st : VmmProcessState H) → state_eq H st awaiting_start ≡ is_awaiting_start st
  unfolding state_eq
  state_eq-awaiting_start awaiting_prepare = refl
  state_eq-awaiting_start awaiting_start = refl
  state_eq-awaiting_start started = refl
  state_eq-awaiting_start exited = refl
  state_eq-awaiting_start (crashed x) = refl

  state_eq-started : (st : VmmProcessState H) → state_eq H st started ≡ is_started st
  unfolding state_eq
  state_eq-started awaiting_prepare = refl
  state_eq-started awaiting_start = refl
  state_eq-started started = refl
  state_eq-started exited = refl
  state_eq-started (crashed x) = refl

  -- The state in which a call finds the process.
  abbrev found : ProcessState H → VmmProcessState H
  found s = (update_state H s).0.state

  ensure_refused :
      (asked : VmmProcessState H) (s : ProcessState H)
      → state_eq H (found s) asked ≡ false
      → ensure_state H asked s ≡ (err (expected_state asked (found s)), update_state H s)
  unfolding ensure_state state
  ensure_refused asked s h = rw h refl

  then_refused :
      {A : Type 0} (asked : VmmProcessState H) (f : Done → ProcessAction H A) (s : ProcessState H)
      → state_eq H (found s) asked ≡ false
      → (ensure_state H asked >>= f) s ≡ (err (expected_state asked (found s)), update_state H s)
  then_refused asked f s h = bind-err (ensure_state H asked) f s (ensure_refused asked s h)

  check_refused :
      (st : VmmProcessState H) (t : ProcessState H)
      → has_ended st ≡ false
      → check_exited_or_crashed H st t ≡ (err (expected_exited_or_crashed st), t)
  check_refused awaiting_prepare t h = refl
  check_refused awaiting_start t h = refl
  check_refused started t h = refl
  check_refused exited t h = absurd cc
  check_refused (crashed x) t h = absurd cc

  cleanup_refused :
      (s : ProcessState H)
      → has_ended (found s) ≡ false
      → cleanup H s ≡ (err (expected_exited_or_crashed (found s)), update_state H s)
  unfolding cleanup ensure_exited_or_crashed state
  cleanup_refused s h =
      bind-err (state H >>= check_exited_or_crashed H) _ s
        (check_refused (found s) (update_state H s) h)

  -- The request of Ctrl+Alt+Del, or that it cannot be built.
  abbrev pub shutdown_request : H.HttpError ⊎ Request
  shutdown_request = H.build_request (txt "PUT") none (txt "{\"action_type\": \"SendCtrlAltDel\"}")

  -- Nothing has changed but what a look at the child changes. Ctrl+Alt+Del does not even look when its
  -- request cannot be built.
  abbrev pub Looks : Operation → ProcessState H → Type 0
  Looks operation s =
      (after H operation s ≡ update_state H s)
      ⊎ ((e : H.HttpError) × (operation ≡ sends_ctrl_alt_del)
          × (shutdown_request ≡ inl e)
          × (after H operation s ≡ s))

  abbrev built_request : ProcessAction H Request
  built_request =
      outside H ctrl_alt_del_request_not_built (λ p. of_outcome (answer shutdown_request))

  built :
      (r : H.HttpError ⊎ Request) (s : ProcessState H)
      → shutdown_request ≡ r
      → built_request s ≡ outside H ctrl_alt_del_request_not_built (λ p. of_outcome (answer r)) s
  built r s e = ap (λ x. outside H ctrl_alt_del_request_not_built (λ p. of_outcome (answer x)) s) e

  ctrl_alt_del_refused :
      (r : H.HttpError ⊎ Request) (s : ProcessState H)
      → shutdown_request ≡ r
      → state_eq H (found s) started ≡ false
      → Looks sends_ctrl_alt_del s
  unfolding after send_ctrl_alt_del
  ctrl_alt_del_refused (inl e) s made other =
      inr (e, refl, made, ap (λ r. r.1) (bind-err built_request _ s (built (inl e) s made)))
  ctrl_alt_del_refused (inr request) s made other = inl (
      ap (λ r. r.1) (bind-eq built_request _ s (built (inr request) s made))
      ∙ ap (λ r. r.1)
          (bind-err (send_api_request H (txt "/actions") request) _ s
            (unfold send_api_request in then_refused started _ s other)))

  -- A call in a state that does not permit it changes nothing but what the look at the child changes:
  -- `prepare` and `invoke` in another state than the one they wait for, `cleanup` of a process that has not
  -- ended, and the requests, `take_pipes`, `send_sigkill` and `wait_for_exit` of one that does not run. A
  -- Ctrl+Alt+Del whose request cannot be built changes nothing at all.
  pub after-refused :
      (operation : Operation) (s : ProcessState H)
      → permits operation (update_state H s).0.state ≡ false
      → Looks operation s
  unfolding permits after prepare invoke send_api_request take_pipes send_sigkill wait_for_exit
  after-refused prepares s h =
      inl (ap (λ r. r.1) (then_refused awaiting_prepare _ s (state_eq-awaiting_prepare _ ∙ h)))
  after-refused (invokes c) s h =
      inl (ap (λ r. r.1) (then_refused awaiting_start _ s (state_eq-awaiting_start _ ∙ h)))
  after-refused (sends_api_request route request) s h =
      inl (ap (λ r. r.1) (then_refused started _ s (state_eq-started _ ∙ h)))
  after-refused takes_pipes s h =
      inl (ap (λ r. r.1) (then_refused started _ s (state_eq-started _ ∙ h)))
  after-refused sends_sigkill s h =
      inl (ap (λ r. r.1) (then_refused started _ s (state_eq-started _ ∙ h)))
  after-refused waits_for_exit s h =
      inl (ap (λ r. r.1) (then_refused started _ s (state_eq-started _ ∙ h)))
  after-refused sends_ctrl_alt_del s h =
      ctrl_alt_del_refused shutdown_request s refl (state_eq-started _ ∙ h)
  after-refused cleans_up s h = inl (ap (λ r. r.1) (cleanup_refused s h))
  after-refused reads_state s h = absurd cc
