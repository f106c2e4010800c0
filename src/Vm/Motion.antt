-- ===== src/Vm/Motion.antt =====
-- What the requests of src/vm/api.rs and the checks of src/vm/mod.rs do to a virtual machine follows
-- from what two calls do: the look at the state, and the request of the process.
use fctools.Base.{ℕ, Bool, true, false, Option, none, some, List, [], ◌∷◌, not, ◌&&◌, map_err, ◌⊎◌}
use fctools.Base.Action.{raise, ◌>>=◌, fail_if, of_outcome}
use fctools.Base.Moving.{Moves, fail_if-Moves, bind-Moves}
use fctools.Text.{Text, txt, is_blank}
use fctools.Host.{Host, Request}
use fctools.Host.Calls.{answer}
use fctools.Models.{LoadSnapshot}
use fctools.Process.Socket
use fctools.Process.Socket.{is_success, recv_to_string}
use fctools.Vm.Configuration.{VmConfigurationData}
use fctools.Vm.Machine.{
  Json, Vm, VmState, VmAction, Body, on_process, ensure_state, state, state_eq, expected_state,
  ensure_paused_or_running, expected_paused_or_running, running, paused, serde_error,
  api_request_not_constructed, api_responded_with_fault, api_response_could_not_be_received,
  logger_body, metrics_body, load_snapshot_body, exited, crashed, not_started,
  check_exited_or_crashed, ensure_exited_or_crashed,
}
use fctools.Vm.Api.{
  in_world, check_status, expect_empty, build, send_api_request, send_api_request_internal,
  send_api_request_with_response, put_optional, init_new, init_restored_from_snapshot,
}
use fctools.Vm.Api.Laws.{Put, put_all, puts_of, init_new-put_all}

abbrev pub VmWorld : Host → Type 0
VmWorld H = Vm H × H.World

-- A relation between the states before and after, with the two calls. The world alone may change.
pub record Motion (H : Host) (J : Json) : Type 1 where
  pub Rel : VmWorld H → VmWorld H → Type 0
  pub passes : (v : Vm H) (w w' : H.World) → Rel (v, w) (v, w')
  pub chain : (s t u : VmWorld H) → Rel s t → Rel t u → Rel s u
  pub sees : (s : VmWorld H) → Rel s (state H J s).1
  pub asks :
      (route : Text) (request : Request) (s : VmWorld H)
      → Rel s (on_process H J (Socket.send_api_request H route request) s).1

module _ {H : Host} {J : Json} (M : Motion H J) where
  abbrev pub Follows : {A : Type 0} → VmAction H J A → Type 0
  Follows m = Moves M.Rel m

  pub same : (s : VmWorld H) → M.Rel s s
  same (v, w) = M.passes v w w

  pub bind :
      {A B : Type 0} (m : VmAction H J A) (f : A → VmAction H J B)
      → Follows m
      → ((a : A) → Follows (f a))
      → Follows (m >>= f)
  bind m f h k = bind-Moves M.Rel M.chain m f h k

  pub ensure_state-Follows : (expected : VmState H) → Follows (ensure_state H J expected)
  unfolding ensure_state
  ensure_state-Follows expected =
      bind (state H J)
        (λ current. fail_if (not (state_eq H J current expected)) (expected_state expected current))
        M.sees
        (λ current.
          fail_if-Moves M.Rel same (not (state_eq H J current expected))
            (expected_state expected current))

  pub ensure_paused_or_running-Follows : Follows (ensure_paused_or_running H J)
  unfolding ensure_paused_or_running
  ensure_paused_or_running-Follows =
      bind (state H J)
        (λ current.
          fail_if (not (state_eq H J current running) && not (state_eq H J current paused))
            (expected_paused_or_running current))
        M.sees (λ current. fail_if-Moves M.Rel same _ _)

  check-Follows : (current : VmState H) → Follows (check_exited_or_crashed H J current)
  check-Follows not_started = same
  check-Follows running = same
  check-Follows paused = same
  check-Follows exited = same
  check-Follows (crashed x) = same

  pub ensure_exited_or_crashed-Follows : Follows (ensure_exited_or_crashed H J)
  unfolding ensure_exited_or_crashed
  ensure_exited_or_crashed-Follows =
      bind (state H J) (check_exited_or_crashed H J) M.sees check-Follows

  build-Follows : (method : Text) (o : Option (Body J.Serializable)) → Follows (build H J method o)
  unfolding build
  build-Follows method none s = same s
  build-Follows method (some body) s =
      bind (of_outcome (map_err serde_error (answer (J.to_string body))))
        (λ json. of_outcome (
          map_err api_request_not_constructed
            (answer (H.build_request method (some (txt "application/json")) json))))
        same (λ json. same) s

  check_status-Follows :
      (b : Bool) (status : ℕ) (response_json : Text)
      → Follows (check_status H J b status response_json)
  check_status-Follows true status response_json s = same s
  check_status-Follows false status response_json s =
      bind (of_outcome (map_err serde_error (answer (J.api_error_from_str response_json))))
        (λ api_error. raise (api_responded_with_fault status api_error.fault_message)) same
        (λ api_error. same) s

  receive-Follows :
      (response : H.Response)
      → Follows (in_world H J api_response_could_not_be_received (recv_to_string H response))
  receive-Follows response (v, w) = M.passes v w _

  internal-Follows :
      (route method : Text) (o : Option (Body J.Serializable))
      → Follows (send_api_request_internal H J route method o)
  unfolding send_api_request_internal
  internal-Follows route method o =
      let check : H.Response → Text → VmAction H J Text = λ response json.
        check_status H J (is_success (H.status response)) (H.status response) json in
      let receive : H.Response → VmAction H J Text =
        λ response. in_world H J api_response_could_not_be_received (recv_to_string H response) in
      bind (build H J method o)
        (λ request. on_process H J (Socket.send_api_request H route request) >>= λ response.
          receive response >>= check response)
        (build-Follows method o)
        (λ request.
          bind (on_process H J (Socket.send_api_request H route request))
            (λ response. receive response >>= check response) (M.asks route request)
            (λ response.
              bind (receive response) (check response) (receive-Follows response) (λ json.
                check_status-Follows (is_success (H.status response)) (H.status response) json)))

  expect_empty-Follows :
      (b : Bool) (response_json : Text) → Follows (expect_empty H J b response_json)
  expect_empty-Follows true response_json s = same s
  expect_empty-Follows false response_json s = same s

  pub send-Follows :
      (route method : Text) (o : Option (Body J.Serializable))
      → Follows (send_api_request H J route method o)
  unfolding send_api_request
  send-Follows route method o =
      bind (send_api_request_internal H J route method o)
        (λ json. expect_empty H J (is_blank json) json) (internal-Follows route method o)
        (λ json. expect_empty-Follows (is_blank json) json)

  pub send_with_response-Follows :
      {Resp : Type 0} (from_str : Text → J.SerdeError ⊎ Resp) (route method : Text)
      (o : Option (Body J.Serializable))
      → Follows (send_api_request_with_response H J from_str route method o)
  unfolding send_api_request_with_response
  send_with_response-Follows from_str route method o =
      bind (send_api_request_internal H J route method o)
        (λ json. of_outcome (map_err serde_error (answer (from_str json))))
        (internal-Follows route method o) (λ json. same)

  put_all-Follows : (puts : List (Put J.Serializable)) → Follows (put_all H J puts)
  put_all-Follows [] s = same s
  put_all-Follows ((route, body) ∷ puts) s =
      bind (send_api_request H J route (txt "PUT") (some body)) (λ a. put_all H J puts)
        (send-Follows route (txt "PUT") (some body)) (λ a. put_all-Follows puts) s

  optional-Follows :
      {A : Type 0} (route : Text) (body : A → Body J.Serializable) (o : Option A)
      → Follows (put_optional H J route body o)
  optional-Follows route body none s = same s
  optional-Follows route body (some device) s =
      send-Follows route (txt "PUT") (some (body device)) s

  pub init_new-Follows : (d : VmConfigurationData) → Follows (init_new H J d)
  init_new-Follows d s = rw (init_new-put_all H J d s) (put_all-Follows (puts_of d) s)

  pub init_restored-Follows :
      (d : VmConfigurationData) (l : LoadSnapshot) → Follows (init_restored_from_snapshot H J d l)
  unfolding init_restored_from_snapshot
  init_restored-Follows d l =
      let logger = put_optional H J (txt "/logger") logger_body d.logger_system in
      let metrics = put_optional H J (txt "/metrics") metrics_body d.metrics_system in
      let load =
        send_api_request H J (txt "/snapshot/load") (txt "PUT") (some (load_snapshot_body l)) in
      bind logger (λ a. metrics >>= λ b. load) (optional-Follows _ _ d.logger_system)
        (λ a.
          bind metrics (λ b. load) (optional-Follows _ _ d.metrics_system)
            (λ b. send-Follows (txt "/snapshot/load") (txt "PUT") (some (load_snapshot_body l))))
