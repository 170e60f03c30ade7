-- ===== src/Executor/Examples.antt =====
-- Tests of the executor, and its theorems at concrete inputs.
use secure_api_gateway.Prelude.{
  ℕ, ◌*◌, ◌≡◌, refl, true, false, none, some, [], ◌∷◌, arith, if◌then◌else◌, ◌==◌, ceil_div,
}
use secure_api_gateway.Prelude.Dict
use secure_api_gateway.Prelude.Texts.{text}
use secure_api_gateway.Circuit.{
  Settings, Permit, Circuit, admitted, rejected, opened, half_open, second, init, before_request,
}
use secure_api_gateway.Circuit.Registry.{Registry, find, update}
use secure_api_gateway.Executor.{
  Response, Attempt, responded, errored, raised, returned, request_error, other_exception,
  circuit_open_error, Environment, Callback, Finish, Progress, begin, attempt_loop, retry_delay,
  execute_on, execute,
}
use secure_api_gateway.Executor.Classify.{
  connect_error, method_is_retryable, transport_error_is_retryable,
  transport_error_counts_for_circuit, response_counts_for_circuit_failure,
}
use secure_api_gateway.Executor.Attempts.{IsBounded, execute_on-IsBounded}
use secure_api_gateway.Executor.Settling.{state_after_probe, probe_settles, probe_lost}

abbrev defaults : Settings
defaults = record {
  max_attempts = 2;
  retry_base_delay = 100_000_000;
  failure_threshold = 3;
  recovery_timeout = 10 * second;
}

abbrev fine : Response
fine = record { status_code = 200; headers = []; content = [] }

-- One task alone: the first attempt ends as given, every later one with a response.
abbrev alone : Attempt → ℕ → Environment
alone first now = record {
  attempt = λ n. if n == 1 then first else responded fine;
  sleep_cancelled = λ n. false;
  others = λ n c. c;
  others_asleep = λ n c. c;
  clock = λ n. now;
}

abbrev open_circuit : Circuit
open_circuit = record {
  state = opened;
  consecutive_failures = 3;
  opened_at = some 5;
  half_open_probe_in_flight = false;
  generation = 1;
}

abbrev waiting_circuit : Circuit
waiting_circuit = record open_circuit {
  state = half_open;
  half_open_probe_in_flight = true;
  generation = 2;
}

abbrev probe : Permit
probe = record { generation = 2; half_open_probe = true }

retried_once :
    (execute_on defaults none "service-a" (text "get") (alone (errored connect_error) 0) init).0
    ≡ returned fine 2
unfolding execute_on attempt_loop retry_delay before_request init transport_error_is_retryable
    method_is_retryable response_counts_for_circuit_failure
retried_once = refl

posts_are_not_retried :
    (execute_on defaults none "service-a" (text "POST") (alone (errored connect_error) 0) init).0
    ≡ request_error connect_error
unfolding execute_on attempt_loop before_request init transport_error_is_retryable
    method_is_retryable transport_error_counts_for_circuit
posts_are_not_retried = refl

admits :
    before_request defaults 0 init
    ≡ (admitted (record { generation = 0; half_open_probe = false }), init)
unfolding before_request init
admits = refl

admits_probe :
    before_request defaults (11 * second) open_circuit ≡ (admitted probe, waiting_circuit)
unfolding before_request
admits_probe = refl

execute_on-IsBounded_example :
    let (f, end) =
      execute_on defaults none "service-a" (text "GET") (alone (errored connect_error) 0) init in
    IsBounded (text "GET") (alone (errored connect_error) 0) 2 0 end.requests f
execute_on-IsBounded_example =
    execute_on-IsBounded defaults none "service-a" (text "GET") (alone (errored connect_error) 0)
      init (record { generation = 0; half_open_probe = false }) init (omega arith) admits

probe_settles_example :
    let (f, end) =
      execute_on defaults none "service-a"
        (text "GET")
        (alone (responded fine) (11 * second))
        open_circuit in
    end.circuit.state ≡ state_after_probe f
probe_settles_example =
    probe_settles defaults none "service-a" (text "GET") (alone (responded fine) (11 * second))
      open_circuit waiting_circuit probe admits_probe refl (λ n c w. w, λ n c w. w)

probe_lost_example :
    let (f, end) =
      execute_on defaults none "service-a" (text "GET") (alone raised (11 * second)) open_circuit in
    (f ≡ other_exception)
    × ((now : ℕ) → before_request defaults now end.circuit ≡ (rejected 1, end.circuit))
probe_lost_example =
    probe_lost defaults none "service-a" (text "GET") (alone raised (11 * second)) open_circuit
      waiting_circuit probe admits_probe refl (λ n c w. w, λ n c w. w) refl

abbrev raising : Callback
raising = some (λ s e. true)

abbrev watched : Callback → Finish × Progress
watched f = execute_on defaults f "service-a" (text "GET") (alone (errored connect_error) 0) init

abbrev services : Registry
services = ("service-a", open_circuit) ∷ ("service-b", init) ∷ []

abbrev refused : Progress
refused = begin open_circuit

service_a_refuses :
    execute defaults none "service-a" (text "GET") (alone (responded fine) 7) services
    ≡ some (circuit_open_error 10, refused, services)
unfolding execute before_request find update Dict.get Dict.put ceil_div
service_a_refuses = refl
