-- ===== src/Circuit/Examples.antt =====
-- Tests of the circuit breaker, and its theorems at concrete inputs.
use secure_api_gateway.Prelude.{
  ◌*◌, ◌≡◌, ◌↔◌, refl, true, false, some, List, [], ◌∷◌, arith, String,
}
use secure_api_gateway.Prelude.Dict
use secure_api_gateway.Circuit.{
  Settings, Permit, Circuit, admitted, opened, half_open, second, init, before_request,
  record_success, record_failure, record_neutral,
}
use secure_api_gateway.Circuit.Invariant.{IsValid}
use secure_api_gateway.Circuit.Interleaving.{
  World, Call, request, failure, step, run, start, live_probes, probes_due, run-IsValid,
  run-live_probes,
}
use secure_api_gateway.Circuit.RetryAfter.{recovery}
use secure_api_gateway.Circuit.Streak.{
  Outcome, succeeded, failed, unattributed, complete_all, verdicts, HasStreak, plain,
  opens_iff_streak,
}
use secure_api_gateway.Circuit.Registry.{Registry, create}

abbrev defaults : Settings
defaults = record {
  max_attempts = 2;
  retry_base_delay = 100_000_000;
  failure_threshold = 3;
  recovery_timeout = 10 * second;
}

abbrev open_circuit : Circuit
open_circuit = record {
  state = opened;
  consecutive_failures = 3;
  opened_at = some 5;
  half_open_probe_in_flight = false;
  generation = 1;
}

abbrev probing : World
probing = record {
  circuit = record {
    state = half_open;
    consecutive_failures = 3;
    opened_at = some 5;
    half_open_probe_in_flight = true;
    generation = 2;
  };
  issued = [];
}

-- Three failures open the circuit, a request after the timeout is the probe, a second one waits.
abbrev outage : List Call
outage =
    request 0
    ∷ failure 1 (plain 0)
    ∷ failure 2 (plain 0)
    ∷ failure 3 (plain 0)
    ∷ request (20 * second)
    ∷ request (20 * second)
    ∷ []

outage_is_half_open : (run defaults start outage).circuit.state ≡ half_open
unfolding run step before_request record_failure init
outage_is_half_open = refl

run-IsValid_example : IsValid defaults (run defaults start outage).circuit
run-IsValid_example = run-IsValid defaults outage (omega arith)

run-live_probes_example :
    let w = run defaults start outage in
    live_probes w.circuit.generation w.issued ≡ probes_due w.circuit
run-live_probes_example = run-live_probes defaults outage (omega arith)

recovery_example :
    let (a, c) = before_request defaults (11 * second) open_circuit in
    let p : Permit = record { generation = 2; half_open_probe = true } in
    (a ≡ admitted p)
    × (record_success p c ≡ (true, record init { generation = 3 }))
    × (record_failure defaults (12 * second) p c
        ≡ (true, record open_circuit { opened_at = some (12 * second); generation = 3 }))
    × (record_neutral (12 * second) p c
        ≡ (true, record open_circuit { opened_at = some (12 * second); generation = 3 }))
recovery_example =
    recovery defaults (11 * second) 5 (12 * second) open_circuit refl refl (refl, (λ e. cc), refl)
      (omega arith)

abbrev completions : List Outcome
completions = failed 1 ∷ succeeded ∷ failed 2 ∷ unattributed 3 ∷ failed 4 ∷ failed 5 ∷ []

opens_iff_streak_example :
    ((complete_all defaults (plain 0) init completions).state ≡ opened)
    ↔ HasStreak 3 (verdicts completions)
unfolding init
opens_iff_streak_example =
    opens_iff_streak defaults init completions (omega arith, refl, refl) refl refl

abbrev names : List String
names = "service-a" ∷ "service-b" ∷ "service-a" ∷ []

abbrev services : Registry
services = ("service-a", init) ∷ ("service-b", init) ∷ []

create_names : create names ≡ some services
unfolding create Dict.put
create_names = refl
