-- ===== src/Executor.antt =====
-- One logical upstream call with bounded retry and the circuit breaker of its service: class
-- ResilientUpstreamExecutor of gateway/app/proxy/executor.py.
--
-- The task gives way to others only while it waits for the upstream or sleeps. What others do to the
-- breaker meanwhile, the answers of the upstream, the clock and cancellation are the environment's.
-- The breaker's lock is never held across a wait, so no call is cancelled while it takes it.
pub mod Classify
pub mod Attempts
pub mod Settling
pub mod Isolation
mod Examples
use secure_api_gateway.Prelude.{
  ℕ, zero, suc, ◌+◌, ◌-◌, ◌*◌, ◌^◌, min, Bool, true, false, ◌&&◌, Option, none, some, List, [], ◌∷◌,
  ◌++◌, String, ltb, if◌then◌else◌,
}
use secure_api_gateway.Prelude.Texts.{Text}
use secure_api_gateway.Circuit.{
  Settings, Permit, Circuit, Admission, admitted, rejected, second, before_request,
}
use secure_api_gateway.Circuit
use secure_api_gateway.Circuit.Registry.{Registry, find, update}
use Classify.{
  RequestError, transport_error_is_retryable, transport_error_counts_for_circuit,
  response_counts_for_circuit_failure,
}

pub record Response : Type 0 where
  pub status_code : ℕ
  pub headers : List (String × String)
  pub content : Text

pub data ResilienceEvent : Type 0 where
  retry circuit_open circuit_rejected circuit_recovered : ResilienceEvent

-- What `client.request` does: it returns, raises a RequestError, raises any other exception, or is
-- cancelled.
pub data Attempt : Type 0 where
  responded : Response → Attempt
  errored : RequestError → Attempt
  raised : Attempt
  cancelled : Attempt

pub data Finish : Type 0 where
  returned : Response → ℕ → Finish
  circuit_open_error : ℕ → Finish
  request_error : RequestError → Finish
  other_exception : Finish
  cancelled_error : Finish
  -- RuntimeError("Upstream retry loop exited without a result.")
  loop_exited : Finish

-- Everything is by the number of the attempt, from 1.
pub record Environment : Type 0 where
  pub attempt : ℕ → Attempt
  pub sleep_cancelled : ℕ → Bool
  -- what other tasks do to the breaker during the attempt, and during the delay after it
  pub others : ℕ → Circuit → Circuit
  pub others_asleep : ℕ → Circuit → Circuit
  -- the reading of the clock when the call is admitted (0) or completed
  pub clock : ℕ → ℕ

-- The callback `on_event`, which may raise (true).
abbrev pub Callback : Type 0
Callback = Option (String → ResilienceEvent → Bool)

-- The breaker, and what the call did so far: its requests, its delays, its calls of the callback.
pub record Progress : Type 0 where
  pub circuit : Circuit
  pub requests : ℕ
  pub delays : List ℕ
  pub events : List (String × ResilienceEvent)

abbrev pub attempts_for : Settings → Permit → ℕ
attempts_for s p = if p.half_open_probe then 1 else s.max_attempts

abbrev pub begin : Circuit → Progress
begin c = record { circuit = c; requests = 0; delays = []; events = [] }

unfoldable pub retry_delay : Settings → ℕ → ℕ
retry_delay s failed_attempt = min (s.retry_base_delay * 2 ^ (failed_attempt - 1)) (2 * second)

module _ (s : Settings) (on_event : Callback) (service : String) where
  unfoldable pub emit_event : ResilienceEvent → Progress → Progress
  emit_event e st = elim on_event [
    | none ↦ st
    | some f ↦
        let told = record st { events = st.events ++ (service, e) ∷ [] } in
        elim (f service e) [ true ↦ told | false ↦ told ]
  ]

  abbrev emit_if : ResilienceEvent → Bool × Circuit → Progress → Progress
  emit_if e (true, c) st = emit_event e (record st { circuit = c })
  emit_if e (false, c) st = record st { circuit = c }

  unfoldable pub record_failure : ℕ → Permit → Progress → Progress
  unfolding emit_event
  record_failure now p st = emit_if circuit_open (Circuit.record_failure s now p st.circuit) st

  unfoldable pub record_neutral : ℕ → Permit → Progress → Progress
  unfolding emit_event
  record_neutral now p st = emit_if circuit_open (Circuit.record_neutral now p st.circuit) st

  unfoldable pub record_success : Permit → Progress → Progress
  unfolding emit_event
  record_success p st = emit_if circuit_recovered (Circuit.record_success p st.circuit) st

  module _ (method : Text) (env : Environment) (p : Permit) (max_attempts : ℕ) where
    -- The delay before attempt n + 1, `again` being the rest of the loop.
    unfoldable pub sleep_then : ℕ → (Progress → Finish × Progress) → Progress → Finish × Progress
    unfolding record_neutral
    sleep_then n again st =
        let delay = retry_delay s n in
        let slept = record st {
          circuit = env.others_asleep n st.circuit;
          delays = st.delays ++ delay ∷ [];
        } in
        if ltb 0 delay
        then (if env.sleep_cancelled n
            then (cancelled_error, record_neutral (env.clock n) p slept)
            else again slept)
        else again st

    -- The body of the loop once the attempt n has ended.
    unfoldable pub after_attempt :
        ℕ → (Progress → Finish × Progress) → Attempt → Progress → Finish × Progress
    unfolding emit_event record_failure record_neutral record_success sleep_then
    after_attempt n again (responded r) st =
        if response_counts_for_circuit_failure r.status_code
        then (returned r n, record_failure (env.clock n) p st)
        else (returned r n, record_success p st)
    after_attempt n again (errored e) st =
        if ltb n max_attempts && transport_error_is_retryable method e
        then sleep_then n again (emit_event retry st)
        else if transport_error_counts_for_circuit e
        then (request_error e, record_failure (env.clock n) p st)
        else (request_error e, record_neutral (env.clock n) p st)
    after_attempt n again raised st = (other_exception, st)
    after_attempt n again cancelled st = (cancelled_error, record_neutral (env.clock n) p st)

    -- `while attempts < max_attempts`, by the rounds that are left.
    unfoldable pub attempt_loop : ℕ → ℕ → Progress → Finish × Progress
    unfolding after_attempt
    attempt_loop zero attempts st = (loop_exited, st)
    attempt_loop (suc rounds) attempts st =
        after_attempt (attempts + 1) (attempt_loop rounds (attempts + 1))
          (env.attempt (attempts + 1))
          (record st { circuit = env.others (attempts + 1) st.circuit; requests = st.requests + 1 })

  after_admission : Text → Environment → Admission × Circuit → Finish × Progress
  after_admission method env (rejected r, c) =
      (circuit_open_error r, emit_event circuit_rejected (begin c))
  after_admission method env (admitted p, c) =
      attempt_loop method env p (attempts_for s p) (attempts_for s p) 0 (begin c)

  -- `execute`, on the breaker that the registry returned.
  unfoldable pub execute_on : Text → Environment → Circuit → Finish × Progress
  unfolding after_admission emit_event
  execute_on method env c = after_admission method env (before_request s (env.clock 0) c)

-- `execute`: none is the LookupError of a service that has no breaker.
unfoldable pub execute :
    Settings
    → Callback
    → String
    → Text
    → Environment
    → Registry
    → Option (Finish × Progress × Registry)
unfolding execute_on
execute s on_event service method env r = elim (find service r) [
  | none ↦ none
  | some c ↦
      let (f, st) = execute_on s on_event service method env c in
      some (f, st, update service (λ _. st.circuit) r)
]
