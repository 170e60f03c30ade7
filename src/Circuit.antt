-- ===== src/Circuit.antt =====
-- The circuit breaker of one upstream service: class ServiceCircuitBreaker of
-- gateway/app/proxy/resilience.py.
--
-- Times are whole nanoseconds on the monotonic clock, so the source's comparison of floats is one of
-- exact numbers here. Each method runs under the breaker's lock, so it is one step from a state to a
-- state; a method that reads the clock takes the reading `now`.
pub mod Invariant
pub mod Interleaving
pub mod RetryAfter
pub mod Streak
pub mod Registry
mod Examples
use secure_api_gateway.Prelude.{
  ℕ, ◌+◌, ◌-◌, max, Bool, true, false, ◌&&◌, ◌||◌, not, Option, none, some, leb, ltb, ◌==◌,
  if◌then◌else◌, ceil_div,
}

-- One second, in ticks of the clock.
abbrev pub second : ℕ
second = 1_000_000_000

pub data CircuitState : Type 0 where
  closed opened half_open : CircuitState

-- The fields of UpstreamResilienceSettings, durations in ticks.
pub record Settings : Type 0 where
  pub max_attempts : ℕ
  pub retry_base_delay : ℕ
  pub failure_threshold : ℕ
  pub recovery_timeout : ℕ

pub record Permit : Type 0 where
  pub generation : ℕ
  pub half_open_probe : Bool

pub record Circuit : Type 0 where
  pub state : CircuitState
  pub consecutive_failures : ℕ
  pub opened_at : Option ℕ
  pub half_open_probe_in_flight : Bool
  pub generation : ℕ

pub record Snapshot : Type 0 where
  pub state : CircuitState
  pub consecutive_failures : ℕ
  pub retry_after : ℕ
  pub half_open_probe_in_flight : Bool

-- What `before_request` gives: a permit, or CircuitOpenError with its delay in seconds.
pub data Admission : Type 0 where
  admitted : Permit → Admission
  rejected : ℕ → Admission

abbrev pub is_closed : CircuitState → Bool
is_closed closed = true
is_closed _ = false

abbrev pub is_half_open : CircuitState → Bool
is_half_open half_open = true
is_half_open _ = false

unfoldable pub init : Circuit
init = record {
  state = closed;
  consecutive_failures = 0;
  opened_at = none;
  half_open_probe_in_flight = false;
  generation = 0;
}

-- The constructor of CircuitOpenError: never less than one second.
unfoldable pub circuit_open_error : ℕ → Admission
circuit_open_error retry_after = rejected (max 1 retry_after)

-- `remaining` of the source is (timeout + opened_at) - now; the truncated subtraction is 0 exactly
-- where the source finds `remaining <= 0`.
unfoldable pub retry_after : Settings → ℕ → Option ℕ → ℕ
retry_after s now none = 0
retry_after s now (some t) =
    let remaining = s.recovery_timeout + t - now in
    if remaining == 0 then 0 else max 1 (ceil_div remaining second)

before_request_in : CircuitState → Settings → ℕ → Circuit → Admission × Circuit
unfolding circuit_open_error retry_after
before_request_in closed s now c =
    (admitted (record { generation = c.generation; half_open_probe = false }), c)
before_request_in opened s now c =
    let wait = retry_after s now c.opened_at in
    if ltb 0 wait then (circuit_open_error wait, c) else (
      admitted (record { generation = c.generation + 1; half_open_probe = true }),
      record c {
        state = half_open;
        half_open_probe_in_flight = true;
        generation = c.generation + 1;
      },
    )
before_request_in half_open s now c =
    if c.half_open_probe_in_flight then (circuit_open_error 1, c) else (
      admitted (record { generation = c.generation; half_open_probe = true }),
      record c { half_open_probe_in_flight = true },
    )

unfoldable pub before_request : Settings → ℕ → Circuit → Admission × Circuit
unfolding before_request_in
before_request s now c = before_request_in c.state s now c

-- The completions return the Boolean that the source returns, beside the new state.
unfoldable pub record_success : Permit → Circuit → Bool × Circuit
record_success p c =
    if not (p.generation == c.generation)
    then (false, c)
    else if p.half_open_probe
    then (if not (is_half_open c.state) || not c.half_open_probe_in_flight then (false, c) else (
      true,
      record c {
        state = closed;
        consecutive_failures = 0;
        opened_at = none;
        half_open_probe_in_flight = false;
        generation = c.generation + 1;
      },
    ))
    else if not (is_closed c.state)
    then (false, c)
    else (false, record c { consecutive_failures = 0; opened_at = none })

unfoldable pub record_failure : Settings → ℕ → Permit → Circuit → Bool × Circuit
record_failure s now p c =
    if not (p.generation == c.generation)
    then (false, c)
    else if p.half_open_probe
    then (if not (is_half_open c.state) || not c.half_open_probe_in_flight then (false, c) else (
      true,
      record c {
        state = opened;
        opened_at = some now;
        consecutive_failures = s.failure_threshold;
        half_open_probe_in_flight = false;
        generation = c.generation + 1;
      },
    ))
    else if not (is_closed c.state)
    then (false, c)
    else if leb s.failure_threshold (c.consecutive_failures + 1)
    then (
      true,
      record c {
        consecutive_failures = c.consecutive_failures + 1;
        state = opened;
        opened_at = some now;
        half_open_probe_in_flight = false;
        generation = c.generation + 1;
      },
    )
    else (false, record c { consecutive_failures = c.consecutive_failures + 1 })

unfoldable pub record_neutral : ℕ → Permit → Circuit → Bool × Circuit
record_neutral now p c =
    if not (p.generation == c.generation)
    then (false, c)
    else if p.half_open_probe && (is_half_open c.state && c.half_open_probe_in_flight)
    then (
      true,
      record c {
        state = opened;
        opened_at = some now;
        half_open_probe_in_flight = false;
        generation = c.generation + 1;
      },
    )
    else (false, c)

unfoldable pub snapshot : Settings → ℕ → Circuit → Snapshot
unfolding retry_after
snapshot s now c = record {
  state = c.state;
  consecutive_failures = c.consecutive_failures;
  retry_after = retry_after s now c.opened_at;
  half_open_probe_in_flight = c.half_open_probe_in_flight;
}
