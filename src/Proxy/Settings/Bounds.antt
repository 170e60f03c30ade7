-- ===== src/Proxy/Settings/Bounds.antt =====
-- The bounds of settings that were accepted, and what they mean for a call.
use secure_api_gateway.Prelude.{ℕ, ◌*◌, ◌≤◌, ◌≡◌, inl, inr, true, Option, none, some, String, arith}
use secure_api_gateway.Prelude.Int.{ℤ, pos, negsuc, between, magnitude}
use secure_api_gateway.Prelude.Texts.{Text, text}
use secure_api_gateway.Prelude.Numerals.{parse_int}
use secure_api_gateway.Http.{ok}
use secure_api_gateway.Circuit.{Settings, second, Circuit, before_request}
use secure_api_gateway.Executor.{emit_event, Environment, Callback, execute_on}
use secure_api_gateway.Executor.Attempts.{execute_on-IsBounded, admission-cases}
use secure_api_gateway.Proxy.Settings.{
  Seconds, ticks, not_finite, seconds_between, ticks_of, make_settings, getenv, settings_of,
  from_environment,
}

pub record IsConfigured (s : Settings) : Type 0 where
  pub some_attempt : 1 ≤ s.max_attempts
  pub few_attempts : s.max_attempts ≤ 3
  pub short_delay : s.retry_base_delay ≤ 2 * second
  pub some_failure : 1 ≤ s.failure_threshold
  pub few_failures : s.failure_threshold ≤ 20
  pub some_timeout : second ≤ s.recovery_timeout
  pub short_timeout : s.recovery_timeout ≤ 300 * second

pub between-magnitude :
    (lo hi : ℕ) (z : ℤ) → between lo hi z ≡ true → (lo ≤ magnitude z) × (magnitude z ≤ hi)
unfolding between
between-magnitude lo hi (pos n) h = ground (arith, h)
between-magnitude lo hi (negsuc n) h = ground (arith, h)

pub seconds-ticks :
    (lo hi : ℕ) (x : Seconds)
    → seconds_between lo hi x ≡ true
    → (lo ≤ ticks_of x) × (ticks_of x ≤ hi)
unfolding seconds_between ticks_of
seconds-ticks lo hi (ticks z) h = between-magnitude lo hi z h
seconds-ticks lo hi not_finite h = ground (arith, h)

make_settings-IsConfigured :
    (attempts threshold : ℤ) (delay timeout : Seconds) (s : Settings)
    → make_settings attempts delay threshold timeout ≡ ok s
    → IsConfigured s
unfolding make_settings
make_settings-IsConfigured attempts threshold delay timeout s h =
    let (a₁, a₂) = between-magnitude 1 3 attempts (ground (arith, h)) in
    let (d₁, d₂) = seconds-ticks 0 (2 * second) delay (ground (arith, h)) in
    let (f₁, f₂) = between-magnitude 1 20 threshold (ground (arith, h)) in
    let (t₁, t₂) = seconds-ticks second (300 * second) timeout (ground (arith, h)) in
    let same : s ≡ record {
      max_attempts = magnitude attempts;
      retry_base_delay = ticks_of delay;
      failure_threshold = magnitude threshold;
      recovery_timeout = ticks_of timeout;
    } =
      ground (arith, h) in
    rw same (record {
      some_attempt = a₁;
      few_attempts = a₂;
      short_delay = d₂;
      some_failure = f₁;
      few_failures = f₂;
      some_timeout = t₁;
      short_timeout = t₂;
    })

settings_of-IsConfigured :
    (attempts : Option ℤ) (delay : Option Seconds) (threshold : Option ℤ) (timeout : Option Seconds)
    (s : Settings)
    → settings_of attempts delay threshold timeout ≡ ok s
    → IsConfigured s
unfolding settings_of
settings_of-IsConfigured (some a) (some d) (some f) (some t) s h =
    make_settings-IsConfigured a f d t s h
settings_of-IsConfigured none d f t s h = ground (arith, h)
settings_of-IsConfigured (some a) none f t s h = ground (arith, h)
settings_of-IsConfigured (some a) (some d) none t s h = ground (arith, h)
settings_of-IsConfigured (some a) (some d) (some f) none s h = ground (arith, h)

-- Settings that were read from the environment are in their bounds, whatever its variables hold and
-- however `float` reads them.
pub from_environment-IsConfigured :
    (float : String → Option Seconds) (environ : String → Option String) (s : Settings)
    → from_environment float environ ≡ ok s
    → IsConfigured s
unfolding from_environment
from_environment-IsConfigured float environ s h =
    settings_of-IsConfigured (parse_int (text (getenv environ "UPSTREAM_MAX_ATTEMPTS" "2")))
      (float (getenv environ "UPSTREAM_RETRY_BASE_DELAY_SECONDS" "0.1"))
      (parse_int (text (getenv environ "UPSTREAM_CIRCUIT_FAILURE_THRESHOLD" "3")))
      (float (getenv environ "UPSTREAM_CIRCUIT_RECOVERY_SECONDS" "10")) s h

-- With settings that were read from the environment a call makes at most three requests to the
-- upstream, whatever its method, the answers and the state of the breaker.
pub configured_call :
    (float : String → Option Seconds) (environ : String → Option String) (s : Settings)
    (on_event : Callback) (service : String) (method : Text) (env : Environment) (c : Circuit)
    → from_environment float environ ≡ ok s
    → (execute_on s on_event service method env c).1.requests ≤ 3
unfolding execute_on
configured_call float environ s on_event service method env c h =
    let configured = from_environment-IsConfigured float environ s h in
    elim (admission-cases (before_request s (env.clock 0) c)) [
      | inl (p, c', e) ↦
          let bounded =
            execute_on-IsBounded s on_event service method env c p c' configured.some_attempt e in
          ground (arith, bounded.within, configured.few_attempts)
      | inr (n, c', e) ↦ rw (e, execute_on) (unfold emit_event in ground arith)
    ]
