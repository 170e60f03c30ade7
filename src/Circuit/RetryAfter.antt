-- ===== src/Circuit/RetryAfter.antt =====
-- What an open circuit answers, and how it recovers.
use secure_api_gateway.Prelude.{ℕ, ◌+◌, ◌-◌, ◌*◌, ◌≤◌, ◌<◌, ◌≡◌, true, refl, some, arith, ceil_div}
use secure_api_gateway.Circuit.Invariant.{IsValid}
use secure_api_gateway.Circuit.{
  Settings, Circuit, admitted, rejected, opened, half_open, second, before_request, snapshot,
  record_success, record_failure, record_neutral, init, Permit,
}

-- The least number of whole seconds that reaches past `n` ticks.
ceil_div_bounds :
    (n : ℕ)
    → 0 < n
    → (1 ≤ ceil_div n second)
      × (n ≤ ceil_div n second * second)
      × ((ceil_div n second - 1) * second < n)
unfolding ceil_div
ceil_div_bounds n h = (omega arith, omega arith, omega arith)

module _ (s : Settings) (now t : ℕ) (c : Circuit) (h : c.state ≡ opened)
    (since : c.opened_at ≡ some t) where
  -- Until the recovery timeout has passed since it opened, an open circuit turns every request away
  -- and stays as it is. The delay that it reports, in seconds, reaches the end of the timeout, and a
  -- delay of one second less does not. The snapshot reports the same delay.
  pub open_rejects :
      now < t + s.recovery_timeout
      → (r : ℕ) × (before_request s now c ≡ (rejected r, c))
        × (t + s.recovery_timeout ≤ now + r * second)
        × (now + (r - 1) * second < t + s.recovery_timeout)
        × ((snapshot s now c).retry_after ≡ r)
  unfolding before_request snapshot
  open_rejects early =
      let b = ceil_div_bounds (s.recovery_timeout + t - now) (omega arith) in
      (
        ceil_div (s.recovery_timeout + t - now) second,
        ground arith,
        omega arith,
        omega arith,
        ground arith,
      )

  -- From the end of the timeout on, an open circuit admits one request, as the probe of a new
  -- generation, and is then half open with the probe in flight.
  pub open_admits :
      t + s.recovery_timeout ≤ now
      → before_request s now c ≡ (
        admitted (record { generation = c.generation + 1; half_open_probe = true }),
        record c {
          state = half_open;
          half_open_probe_in_flight = true;
          generation = c.generation + 1;
        },
      )
  unfolding before_request
  open_admits late = ground arith

-- A whole recovery. After the timeout one request is admitted as the probe; if it succeeds the circuit
-- is as at the start, of the second next generation; if it fails, or cannot be attributed to the
-- upstream, the circuit opens anew from that moment, again of the second next generation.
pub recovery :
    (s : Settings) (now t later : ℕ) (c : Circuit)
    → c.state ≡ opened
    → c.opened_at ≡ some t
    → IsValid s c
    → t + s.recovery_timeout ≤ now
    → let (a, c') = before_request s now c in
      let p : Permit = record { generation = c.generation + 1; half_open_probe = true } in
      (a ≡ admitted p)
      × (record_success p c' ≡ (true, record init { generation = c.generation + 2 }))
      × (record_failure s later p c'
          ≡ (true, record c { opened_at = some later; generation = c.generation + 2 }))
      × (record_neutral later p c'
          ≡ (true, record c { opened_at = some later; generation = c.generation + 2 }))
unfolding record_success record_failure record_neutral init
recovery s now t later c h since v late =
    rw (open_admits s now t c h since late) (refl, ground arith, ground arith, ground arith)
