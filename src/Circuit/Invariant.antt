-- ===== src/Circuit/Invariant.antt =====
-- What holds of a circuit breaker between two of its methods, under any permits and any clock.
use secure_api_gateway.Prelude.{ℕ, ◌<◌, ◌≡◌, ◌≢◌, Bool, true, false, Option, none, arith}
use secure_api_gateway.Circuit.{
  Settings, Permit, Circuit, CircuitState, closed, opened, half_open, init, before_request,
  record_success, record_failure, record_neutral,
}

-- The fields agree with the state, and failures are counted below the threshold while it is closed.
abbrev pub Agrees : Settings → CircuitState → ℕ → Option ℕ → Bool → Type 0
Agrees s closed failures since probe =
    (failures < s.failure_threshold) × (since ≡ none) × (probe ≡ false)
Agrees s opened failures since probe =
    (failures ≡ s.failure_threshold) × (since ≢ none) × (probe ≡ false)
Agrees s half_open failures since probe =
    (failures ≡ s.failure_threshold) × (since ≢ none) × (probe ≡ true)

abbrev pub IsValid : Settings → Circuit → Type 0
IsValid s c = Agrees s c.state c.consecutive_failures c.opened_at c.half_open_probe_in_flight

pub init-IsValid : (s : Settings) → 0 < s.failure_threshold → IsValid s init
unfolding init
init-IsValid s h = ground arith

pub before_request-IsValid :
    (s : Settings) (now : ℕ) (c : Circuit) → IsValid s c → IsValid s (before_request s now c).1
unfolding before_request
before_request-IsValid s now c v = ground arith

pub record_success-IsValid :
    (s : Settings) (p : Permit) (c : Circuit)
    → 0 < s.failure_threshold
    → IsValid s c
    → IsValid s (record_success p c).1
unfolding record_success
record_success-IsValid s p c h v = ground arith

pub record_failure-IsValid :
    (s : Settings) (now : ℕ) (p : Permit) (c : Circuit)
    → IsValid s c
    → IsValid s (record_failure s now p c).1
unfolding record_failure
record_failure-IsValid s now p c v = ground arith

pub record_neutral-IsValid :
    (s : Settings) (now : ℕ) (p : Permit) (c : Circuit)
    → IsValid s c
    → IsValid s (record_neutral now p c).1
unfolding record_neutral
record_neutral-IsValid s now p c v = ground arith
