-- ===== src/Executor/Settling.antt =====
-- What a call does to the circuit: it completes its permit exactly once, so a probe of a half-open
-- circuit is always settled, unless the request raises an exception that is no RequestError.
use secure_api_gateway.Prelude.{
  ℕ, zero, suc, ◌+◌, ◌<◌, ◌≡◌, refl, true, [], String, arith, inl, inr, if◌then◌else◌,
}
use secure_api_gateway.Prelude.Texts.{Text}
use secure_api_gateway.Circuit.{
  Settings, Permit, Circuit, admitted, rejected, before_request, Admission, CircuitState, half_open,
  opened, closed, record_success, record_failure, record_neutral,
}
use secure_api_gateway.Circuit.Invariant.{
  IsValid, before_request-IsValid, record_success-IsValid, record_failure-IsValid,
  record_neutral-IsValid,
}
use secure_api_gateway.Executor.{
  Attempt, responded, errored, raised, cancelled, Finish, returned, other_exception, request_error,
  cancelled_error, Environment, Callback, Progress, emit_event, after_attempt, attempt_loop,
  attempts_for, begin, execute_on,
}
use secure_api_gateway.Circuit.Interleaving.{
  Call, request, success, failure, neutral, apply, Settles,
}
use secure_api_gateway.Executor.Attempts.{admission-cases}
use secure_api_gateway.Executor.Classify.{response_counts_for_circuit_failure}
use secure_api_gateway.Circuit
use mathlib.Core.Path.{subst, ap}

module _ (s : Settings) (on_event : Callback) (service : String) (method : Text) (env : Environment)
    (p : Permit) (m : ℕ) where
  module _ (P : Circuit → Type 0) (success : (c : Circuit) → P c → P (record_success p c).1)
      (failure : (now : ℕ) (c : Circuit) → P c → P (record_failure s now p c).1)
      (neutral : (now : ℕ) (c : Circuit) → P c → P (record_neutral now p c).1)
      (others : (n : ℕ) (c : Circuit) → P c → P (env.others n c))
      (asleep : (n : ℕ) (c : Circuit) → P c → P (env.others_asleep n c)) where
    -- What every completion and every other task keeps is kept by the loop.
    after_attempt-keeps :
        (n : ℕ) (again : Progress → Finish × Progress) (a : Attempt) (st : Progress)
        → ((st' : Progress) → P st'.circuit → P (again st').1.circuit)
        → P st.circuit
        → P (after_attempt s on_event service method env p m n again a st).1.circuit
    unfolding after_attempt
    after_attempt-keeps n again (responded r) st ih h =
        ground (arith, success st.circuit, failure (env.clock n) st.circuit)
    after_attempt-keeps n again (errored e) st ih h = grind (arith, neutral, failure, ih, asleep)
    after_attempt-keeps n again raised st ih h = h
    after_attempt-keeps n again cancelled st ih h = ground (arith, neutral (env.clock n) st.circuit)

    attempt_loop-keeps :
        (rounds a : ℕ) (st : Progress)
        → P st.circuit
        → P (attempt_loop s on_event service method env p m rounds a st).1.circuit
    unfolding attempt_loop
    attempt_loop-keeps zero a st h = h
    attempt_loop-keeps (suc rounds) a st h =
        after_attempt-keeps (a + 1) (attempt_loop s on_event service method env p m rounds (a + 1))
          (env.attempt (a + 1)) _ (attempt_loop-keeps rounds (a + 1)) (others (a + 1) st.circuit h)

admitted-IsValid :
    (s : Settings) (now : ℕ) (c : Circuit)
    → IsValid s c
    → {a : Admission} {c' : Circuit} → before_request s now c ≡ (a, c')
    → IsValid s c'
admitted-IsValid s now c v {c' = d} e =
    subst (λ (r : Admission × Circuit). IsValid s r.1) e (before_request-IsValid s now c v)

-- Other tasks keep a property of the breaker.
abbrev pub Keeps : Environment → (Circuit → Type 0) → Type 0
Keeps env P =
    ((n : ℕ) (c : Circuit) → P c → P (env.others n c))
    × ((n : ℕ) (c : Circuit) → P c → P (env.others_asleep n c))

-- A call leaves a valid breaker valid, whatever the upstream does, if other tasks do so.
pub execute_on-IsValid :
    (s : Settings) (on_event : Callback) (service : String) (method : Text) (env : Environment)
    (c : Circuit)
    → 0 < s.failure_threshold
    → Keeps env (IsValid s)
    → IsValid s c
    → IsValid s (execute_on s on_event service method env c).1.circuit
unfolding execute_on
execute_on-IsValid s on_event service method env c h (others, asleep) v =
    elim (admission-cases (before_request s (env.clock 0) c)) [
      | inl (p, c', e) ↦
          rw (e, execute_on)
            (attempt_loop-keeps s on_event service method env p (attempts_for s p) (IsValid s)
              (λ x. record_success-IsValid s p x h) (λ now x. record_failure-IsValid s now p x)
              (λ now x. record_neutral-IsValid s now p x) others asleep (attempts_for s p) 0
              (begin c') (admitted-IsValid s (env.clock 0) c v e))
      | inr (n, c', e) ↦
          rw (e, execute_on)
            (unfold emit_event in ground (arith, admitted-IsValid s (env.clock 0) c v e))
    ]

-- The permit `p` is the probe that the half-open circuit waits for.
pub record Awaits (p : Permit) (c : Circuit) : Type 0 where
  pub probe : p.half_open_probe ≡ true
  pub current : p.generation ≡ c.generation
  pub waiting : c.state ≡ half_open
  pub in_flight : c.half_open_probe_in_flight ≡ true

-- The state in which a probe leaves the circuit.
abbrev pub state_after_probe : Finish → CircuitState
state_after_probe (returned r n) =
    if response_counts_for_circuit_failure r.status_code then opened else closed
state_after_probe (request_error e) = opened
state_after_probe cancelled_error = opened
state_after_probe _ = half_open

probe_attempt :
    (s : Settings) (on_event : Callback) (service : String) (method : Text) (env : Environment)
    (p : Permit) (again : Progress → Finish × Progress) (a : Attempt) (st : Progress)
    → Awaits p st.circuit
    → (after_attempt s on_event service method env p 1 1 again a st).1.circuit.state
      ≡ state_after_probe (after_attempt s on_event service method env p 1 1 again a st).0
unfolding after_attempt Circuit.record_success Circuit.record_failure Circuit.record_neutral
probe_attempt s on_event service method env p again (responded r) st w = ground arith
probe_attempt s on_event service method env p again (errored e) st w = ground arith
probe_attempt s on_event service method env p again raised st w = w.waiting
probe_attempt s on_event service method env p again cancelled st w = ground arith

before_request-Awaits :
    (s : Settings) (now : ℕ) (c : Circuit) (p : Permit) (c' : Circuit)
    → before_request s now c ≡ (admitted p, c')
    → p.half_open_probe ≡ true
    → Awaits p c'
unfolding before_request
before_request-Awaits s now c p c' e h = ground arith

Awaits-rejects :
    (s : Settings) (now : ℕ) (p : Permit) (c : Circuit)
    → Awaits p c
    → before_request s now c ≡ (rejected 1, c)
unfolding before_request
Awaits-rejects s now p c w = ground arith

-- No call of another task ends the wait: only a completion of the probe itself does.
pub apply-Awaits :
    (s : Settings) (p : Permit) (c : Circuit) (call : Call)
    → ¬ (Settles p call)
    → Awaits p c
    → Awaits p (apply s c call)
unfolding apply before_request Circuit.record_success Circuit.record_failure Circuit.record_neutral
apply-Awaits s p c (request now) other w = ground arith
apply-Awaits s p c (success q) other w = ground arith
apply-Awaits s p c (failure now q) other w = ground arith
apply-Awaits s p c (neutral now q) other w = ground arith

module _ (s : Settings) (on_event : Callback) (service : String) (method : Text) (env : Environment)
    (c c' : Circuit) (p : Permit) (admission : before_request s (env.clock 0) c ≡ (admitted p, c'))
    (probe : p.half_open_probe ≡ true) (others : Keeps env (Awaits p)) where
  abbrev end : Finish × Progress
  end = execute_on s on_event service method env c

  abbrev first : Progress
  first = record { circuit = env.others 1 c'; requests = 1; delays = []; events = [] }

  one_attempt :
      end
      ≡ after_attempt s on_event service method env p 1 1
          (attempt_loop s on_event service method env p 1 0 1)
          (env.attempt 1)
          first
  unfolding execute_on attempt_loop
  one_attempt =
      let one : attempts_for s p ≡ 1 = ground arith in
      rw (admission, execute_on)
        (ap (λ n. attempt_loop s on_event service method env p n n 0 (begin c')) one)

  first-Awaits : Awaits p first.circuit
  first-Awaits = others.0 1 c' (before_request-Awaits s (env.clock 0) c p c' admission probe)

  -- A call admitted as the probe, while other tasks do not complete it, leaves the circuit open when
  -- a 5xx response, a transport error or a cancellation came, closed when any other response did, and
  -- half open when the request raised another exception.
  pub probe_settles : end.1.circuit.state ≡ state_after_probe end.0
  probe_settles = rw one_attempt (
      probe_attempt s on_event service method env p
        (attempt_loop s on_event service method env p 1 0 1) (env.attempt 1) first first-Awaits)

  -- If the request of a probe raises an exception that is no RequestError, the circuit waits for that
  -- probe for ever: at any later time every request is turned away and the circuit stays as it is.
  pub probe_lost :
      env.attempt 1 ≡ raised
      → (end.0 ≡ other_exception)
        × ((now : ℕ) → before_request s now end.1.circuit ≡ (rejected 1, end.1.circuit))
  probe_lost e =
      rw (one_attempt, e)
        (
          unfold after_attempt in refl,
          λ now. unfold after_attempt in Awaits-rejects s now p first.circuit first-Awaits,
        )
