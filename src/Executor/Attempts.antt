-- ===== src/Executor/Attempts.antt =====
-- How many requests one call makes, and which attempts are followed by another.
use secure_api_gateway.Prelude.{
  ℕ, zero, suc, ◌+◌, ◌≤◌, ◌<◌, ◌≡◌, ◌⊎◌, inl, inr, refl, true, false, String, arith, ltb,
  if◌then◌else◌, [], ◌∷◌, ◌++◌,
}
use secure_api_gateway.Prelude.Texts.{Text}
use secure_api_gateway.Circuit.{
  Settings, Permit, Circuit, Admission, admitted, rejected, before_request,
}
use secure_api_gateway.Executor.{
  ResilienceEvent, retry, Attempt, responded, errored, raised, cancelled, Finish, returned,
  loop_exited, Environment, Callback, Progress, emit_event, record_failure, record_neutral,
  record_success, retry_delay, sleep_then, after_attempt, attempt_loop, attempts_for, begin,
  execute_on,
}
use secure_api_gateway.Executor.Classify.{
  RequestError, is_connect, method_is_retryable, transport_error_is_retryable,
}
use mathlib.Core.Path.{subst}
use native.Mathlib.Decide.{ℕ_discrete, dec_lt}

retryable_parts :
    (method : Text) (e : RequestError)
    → transport_error_is_retryable method e ≡ true
    → (is_connect e ≡ true) × (method_is_retryable method ≡ true)
unfolding transport_error_is_retryable
retryable_parts method e h = ground arith

-- A result that is returned is that of the attempt `n`, and carries its number; the loop is not
-- left without a result.
abbrev pub Reports : ℕ → Attempt → Finish → Type 0
Reports n a (returned r m) = (m ≡ n) × (a ≡ responded r)
Reports n a loop_exited = ⊥
Reports n a _ = Unit

module _ (method : Text) (env : Environment) (max_attempts : ℕ) where
  -- The attempt `k` failed before a connection was made, and the method is safe to repeat.
  abbrev pub Retried : ℕ → Type 0
  Retried k =
      (e : RequestError) × (env.attempt k ≡ errored e)
      × (is_connect e ≡ true)
      × (method_is_retryable method ≡ true)

  -- What a loop that began after `a` attempts has done when it ends with `f` after `m` requests.
  pub record IsBounded (a m : ℕ) (f : Finish) : Type 0 where
    pub some_attempt : a < m
    pub within : m ≤ max_attempts
    pub retried : (k : ℕ) → a < k → k < m → Retried k
    pub reports : Reports m (env.attempt m) f

  IsBounded-last :
      (a m : ℕ) (f : Finish)
      → m ≡ a + 1
      → a + 1 ≤ max_attempts
      → Reports (a + 1) (env.attempt (a + 1)) f
      → IsBounded a m f
  IsBounded-last a m f e h r = record {
    some_attempt = omega arith;
    within = omega arith;
    retried = λ k above below. absurd (omega arith);
    reports = rw e r;
  }

  IsBounded-earlier :
      (a m : ℕ) (f : Finish) → Retried (a + 1) → IsBounded (a + 1) m f → IsBounded a m f
  IsBounded-earlier a m f first b = record {
    some_attempt = omega (arith, b.some_attempt);
    within = b.within;
    retried = λ k above below. elim (ℕ_discrete (a + 1) k) [
      | yes same ↦ subst Retried same first
      | no other ↦ b.retried k (omega arith) below
    ];
    reports = b.reports;
  }

module _ (s : Settings) (on_event : Callback) (service : String) where
  emit_event-requests :
      (e : ResilienceEvent) (st : Progress)
      → (emit_event s on_event service e st).requests ≡ st.requests
  unfolding emit_event
  emit_event-requests e st = ground arith

  record_failure-requests :
      (now : ℕ) (p : Permit) (st : Progress)
      → (record_failure s on_event service now p st).requests ≡ st.requests
  unfolding record_failure
  record_failure-requests now p st = ground arith

  record_neutral-requests :
      (now : ℕ) (p : Permit) (st : Progress)
      → (record_neutral s on_event service now p st).requests ≡ st.requests
  unfolding record_neutral
  record_neutral-requests now p st = ground arith

  record_success-requests :
      (p : Permit) (st : Progress) → (record_success s on_event service p st).requests ≡ st.requests
  unfolding record_success
  record_success-requests p st = ground arith

  module _ (method : Text) (env : Environment) (p : Permit) (max_attempts : ℕ) where
    -- The progress with which the next attempt begins, after the attempt n.
    next_progress : ℕ → Progress → Progress
    next_progress n st =
        if ltb 0 (retry_delay s n)
        then record (emit_event s on_event service retry st) {
          circuit = env.others_asleep n (emit_event s on_event service retry st).circuit;
          delays = (emit_event s on_event service retry st).delays ++ retry_delay s n ∷ [];
        }
        else emit_event s on_event service retry st

    -- An attempt is retried or ends the loop.
    after_attempt-cases :
        (n : ℕ) (again : Progress → Finish × Progress) (a : Attempt) (st : Progress)
        → ((e : RequestError) × (a ≡ errored e)
            × (transport_error_is_retryable method e ≡ true)
            × (n < max_attempts)
            × (after_attempt s on_event service method env p max_attempts n again a st
                ≡ again (next_progress n st)))
          ⊎ (((after_attempt s on_event service method env p max_attempts n again a st).1.requests
                ≡ st.requests)
              × Reports n a
                  (after_attempt s on_event service method env p max_attempts n again a st).0)
    unfolding after_attempt sleep_then next_progress
    after_attempt-cases n again (responded r) st = ground arith
    after_attempt-cases n again (errored e) st = ground arith
    after_attempt-cases n again raised st = ground arith
    after_attempt-cases n again cancelled st = ground arith

    next_progress-requests : (n : ℕ) (st : Progress) → (next_progress n st).requests ≡ st.requests
    unfolding next_progress
    next_progress-requests n st = ground (arith, emit_event-requests retry st)

    abbrev loop : ℕ → ℕ → Progress → Finish × Progress
    loop = attempt_loop s on_event service method env p max_attempts

    -- The progress when the attempt after `a` ends.
    abbrev awaited : ℕ → Progress → Progress
    awaited a st = record st { circuit = env.others (a + 1) st.circuit; requests = st.requests + 1 }

    attempt_loop-IsBounded :
        (rounds a : ℕ) (st : Progress)
        → a + suc rounds ≡ max_attempts
        → st.requests ≡ a
        → IsBounded method env max_attempts a
            (loop (suc rounds) a st).1.requests
            (loop (suc rounds) a st).0
    unfolding attempt_loop
    attempt_loop-IsBounded zero a st total same =
        elim (after_attempt-cases (a + 1) (loop zero (a + 1)) (env.attempt (a + 1))
          (awaited a st)) [
            | inl (e, is, can, room, goes_on) ↦ absurd (omega arith)
            | inr (count, reports) ↦
                IsBounded-last method env max_attempts a _ _ (omega arith) (omega arith) reports
          ]
    attempt_loop-IsBounded (suc rounds) a st total same =
        elim (after_attempt-cases (a + 1) (loop (suc rounds) (a + 1)) (env.attempt (a + 1))
          (awaited a st)) [
            | inl (e, is, can, room, goes_on) ↦
                let next = next_progress (a + 1) (awaited a st) in
                let ih : IsBounded method env max_attempts (a + 1)
                    (loop (suc rounds) (a + 1) next).1.requests (loop (suc rounds) (a + 1) next).0 =
                  attempt_loop-IsBounded rounds (a + 1) next (omega arith)
                    (omega (arith, next_progress-requests (a + 1) (awaited a st))) in
                rw (goes_on, attempt_loop)
                  (IsBounded-earlier method env max_attempts a _ _
                    (e, is, (retryable_parts method e can).0, (retryable_parts method e can).1) ih)
            | inr (count, reports) ↦
                IsBounded-last method env max_attempts a _ _ (omega arith) (omega arith) reports
          ]

start-IsBounded :
    (s : Settings) (on_event : Callback) (service : String) (method : Text) (env : Environment)
    (p : Permit) (m : ℕ) (st : Progress)
    → 1 ≤ m
    → st.requests ≡ 0
    → IsBounded method env m 0
        (attempt_loop s on_event service method env p m m 0 st).1.requests
        (attempt_loop s on_event service method env p m m 0 st).0
start-IsBounded s on_event service method env p zero st h z = absurd (omega arith)
start-IsBounded s on_event service method env p (suc m) st h z =
    attempt_loop-IsBounded s on_event service method env p (suc m) m 0 st (omega arith) z

pub admission-cases :
    (r : Admission × Circuit)
    → ((p : Permit) × (c : Circuit) × (r ≡ (admitted p, c)))
      ⊎ ((n : ℕ) × (c : Circuit) × (r ≡ (rejected n, c)))
admission-cases (admitted p, c) = inl (p, c, refl)
admission-cases (rejected n, c) = inr (n, c, refl)

-- A second request means that the method is safe to repeat.
IsBounded-unsafe :
    (method : Text) (env : Environment) (m n : ℕ) (f : Finish)
    → method_is_retryable method ≡ false
    → IsBounded method env m 0 n f
    → n ≤ 1
IsBounded-unsafe method env m n f unsafe b = elim (dec_lt 1 n) [
  | yes more ↦ let (e, is, connect, safe) = b.retried 1 (omega arith) more in cc
  | no once ↦ omega arith
]

module _ (s : Settings) (on_event : Callback) (service : String) (method : Text) (env : Environment)
    (c : Circuit) where
  abbrev end : Finish × Progress
  end = execute_on s on_event service method env c

  -- A call that is admitted makes at least one request and at most the attempts that it is allowed:
  -- one for a probe of a half-open circuit, else those of the settings. Each attempt but the last
  -- failed to connect, with a method that is safe to repeat. A response that is returned is that of
  -- the last attempt, with the number of requests made; the loop never ends without a result.
  pub execute_on-IsBounded :
      (p : Permit) (c' : Circuit)
      → 1 ≤ s.max_attempts
      → before_request s (env.clock 0) c ≡ (admitted p, c')
      → IsBounded method env (attempts_for s p) 0 end.1.requests end.0
  unfolding execute_on
  execute_on-IsBounded p c' some_max e =
      rw (e, execute_on)
        (start-IsBounded s on_event service method env p (attempts_for s p) (begin c')
          (ground arith) refl)

  -- A call with a method that is not safe to repeat makes at most one request.
  pub unsafe_once : 1 ≤ s.max_attempts → method_is_retryable method ≡ false → end.1.requests ≤ 1
  unfolding execute_on
  unsafe_once some_max unsafe = elim (admission-cases (before_request s (env.clock 0) c)) [
    | inl (p, c', e) ↦
        IsBounded-unsafe method env (attempts_for s p) _ end.0 unsafe
          (execute_on-IsBounded p c' some_max e)
    | inr (n, c', e) ↦ rw (e, execute_on) (unfold emit_event in ground arith)
  ]
