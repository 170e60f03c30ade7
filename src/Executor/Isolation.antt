-- ===== src/Executor/Isolation.antt =====
-- What one call cannot touch: the callback does not change the call, a call on one service does not
-- change the breaker of another, and an open circuit sends nothing to the upstream.
use secure_api_gateway.Prelude.{
  ℕ, zero, suc, ◌+◌, ◌*◌, ◌≤◌, ◌<◌, ◌≡◌, ◌≢◌, refl, String, arith, inl, inr, some, [], ◌∷◌, ◌++◌,
  Option-cases,
}
use secure_api_gateway.Prelude.Texts.{Text}
use secure_api_gateway.Circuit.{Settings, Permit, Circuit, before_request, opened, second}
use secure_api_gateway.Circuit.RetryAfter.{open_rejects}
use secure_api_gateway.Circuit.Registry.{Registry, find, find-update}
use secure_api_gateway.Executor.{
  ResilienceEvent, retry, Attempt, responded, errored, raised, cancelled, Finish,
  circuit_open_error, Environment, Callback, Progress, emit_event, record_failure, record_neutral,
  sleep_then, retry_delay, after_attempt, attempt_loop, attempts_for, begin, execute_on, execute,
}
use secure_api_gateway.Executor.Attempts.{admission-cases}
use text.Mathlib.TextEquality.{eq_iff}

-- Equal but for the calls of the callback.
pub record SameBut (a b : Progress) : Type 0 where
  pub circuit : a.circuit ≡ b.circuit
  pub requests : a.requests ≡ b.requests
  pub delays : a.delays ≡ b.delays

abbrev Same : Finish × Progress → Finish × Progress → Type 0
Same a b = (a.0 ≡ b.0) × SameBut a.1 b.1

module _ (s : Settings) (f g : Callback) (service : String) where
  emit_event-SameBut :
      (e : ResilienceEvent) (a b : Progress)
      → SameBut a b
      → SameBut (emit_event s f service e a) (emit_event s g service e b)
  unfolding emit_event
  emit_event-SameBut e a b h = ground arith

  record_failure-SameBut :
      (now : ℕ) (p : Permit) (a b : Progress)
      → SameBut a b
      → SameBut (record_failure s f service now p a) (record_failure s g service now p b)
  unfolding record_failure
  record_failure-SameBut now p a b h = ground arith

  record_neutral-SameBut :
      (now : ℕ) (p : Permit) (a b : Progress)
      → SameBut a b
      → SameBut (record_neutral s f service now p a) (record_neutral s g service now p b)
  unfolding record_neutral
  record_neutral-SameBut now p a b h = ground arith

  module _ (method : Text) (env : Environment) (p : Permit) (m : ℕ) where
    sleep_then-Same :
        (n : ℕ) (again again' : Progress → Finish × Progress) (a b : Progress)
        → ((a b : Progress) → SameBut a b → Same (again a) (again' b))
        → SameBut a b
        → Same
            (sleep_then s f service method env p m n again a)
            (sleep_then s g service method env p m n again' b)
    unfolding sleep_then
    sleep_then-Same n again again' a b ih h = ground (
      arith,
      ih a b,
      ih
          (record a {
            circuit = env.others_asleep n a.circuit;
            delays = a.delays ++ retry_delay s n ∷ [];
          })
          (record b {
            circuit = env.others_asleep n b.circuit;
            delays = b.delays ++ retry_delay s n ∷ [];
          }),
    )

    after_attempt-Same :
        (n : ℕ) (again again' : Progress → Finish × Progress) (x : Attempt) (a b : Progress)
        → ((a b : Progress) → SameBut a b → Same (again a) (again' b))
        → SameBut a b
        → Same
            (after_attempt s f service method env p m n again x a)
            (after_attempt s g service method env p m n again' x b)
    unfolding after_attempt
    after_attempt-Same n again again' (responded r) a b ih h = ground arith
    after_attempt-Same n again again' (errored e) a b ih h =
        let told = emit_event-SameBut retry a b h in
        ground (
          arith,
          sleep_then-Same n again again' (emit_event s f service retry a)
              (emit_event s g service retry b) ih told,
          record_failure-SameBut (env.clock n) p a b h,
          record_neutral-SameBut (env.clock n) p a b h,
        )
    after_attempt-Same n again again' raised a b ih h = (refl, h)
    after_attempt-Same n again again' cancelled a b ih h = ground arith

    attempt_loop-Same :
        (rounds a : ℕ) (st st' : Progress)
        → SameBut st st'
        → Same
            (attempt_loop s f service method env p m rounds a st)
            (attempt_loop s g service method env p m rounds a st')
    unfolding attempt_loop
    attempt_loop-Same zero a st st' h = (refl, h)
    attempt_loop-Same (suc rounds) a st st' h =
        after_attempt-Same (a + 1) _ _ (env.attempt (a + 1)) _ _ (attempt_loop-Same rounds (a + 1))
          (ground arith)

-- Two runs of a call that differ only in the callback end alike: the same result, the same state of
-- the breaker, as many requests and the same delays. So a callback that raises, or none, changes
-- nothing.
pub callback_irrelevant :
    (s : Settings) (f g : Callback) (service : String) (method : Text) (env : Environment)
    (c : Circuit)
    → ((execute_on s f service method env c).0 ≡ (execute_on s g service method env c).0)
      × SameBut (execute_on s f service method env c).1 (execute_on s g service method env c).1
unfolding execute_on
callback_irrelevant s f g service method env c =
    elim (admission-cases (before_request s (env.clock 0) c)) [
      | inl (p, c', e) ↦
          rw (e, execute_on)
            (attempt_loop-Same s f g service method env p (attempts_for s p) (attempts_for s p) 0
              (begin c') (begin c') (record { circuit = refl; requests = refl; delays = refl }))
      | inr (n, c', e) ↦ rw (e, execute_on) (unfold emit_event in ground arith)
    ]

-- Until the recovery timeout has passed since the circuit of a service opened, a call on it sends no
-- request and does not wait: it ends with the error that tells how long the circuit stays open, and
-- the circuit is unchanged.
pub open_fails_fast :
    (s : Settings) (on_event : Callback) (service : String) (method : Text) (env : Environment)
    (c : Circuit) (t : ℕ)
    → c.state ≡ opened
    → c.opened_at ≡ some t
    → env.clock 0 < t + s.recovery_timeout
    → let (f, end) = execute_on s on_event service method env c in
      (r : ℕ) × (f ≡ circuit_open_error r)
      × (t + s.recovery_timeout ≤ env.clock 0 + r * second)
      × (end.circuit ≡ c)
      × (end.requests ≡ 0)
      × (end.delays ≡ [])
unfolding execute_on
open_fails_fast s on_event service method env c t h since early =
    let (r, e, reaches, least, same) = open_rejects s (env.clock 0) t c h since early in
    (
      r,
      rw (e, execute_on) refl,
      reaches,
      rw (e, execute_on) (unfold emit_event in ground arith),
      rw (e, execute_on) (unfold emit_event in ground arith),
      rw (e, execute_on) (unfold emit_event in ground arith),
    )

-- A call on a service of the registry leaves the breaker of every other service as it was, and that
-- of its own service in the state in which the call ended.
pub execute-find :
    (s : Settings) (on_event : Callback) (service : String) (method : Text) (env : Environment)
    (r r' : Registry) (f : Finish) (end : Progress)
    → execute s on_event service method env r ≡ some (f, end, r')
    → ((other : String) → service ≢ other → find other r' ≡ find other r)
      × (find service r' ≡ some end.circuit)
unfolding execute
execute-find s on_event service method env r r' f end e = elim (Option-cases (find service r)) [
  | inl missing ↦ ground arith
  | inr (c, found) ↦
      let step = λ (o : String).
        find-update service o (λ _. (execute_on s on_event service method env c).1.circuit) r in
      (
        λ other ne. ground (arith, step other, eq_iff service other),
        ground (arith, step service, eq_iff service service),
      )
]
