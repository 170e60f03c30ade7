-- ===== src/Login/Client/Decisions.antt =====
-- What the login protection decides from the replies of Redis.
use secure_api_gateway.Prelude.{
  ℕ, ◌+◌, ◌-◌, ◌*◌, ◌≤◌, ◌<◌, ◌≡◌, ◌≢◌, false, some, String, List, [], ◌∷◌, ◌∙◌, ap, ltb, arith,
  refl, if◌then◌else◌, ceil_div,
}
use secure_api_gateway.Prelude.Int.{ℤ, pos}
use text.Mathlib.TextLemmas.{append_cancel_left}
use secure_api_gateway.Redis.{Redis}
use secure_api_gateway.Http.{
  Result, ok, raised, login_protection_backend_error, Action, lift, ◌>>=◌,
}
use secure_api_gateway.Login.{Reply}
use secure_api_gateway.Login.Account.{Account, fail, settle}
use secure_api_gateway.Login.Scripts.{view, report, lock_status-refines, record_failure-refines}
use secure_api_gateway.Login.Client.{
  Policy, IsAllowed, Decision, Raw, several, decide_values, parse_decision, Fault, answered,
  lost_request, lost_reply, Identity, build_key, canonicalize_login_identifier, read_clock,
  status_script, failure_script, reset_script, raw_of, Backend, evaluate, check_lock,
  record_failure, reset,
}

-- The seconds of a delay cover its milliseconds, and one second less does not.
abbrev pub Covers : ℕ → ℕ → Type 0
Covers seconds ms = (ms ≤ seconds * 1000) × (seconds * 1000 < ms + 1000)

-- A decision that agrees with itself, or the error of the backend.
abbrev pub IsDecided : Result Decision → Type 0
IsDecided (ok d) = d.locked ≡ false → d.retry_after_seconds ≡ 0
IsDecided (raised e) = e ≡ login_protection_backend_error

decide_values-IsDecided : (a b c : ℤ) → IsDecided (decide_values a b c)
unfolding decide_values
decide_values-IsDecided a b c = ground arith

-- Whatever Redis sends back, the client takes it for a decision in which an open account has no
-- delay, or raises the error of the backend, and no other exception.
pub parse_decision-IsDecided : (raw : Raw) → IsDecided (parse_decision raw)
unfolding parse_decision
parse_decision-IsDecided (several (some a ∷ some b ∷ some c ∷ [])) = decide_values-IsDecided a b c
parse_decision-IsDecided _ = refl

-- The decision that tells an account at a time.
unfoldable pub decision : ℕ → Account → Decision
decision now a = record {
  locked = ltb now a.locked_until;
  failures = a.failures;
  retry_after_seconds = if ltb now a.locked_until then ceil_div (a.locked_until - now) 1000 else 0;
}

-- The delay of a locked account covers the rest of its lock.
decision-Covers :
    (now : ℕ) (a : Account)
    → now < a.locked_until
    → Covers (decision now a).retry_after_seconds (a.locked_until - now)
unfolding decision ceil_div
decision-Covers now a h = (ground arith, ground arith)

read_reply : Reply → Result Decision
read_reply r = elim (raw_of r) [ ok raw ↦ parse_decision raw | raised e ↦ raised e ]

read-report : (now : ℕ) (a : Account) → read_reply (report now a) ≡ ok (decision now a)
unfolding read_reply report raw_of parse_decision decision ceil_div
read-report now a = ground arith

-- The next call of Redis is answered.
abbrev pub IsReachable : List Fault → Type 0
IsReachable [] = Unit
IsReachable (answered ∷ fs) = Unit
IsReachable (f ∷ fs) = ⊥

abbrev pub IsUnreachable : List Fault → Type 0
IsUnreachable [] = ⊥
IsUnreachable (answered ∷ fs) = ⊥
IsUnreachable (f ∷ fs) = Unit

module _ (redis : Redis) where
  evaluate-reachable :
      (script : redis.Store → Result Raw × redis.Store) (fs : List Fault) (b : Backend redis)
      → b.faults ≡ fs
      → IsReachable fs
      → ((evaluate redis script b).0 ≡ (script b.store).0)
        × ((evaluate redis script b).1.store ≡ (script b.store).1)
  unfolding evaluate
  evaluate-reachable script [] b e h = ground arith
  evaluate-reachable script (answered ∷ fs) b e h = ground arith
  evaluate-reachable script (lost_request ∷ fs) b e h = absurd h
  evaluate-reachable script (lost_reply ∷ fs) b e h = absurd h

  evaluate-unreachable :
      (script : redis.Store → Result Raw × redis.Store) (fs : List Fault) (b : Backend redis)
      → b.faults ≡ fs
      → IsUnreachable fs
      → (evaluate redis script b).0 ≡ raised login_protection_backend_error
  unfolding evaluate
  evaluate-unreachable script [] b e h = absurd h
  evaluate-unreachable script (answered ∷ fs) b e h = absurd h
  evaluate-unreachable script (lost_request ∷ fs) b e h = ground arith
  evaluate-unreachable script (lost_reply ∷ fs) b e h = ground arith

  abbrev ask : (redis.Store → Result Raw × redis.Store) → Action (Backend redis) Decision
  ask script = evaluate redis script >>= λ raw. lift (parse_decision raw)

  ask-reachable :
      (script : redis.Store → Result Raw × redis.Store) (b : Backend redis) (now : ℕ) (a : Account)
      → IsReachable b.faults
      → (script b.store).0 ≡ raw_of (report now a)
      → ((ask script b).0 ≡ ok (decision now a)) × ((ask script b).1.store ≡ (script b.store).1)
  unfolding read_reply
  ask-reachable script b now a h e =
      let (told, left) = evaluate-reachable script b.faults b refl h in
      ground (arith, told, left, e, read-report now a)

  ask-unreachable :
      (script : redis.Store → Result Raw × redis.Store) (b : Backend redis)
      → IsUnreachable b.faults
      → (ask script b).0 ≡ raised login_protection_backend_error
  ask-unreachable script b h = ground (arith, evaluate-unreachable script b.faults b refl h)

  module _ (i : Identity) (key_prefix : String) (identifier : String) (p : Policy)
      (b : Backend redis) where
    abbrev account_key : String
    account_key = build_key i key_prefix identifier p

    -- Asking for the lock while Redis answers gives the decision that tells the account at the time
    -- of the clock, the account being what the store then holds; no other account changes.
    pub check_lock-decides :
        (now : ℕ)
        → IsReachable b.faults
        → let (r, b') = check_lock redis i key_prefix (pos now) identifier p b in
          (r ≡ ok (decision now (settle now (view redis b.store account_key))))
          × (view redis b'.store account_key ≡ settle now (view redis b.store account_key))
          × ((other : String)
              → account_key ≢ other
              → view redis b'.store other ≡ view redis b.store other)
    unfolding check_lock read_clock
    check_lock-decides now h =
        let (same, told, elsewhere) = lock_status-refines redis account_key now b.store in
        let (r, left) =
          ask-reachable (status_script redis i key_prefix (pos now) identifier p now) b now
            (settle now (view redis b.store account_key)) h
            (ap raw_of (told ∙ ap (report now) same)) in
        (r, cc (left, same), λ other ne. cc (left, elsewhere other ne))

    -- Recording a failure by an allowed policy while Redis answers gives the decision that tells
    -- the account after the failure, which is what the store then holds; no other account
    -- changes.
    pub record_failure-decides :
        (now : ℕ)
        → IsAllowed p
        → IsReachable b.faults
        → let (r, b') = record_failure redis i key_prefix (pos now) identifier p b in
          let a =
            fail p.failure_threshold now
              (p.lockout_seconds * 1000)
              (view redis b.store account_key) in
          (r ≡ ok (decision now a))
          × (view redis b'.store account_key ≡ a)
          × ((other : String)
              → account_key ≢ other
              → view redis b'.store other ≡ view redis b.store other)
    unfolding record_failure read_clock
    record_failure-decides now allowed h =
        let (same, told, elsewhere) =
          record_failure-refines redis account_key p.failure_threshold now
            (p.failure_window_seconds * 1000) (p.lockout_seconds * 1000) b.store (omega arith)
            (omega arith) (omega arith) in
        let (r, left) =
          ask-reachable (failure_script redis i key_prefix (pos now) identifier p now) b now
            (fail p.failure_threshold now (p.lockout_seconds * 1000)
              (view redis b.store account_key))
            h (ap raw_of (told ∙ ap (report now) same)) in
        (r, cc (left, same), λ other ne. cc (left, elsewhere other ne))

    -- When a call of Redis fails, before or after its script ran, no decision is made: each of the
    -- three operations raises the error of the backend.
    pub unreachable_fails_closed :
        (now : ℕ)
        → IsUnreachable b.faults
        → ((check_lock redis i key_prefix (pos now) identifier p b).0
            ≡ raised login_protection_backend_error)
          × ((record_failure redis i key_prefix (pos now) identifier p b).0
              ≡ raised login_protection_backend_error)
          × ((reset redis i key_prefix (pos now) identifier p b).0
              ≡ raised login_protection_backend_error)
    unfolding check_lock record_failure reset read_clock
    unreachable_fails_closed now h = (
      ask-unreachable (status_script redis i key_prefix (pos now) identifier p now) b h,
      ask-unreachable (failure_script redis i key_prefix (pos now) identifier p now) b h,
      ground (
        arith,
        evaluate-unreachable (reset_script redis i key_prefix (pos now) identifier p) b.faults b
            refl h,
      ),
    )

-- Accounts whose identifiers have different digests are kept under different keys of a policy.
pub build_key_apart :
    (i : Identity) (key_prefix : String) (a b : String) (p : Policy)
    → i.digest (canonicalize_login_identifier i a) ≢ i.digest (canonicalize_login_identifier i b)
    → build_key i key_prefix a p ≢ build_key i key_prefix b p
unfolding build_key
build_key_apart i key_prefix a b p ne e = ne (
    append_cancel_left ":" _ _ (
      append_cancel_left p.name _ _ (
        append_cancel_left ":" _ _
          (append_cancel_left ":login-protection" _ _ (append_cancel_left key_prefix _ _ e)))))
