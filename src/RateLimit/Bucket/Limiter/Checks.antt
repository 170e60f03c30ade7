-- ===== src/RateLimit/Bucket/Limiter/Checks.antt =====
-- What the limiter decides, and that it fails closed.
use secure_api_gateway.Prelude.{
  ℕ, ◌-◌, ◌*◌, ◌/◌, ◌<◌, ◌≡◌, ◌≢◌, min, true, false, some, String, List, ◌∷◌, ltb, leb,
  if◌then◌else◌, ceil_div, arith, refl, Bool-cases, inl, inr, ap,
}
use secure_api_gateway.Prelude.Int.{pos}
use secure_api_gateway.Prelude.Texts.{strip_string, is_empty}
use secure_api_gateway.Redis.{Redis}
use secure_api_gateway.Http.{ok, raised, rate_limit_backend_error, Result, Result-cases}
use secure_api_gateway.Login.Client.{Fault, answered, lost_request, lost_reply, read_clock}
use secure_api_gateway.RateLimit.{RateLimitDecision, decision_valid}
use secure_api_gateway.RateLimit.Bucket.{
  Policy, unit, state_ttl_seconds, Reply, policy_valid, token_bucket,
}
use secure_api_gateway.RateLimit.Bucket.Level.{level, left}
use secure_api_gateway.RateLimit.Bucket.Scripts.{view, report, IsUsable, token_bucket-refines}
use secure_api_gateway.RateLimit.Bucket.Limiter.{
  remaining_of, make_decision, decide_values, parse_result, build_key, raw_of, treat, evaluate_with,
  script_call, run_script, check,
}

-- The decision about a request, of what is in its bucket.
abbrev pub decision_of : Policy → ℕ → RateLimitDecision
decision_of p here =
    let full = p.capacity * unit p in
    let requested = p.cost * unit p in
    let rest = if leb requested here then here - requested else here in
    record {
      allowed = leb requested here;
      limit = p.capacity;
      remaining = min p.capacity (rest / unit p);
      retry_after_seconds =
          if leb requested here then 0 else ceil_div (ceil_div (requested - here) p.numerator) 1000;
      reset_after_seconds = ceil_div (ceil_div (full - rest) p.numerator) 1000;
    }

-- The script accepts a policy that RateLimitPolicy accepts.
pub valid-usable :
    (redis : Redis) (p : Policy)
    → policy_valid p ≡ true
    → IsUsable redis p (state_ttl_seconds p * 1000)
unfolding policy_valid state_ttl_seconds
valid-usable redis p h = record {
  capacity = ground (arith, h);
  rate = ground (arith, h);
  cost = ground (arith, h);
  ttl_positive = ground (arith, h);
}

min_below : (a b : ℕ) → leb (min a b) a ≡ true
min_below a b = ground arith

-- A reply, as it is read.
abbrev read : Policy → Reply → Result RateLimitDecision
read p r = elim (raw_of p r) [ ok raw ↦ parse_result p raw | raised e ↦ raised e ]

-- The reply for a bucket is read as the decision.
report-decision :
    (p : Policy) (here : ℕ)
    → 0 < p.capacity
    → read p (report (p.capacity * unit p) p.numerator (p.cost * unit p) here)
      ≡ ok (decision_of p here)
unfolding report raw_of parse_result decide_values make_decision remaining_of decision_valid
report-decision p here positive =
    let some_limit : ltb 0 p.capacity ≡ true = ground (arith, positive) in
    elim (Bool-cases (leb (p.cost * unit p) here)) [
      | inl e ↦ rw (e, some_limit, min_below p.capacity ((here - p.cost * unit p) / unit p)) refl
      | inr e ↦ rw (e, some_limit, min_below p.capacity (here / unit p)) refl
    ]

module _ (redis : Redis) (digest : String → String) (key_prefix : String) (p : Policy) where
  run_answered :
      (identity : String) (now : ℕ) (st : redis.Store) (rest : List Fault)
      → let (r, after) =
          token_bucket redis
            (build_key digest key_prefix identity p)
            p
            now
            (state_ttl_seconds p * 1000)
            st in
        run_script redis digest key_prefix p
          (pos now)
          identity
          (record { store = st; faults = answered ∷ rest })
        ≡ (read p r, record { store = after; faults = rest })
  unfolding run_script script_call evaluate_with treat read_clock
  run_answered identity now st rest =
      let (r, after) =
        token_bucket redis (build_key digest key_prefix identity p) p now
          (state_ttl_seconds p * 1000) st in
      ground (arith, Result-cases (raw_of p r))

  -- A call that is answered decides, and the store is the one that the script leaves.
  pub check-answered :
      (identity : String) (now : ℕ) (st : redis.Store) (rest : List Fault)
      → policy_valid p ≡ true
      → is_empty (strip_string identity) ≡ false
      → let key = build_key digest key_prefix (strip_string identity) p in
        let full = p.capacity * unit p in
        check redis digest key_prefix p
          (pos now)
          identity
          (record { store = st; faults = answered ∷ rest })
        ≡ (
          ok (decision_of p (level full p.numerator now (view redis st key))),
          record {
            store = (token_bucket redis key p now (state_ttl_seconds p * 1000) st).1;
            faults = rest;
          },
        )
  unfolding check
  check-answered identity now st rest valid given =
      let usable = valid-usable redis p valid in
      let key = build_key digest key_prefix (strip_string identity) p in
      let ttl = state_ttl_seconds p * 1000 in
      let (_, r, _) = token_bucket-refines redis key p now ttl st usable in
      let here = level (p.capacity * unit p) p.numerator now (view redis st key) in
      rw (given, if◌then◌else◌, run_answered (strip_string identity) now st rest, r)
        (ap
          (λ told.
            (told, record { store = (token_bucket redis key p now ttl st).1; faults = rest }))
          (report-decision p here usable.capacity))

  -- A call of Redis that is answered gives the decision for what is in the bucket at the time of
  -- the clock, and stores what the request leaves; it never raises. The identity is not empty and
  -- the policy is one that RateLimitPolicy accepts.
  pub check-decides :
      (identity : String) (now : ℕ) (st : redis.Store) (rest : List Fault)
      → policy_valid p ≡ true
      → is_empty (strip_string identity) ≡ false
      → let key = build_key digest key_prefix (strip_string identity) p in
        let full = p.capacity * unit p in
        let requested = p.cost * unit p in
        let (r, b) =
          check redis digest key_prefix p
            (pos now)
            identity
            (record { store = st; faults = answered ∷ rest }) in
        (r ≡ ok (decision_of p (level full p.numerator now (view redis st key))))
        × (view redis b.store key
            ≡ some (record {
              tokens = left full p.numerator requested now (view redis st key);
              last_refill = now;
            }))
        × (b.faults ≡ rest)
        × ((other : String) → key ≢ other → view redis b.store other ≡ view redis st other)
  unfolding check
  check-decides identity now st rest valid given =
      let usable = valid-usable redis p valid in
      let key = build_key digest key_prefix (strip_string identity) p in
      let (after, r, others) =
        token_bucket-refines redis key p now (state_ttl_seconds p * 1000) st usable in
      let here = level (p.capacity * unit p) p.numerator now (view redis st key) in
      let told = report-decision p here usable.capacity in
      rw (given, if◌then◌else◌, run_answered (strip_string identity) now st rest, r)
        (told, after, refl, others)

  -- When a call of Redis fails, before or after the script ran, no decision is made: the error of
  -- the backend is raised, for every identity that is not empty.
  pub check_fails_closed :
      (identity : String) (now : ℕ) (st : redis.Store) (fault : Fault) (rest : List Fault)
      → fault ≢ answered
      → is_empty (strip_string identity) ≡ false
      → (check redis digest key_prefix p
          (pos now)
          identity
          (record { store = st; faults = fault ∷ rest })).0
        ≡ raised rate_limit_backend_error
  unfolding check run_script evaluate_with treat read_clock
  check_fails_closed identity now st answered rest failed given = ground (arith, failed)
  check_fails_closed identity now st lost_request rest failed given = rw given refl
  check_fails_closed identity now st lost_reply rest failed given = rw given refl
