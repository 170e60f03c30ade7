-- ===== src/RateLimit/Bucket/Admitted.antt =====
-- How many requests of one caller the limiter admits.
use secure_api_gateway.Prelude.{
  ℕ, ◌+◌, ◌-◌, ◌*◌, ◌≤◌, ◌≡◌, true, false, Option, some, String, List, [], ◌∷◌, leb, arith,
  Bool-cases, inl, inr, leb→le, if◌then◌else◌, ap,
}
use native.Mathlib.Nat.{add-mul}
use secure_api_gateway.Prelude.Int.{pos}
use secure_api_gateway.Prelude.Texts.{strip_string, is_empty}
use secure_api_gateway.Redis.{Redis}
use secure_api_gateway.Http.{Result, ok, raised}
use secure_api_gateway.Login.Client.{answered}
use secure_api_gateway.RateLimit.{RateLimitDecision}
use secure_api_gateway.RateLimit.Bucket.{
  Policy, unit, state_ttl_seconds, policy_valid, token_bucket,
}
use secure_api_gateway.RateLimit.Bucket.Level.{Bucket, level, left, level_bounded}
use secure_api_gateway.RateLimit.Bucket.Scripts.{view}
use secure_api_gateway.RateLimit.Bucket.Aging.{IsPrompt, next-level}
use secure_api_gateway.RateLimit.Bucket.Limiter.{build_key, check}
use secure_api_gateway.RateLimit.Bucket.Limiter.Checks.{decision_of, valid-usable, check-answered}

-- 1 when the request is allowed.
abbrev pub counted : Result RateLimitDecision → ℕ
counted (ok d) = if d.allowed then 1 else 0
counted (raised e) = 0

-- A request: what passed in Redis since the one before, and its time by the gateway's clock.
abbrev pub Request : Type 0
Request = ℕ × ℕ

-- How long the gateway's clock ran forward over the requests after `last`.
unfoldable pub forward : ℕ → List Request → ℕ
forward last [] = 0
forward last ((elapsed, now) ∷ requests) = (now - last) + forward now requests

-- Each request is prompt after the one before.
abbrev pub ArePrompt : Policy → ℕ → List Request → Type 0
ArePrompt p last [] = Unit
ArePrompt p last ((elapsed, now) ∷ requests) =
    IsPrompt p elapsed last now × ArePrompt p now requests

-- What one request takes: what is left and what it spent were there.
spent :
    (p : Policy) (now : ℕ) (b : Option Bucket)
    → let full = p.capacity * unit p in
      counted (ok (decision_of p (level full p.numerator now b))) * (p.cost * unit p)
        + left full p.numerator (p.cost * unit p) now b
      ≡ level full p.numerator now b
unfolding left
spent p now b =
    let here = level (p.capacity * unit p) p.numerator now b in
    elim (Bool-cases (leb (p.cost * unit p) here)) [
      | inl e ↦ rw e (omega (arith, leb→le (p.cost * unit p) here e))
      | inr e ↦ rw e (omega arith)
    ]

-- What is there later of what a request left.
level-left :
    (full refill tokens now later : ℕ)
    → level full refill later (some (record { tokens = tokens; last_refill = now }))
      ≤ tokens + (later - now) * refill
unfolding level
level-left full refill tokens now later = omega arith

module _ (redis : Redis) (digest : String → String) (key_prefix : String) (p : Policy)
    (identity : String) where
  -- How many of these requests are allowed, from a store on.
  unfoldable pub admitted : List Request → redis.Store → ℕ
  admitted [] st = 0
  admitted ((elapsed, now) ∷ requests) st =
      let (r, b) =
        check redis digest key_prefix p (pos now) identity
          (record { store = redis.wait elapsed st; faults = answered ∷ [] }) in
      counted r + admitted requests b.store

  abbrev key : String
  key = build_key digest key_prefix (strip_string identity) p

  abbrev full : ℕ
  full = p.capacity * unit p

  abbrev requested : ℕ
  requested = p.cost * unit p

  abbrev script : ℕ → redis.Store → redis.Store
  script now st = (token_bucket redis key p now (state_ttl_seconds p * 1000) st).1

  module _ (valid : policy_valid p ≡ true) (given : is_empty (strip_string identity) ≡ false) where
    -- One request, and those after it.
    admitted-step :
        (elapsed now : ℕ) (requests : List Request) (st : redis.Store)
        → let there = redis.wait elapsed st in
          admitted ((elapsed, now) ∷ requests) st
          ≡ counted (ok (decision_of p (level full p.numerator now (view redis there key))))
            + admitted requests (script now there)
    unfolding admitted
    admitted-step elapsed now requests st =
        ap (λ rb. counted rb.0 + admitted requests rb.1.store)
          (check-answered redis digest key_prefix p identity now (redis.wait elapsed st) [] valid
            given)

    -- The requests spend at most what was there at the first and what the clock added since.
    admitted_bounded :
        (elapsed now : ℕ) (requests : List Request) (st : redis.Store)
        → ArePrompt p now requests
        → admitted ((elapsed, now) ∷ requests) st * requested
          ≤ level full p.numerator now (view redis (redis.wait elapsed st) key)
            + forward now requests * p.numerator
    unfolding forward admitted
    admitted_bounded elapsed now [] st prompt =
        let here = spent p now (view redis (redis.wait elapsed st) key) in
        rw (admitted-step elapsed now [] st) (omega (arith, here))
    admitted_bounded elapsed now ((passed, later) ∷ requests) st prompt =
        let there = redis.wait elapsed st in
        let here = spent p now (view redis there key) in
        let rest = admitted_bounded passed later requests (script now there) prompt.1 in
        let found =
          next-level redis key p passed now later there (valid-usable redis p valid) prompt.0 in
        let grown =
          level-left full p.numerator (left full p.numerator requested now (view redis there key))
            now later in
        let a = counted (ok (decision_of p (level full p.numerator now (view redis there key)))) in
        let n = admitted ((passed, later) ∷ requests) (script now there) in
        rw (admitted-step elapsed now ((passed, later) ∷ requests) st) (
          omega (
            arith,
            here,
            rw found at rest,
            grown,
            add-mul a n requested,
            add-mul (later - now) (forward later requests) p.numerator,
          ))

  -- Whatever the times of its requests and whatever the store held before, the limiter admits requests
  -- of one identity that cost no more than the capacity and what the bucket is refilled with while
  -- the gateway's clock runs forward, also across the expiry of its key. The policy is one that
  -- RateLimitPolicy accepts, the identity is not blank, Redis answers, and the clocks are prompt:
  -- between two requests the key does not expire, or no more time passes in Redis than twice what
  -- the gateway's clock moves forward. (In units: a token has 1000 times the denominator of the
  -- rate, and a millisecond adds the numerator.)
  pub admitted-capacity :
      policy_valid p ≡ true
      → is_empty (strip_string identity) ≡ false
      → (elapsed now : ℕ) (requests : List Request) (st : redis.Store) → ArePrompt p now requests
      → admitted ((elapsed, now) ∷ requests) st * requested
        ≤ full + forward now requests * p.numerator
  admitted-capacity valid given elapsed now requests st prompt = omega (
    arith,
    admitted_bounded valid given elapsed now requests st prompt,
    level_bounded full p.numerator requested now (view redis (redis.wait elapsed st) key),
  )
