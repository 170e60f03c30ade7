-- ===== src/RateLimit/Bucket/Retry.antt =====
-- When a request that was refused is allowed.
use secure_api_gateway.Prelude.{
  ℕ, ◌+◌, ◌-◌, ◌*◌, ◌≤◌, ◌≡◌, false, String, leb, ceil_div, if◌then◌else◌, arith, ap, sym, ◌∙◌,
  Bool-cases, inl, inr,
}
use native.Mathlib.Nat.{mul-le-mul_right}
use secure_api_gateway.Redis.{Redis}
use secure_api_gateway.RateLimit.Bucket.{
  Policy, unit, state_ttl_seconds, Reply, reply, error_reply, token_bucket,
}
use secure_api_gateway.RateLimit.Bucket.Level.{level, refilled_exact}
use secure_api_gateway.RateLimit.Bucket.Scripts.{view, report, IsUsable, token_bucket-refines}
use secure_api_gateway.RateLimit.Bucket.Aging.{IsPrompt, next-level}

-- What a reply says of the request: 1 when it is allowed.
abbrev pub allowed_of : Reply → ℕ
allowed_of (reply allowed tokens retry reset) = allowed
allowed_of (error_reply message) = 0

report-allowed :
    (full refill requested here : ℕ)
    → allowed_of (report full refill requested here) ≡ (if leb requested here then 1 else 0)
unfolding report
report-allowed full refill requested here = ground arith

-- A reply that refuses tells how long the refill of what is missing takes.
report-refused :
    (full refill requested here tokens retry reset : ℕ)
    → report full refill requested here ≡ reply 0 tokens retry reset
    → (leb requested here ≡ false) × (retry ≡ ceil_div (requested - here) refill)
unfolding report
report-refused full refill requested here tokens retry reset h =
    elim (Bool-cases (leb requested here)) [
      | inl e ↦ ground (arith, h, e)
      | inr e ↦ (e, ground (arith, h, e))
    ]

-- A request that the script refuses is allowed by it, if no other comes before, once the delay that
-- it replied has passed by the gateway's clock, and not a millisecond earlier. The cost is at most
-- the capacity, the key has the lifetime that the policy gives it, and the clocks are prompt: the key
-- does not expire, or no more time passes in Redis than twice what the gateway's clock moves forward.
pub retry-exact :
    (redis : Redis) (key : String) (p : Policy) (now later elapsed tokens retry reset : ℕ)
    (st : redis.Store)
    → IsUsable redis p (state_ttl_seconds p * 1000)
    → p.cost ≤ p.capacity
    → (token_bucket redis key p now (state_ttl_seconds p * 1000) st).0 ≡ reply 0 tokens retry reset
    → now ≤ later
    → IsPrompt p elapsed now later
    → let left_there = (token_bucket redis key p now (state_ttl_seconds p * 1000) st).1 in
      allowed_of
        (token_bucket redis key p later
          (state_ttl_seconds p * 1000)
          (redis.wait elapsed left_there)).0
      ≡ (if leb (now + retry) later then 1 else 0)
retry-exact redis key p now later elapsed tokens retry reset st u fits refused onward prompt =
    let ms = state_ttl_seconds p * 1000 in
    let full = p.capacity * unit p in
    let requested = p.cost * unit p in
    let (_, told, _) = token_bucket-refines redis key p now ms st u in
    let here = level full p.numerator now (view redis st key) in
    let (short, delay) =
      report-refused full p.numerator requested here tokens retry reset (sym told ∙ refused) in
    let aged = redis.wait elapsed (token_bucket redis key p now ms st).1 in
    let (_, answer, _) = token_bucket-refines redis key p later ms aged u in
    let there = next-level redis key p elapsed now later st u prompt in
    let exact =
      refilled_exact full p.numerator requested now later (view redis st key) u.rate
        (mul-le-mul_right (unit p) fits) short onward in
    ap allowed_of answer
    ∙ report-allowed full p.numerator requested (level full p.numerator later (view redis aged key))
    ∙ ap (λ b. if b then 1 else 0)
        (ap (leb requested) there ∙ exact ∙ ap (λ d. leb (now + d) later) (sym delay))
