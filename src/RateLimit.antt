-- ===== src/RateLimit.antt =====
-- Rate limits: the decision of gateway/app/rate_limit/models.py, the headers and the checks that
-- gateway/app/rate_limit/dependencies.py and login_dependencies.py make of it. To them the limiter is
-- a service that answers with a decision or an exception; Bucket has the one over Redis.
pub mod Dependencies
pub mod Enforcement
pub mod Bucket
pub mod Config
mod Examples
use secure_api_gateway.Prelude.{
  ℕ, ◌≡◌, ◌≤◌, Bool, true, false, not, ◌&&◌, ◌||◌, ltb, leb, ◌==◌, if◌then◌else◌, String, List, [],
  ◌∷◌, max,
}
use secure_api_gateway.Prelude.Dict.{Dict}
use secure_api_gateway.Http.{
  HeaderValue, number, word, HttpException, Result, ok, raised, value_error,
}

pub record RateLimitDecision : Type 0 where
  pub allowed : Bool
  pub limit : ℕ
  pub remaining : ℕ
  pub retry_after_seconds : ℕ
  pub reset_after_seconds : ℕ

-- Whether RateLimitDecision accepts its fields.
unfoldable pub decision_valid : RateLimitDecision → Bool
decision_valid d =
    ltb 0 d.limit && leb d.remaining d.limit && not (d.allowed && not (d.retry_after_seconds == 0))

unfoldable pub build_rate_limit_headers : RateLimitDecision → Dict HeaderValue
build_rate_limit_headers d =
    ("X-RateLimit-Limit", number d.limit)
    ∷ ("X-RateLimit-Remaining", number d.remaining)
    ∷ ("X-RateLimit-Reset", number d.reset_after_seconds)
    ∷ (if d.allowed then [] else ("Retry-After", number (max 1 d.retry_after_seconds)) ∷ [])
