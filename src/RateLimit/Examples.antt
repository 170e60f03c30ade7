-- ===== src/RateLimit/Examples.antt =====
-- Tests of the checks of the rate limit, and their theorems at concrete inputs.
use secure_api_gateway.Prelude.{ℕ, zero, suc, ◌≡◌, inl, inr, true, false, some, [], ◌∷◌, refl}
use secure_api_gateway.Prelude.Dict.{put}
use secure_api_gateway.Prelude.Texts.{
  text, is_stripped, starts_with_space, ends_with_space, is_space,
}
use secure_api_gateway.Redis.Memory.{vacant}
use secure_api_gateway.Http.{ok, raised, http, Action, number, value_error}
use secure_api_gateway.Audit.{optional_code_valid}
use secure_api_gateway.Audit.Recording.{KeepsContract}
use secure_api_gateway.World.{count_decision, World}
use secure_api_gateway.RateLimit.{RateLimitDecision, build_rate_limit_headers}
use secure_api_gateway.RateLimit.Dependencies.{
  too_many_authentication_attempts, enforce, enforce_login_ip_rate_limit, enforce_proxy_rate_limit,
}
use secure_api_gateway.RateLimit.Enforcement.{only_allowed_pass, unrecordable_service}
use secure_api_gateway.Fixtures.{parse_uuid, post_request, trusted_post, services, world_of}

abbrev rejection : RateLimitDecision
rejection = record {
  allowed = false;
  limit = 10;
  remaining = 0;
  retry_after_seconds = 0;
  reset_after_seconds = 50;
}

abbrev allowance : RateLimitDecision
allowance = record rejection { allowed = true; remaining = 4 }

-- A limiter with so many tokens.
abbrev limiter : Action ℕ RateLimitDecision
limiter zero = (ok rejection, 0)
limiter (suc n) = (ok allowance, n)

abbrev rejects : Action ℕ RateLimitDecision
rejects n = (ok rejection, n)

abbrev world : World services
world = world_of vacant

-- A rejection waits for a second at least.
rejection_headers :
    too_many_authentication_attempts 0 (build_rate_limit_headers rejection)
    ≡ http (record {
      status_code = 429;
      detail = "Too many authentication attempts.";
      headers =
          ("X-RateLimit-Limit", number 10)
          ∷ ("X-RateLimit-Remaining", number 0)
          ∷ ("X-RateLimit-Reset", number 50)
          ∷ ("Retry-After", number 1)
          ∷ [];
    })
unfolding too_many_authentication_attempts build_rate_limit_headers put
rejection_headers = refl

world-KeepsContract : KeepsContract world.trail
world-KeepsContract = (inr refl, tt)

login_passes : (enforce_login_ip_rate_limit parse_uuid post_request limiter world).0 ≡ ok allowance
unfolding enforce_login_ip_rate_limit enforce count_decision
login_passes = refl

only_allowed_pass_example : ((limiter 3).0 ≡ ok allowance) × (true ≡ true)
only_allowed_pass_example =
    only_allowed_pass parse_uuid post_request limiter "service-a" "user-1" world allowance
      (inl login_passes)

short_service : optional_code_valid 160 (some (text "service-a")) ≡ true
unfolding optional_code_valid is_stripped starts_with_space ends_with_space is_space
short_service = refl

spaced_service : optional_code_valid 160 (some (text " service-a")) ≡ false
unfolding optional_code_valid is_stripped starts_with_space ends_with_space is_space
spaced_service = refl

unrecordable_service_example :
    (enforce_proxy_rate_limit parse_uuid post_request " service-a" "user-1" rejects world).0
    ≡ raised value_error
unrecordable_service_example =
    unrecordable_service parse_uuid post_request rejects " service-a" "user-1" world rejection
      trusted_post world-KeepsContract spaced_service refl refl
