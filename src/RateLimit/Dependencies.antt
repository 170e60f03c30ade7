-- ===== src/RateLimit/Dependencies.antt =====
-- enforce_proxy_rate_limit of gateway/app/rate_limit/dependencies.py, and
-- enforce_login_ip_rate_limit of gateway/app/rate_limit/login_dependencies.py with the responses
-- that the login handlers share.
use secure_api_gateway.Prelude.{ℕ, not, Option, some, if◌then◌else◌, String, [], ◌∷◌, max}
use secure_api_gateway.Prelude.Dict.{Dict, put}
use secure_api_gateway.Prelude.Texts.{text}
use secure_api_gateway.Http.{
  HeaderValue, word, number, Exn, http, rate_limit_backend_error, Action, pure, raise, try_except,
  when, ◌>>=◌, ◌>>◌,
}
use secure_api_gateway.Audit.{
  Request, AuditEventType, rate_limit_rejected, rate_limit_backend_unavailable, AuditOutcome,
  denied, unavailable, Details, record_request_security_event,
}
use secure_api_gateway.World.{Services, World, on_trail, on_limits, count_decision, about}
use secure_api_gateway.RateLimit.{RateLimitDecision, build_rate_limit_headers}

abbrev pub retry_in_a_second : Dict HeaderValue
retry_in_a_second = ("Retry-After", word "1") ∷ []

unfoldable pub authentication_protection_unavailable : Exn
authentication_protection_unavailable = http (record {
  status_code = 503;
  detail = "Authentication protection service is temporarily unavailable.";
  headers = retry_in_a_second;
})

unfoldable pub too_many_authentication_attempts : ℕ → Dict HeaderValue → Exn
too_many_authentication_attempts retry_after_seconds additional_headers = http (record {
  status_code = 429;
  detail = "Too many authentication attempts.";
  headers = put "Retry-After" (number (max 1 retry_after_seconds)) additional_headers;
})

unfoldable pub rate_limit_unavailable : Exn
rate_limit_unavailable = http (record {
  status_code = 503;
  detail = "Rate-limit service is temporarily unavailable.";
  headers = retry_in_a_second;
})

unfoldable pub rate_limit_exceeded : RateLimitDecision → Exn
rate_limit_exceeded d = http (record {
  status_code = 429;
  detail = "Rate limit exceeded.";
  headers = build_rate_limit_headers d;
})

-- The user and the service of the path are in the event.
abbrev pub about_proxy : Request → String → String → ℕ → String → Details
about_proxy request user_id service_name status_code reason_code =
    record (about request status_code reason_code) {
      actor_user_id = some user_id;
      service_name = some (text service_name);
    }

module _ {s : Services} (parse_uuid : String → Option String) (request : Request) where
  abbrev event : AuditEventType → AuditOutcome → Details → Action (World s) (Unit {0})
  event event_type outcome d =
      on_trail (record_request_security_event parse_uuid request event_type outcome d) >> pure tt

  -- What the checks of the two scopes share: the decision is counted, and a rejection or a failure
  -- of the limiter is recorded before it is raised.
  module _ (scope : String) (check : Action s.Limits RateLimitDecision)
      (describe : ℕ → String → Details) (unavailable_reason exceeded_reason : String)
      (if_unavailable : Exn) (if_exceeded : RateLimitDecision → Exn) where
    unfoldable pub limiter_failed : Exn → Action (World s) RateLimitDecision
    limiter_failed rate_limit_backend_error =
        count_decision scope "unavailable"
        >> event rate_limit_backend_unavailable unavailable (describe 503 unavailable_reason)
        >> raise if_unavailable
    limiter_failed e = raise e

    unfoldable pub enforce : Action (World s) RateLimitDecision
    unfolding limiter_failed
    enforce = do
      d ← try_except (on_limits check) limiter_failed
      _ ← count_decision scope (if d.allowed then "allowed" else "rejected")
      _ ←
          when (not d.allowed) (
            event rate_limit_rejected denied (describe 429 exceeded_reason)
            >> raise (if_exceeded d))
      pure d

  unfoldable pub enforce_login_ip_rate_limit :
      Action s.Limits RateLimitDecision → Action (World s) RateLimitDecision
  enforce_login_ip_rate_limit check =
      enforce "login" check (about request) "login_ip_rate_limit_backend_unavailable"
        "login_ip_rate_limit_exceeded" authentication_protection_unavailable
        (λ d. too_many_authentication_attempts d.retry_after_seconds (build_rate_limit_headers d))

  unfoldable pub enforce_proxy_rate_limit :
      String → String → Action s.Limits RateLimitDecision → Action (World s) RateLimitDecision
  enforce_proxy_rate_limit service_name user_id check =
      enforce "proxy" check (about_proxy request user_id service_name)
        "proxy_rate_limit_backend_unavailable" "proxy_rate_limit_exceeded" rate_limit_unavailable
        rate_limit_exceeded
