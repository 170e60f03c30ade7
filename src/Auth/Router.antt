-- ===== src/Auth/Router.antt =====
-- The handlers of gateway/app/auth/router.py. A handler's `except` clauses are functions of the
-- exception, which raise again what they do not name.
use secure_api_gateway.Prelude.{Option, some, String, [], ◌∷◌}
use secure_api_gateway.Prelude.Int.{ℤ}
use secure_api_gateway.Http.{
  word, Exn, http, authentication_error, user_already_exists_error, user_repository_backend_error,
  login_protection_backend_error, Action, pure, raise, try_except, when, ◌>>=◌, ◌>>◌,
}
use secure_api_gateway.Audit.{
  Request, AuditEventType, user_registered, login_succeeded, login_failed, account_locked,
  authentication_backend_unavailable, rate_limit_backend_unavailable, AuditOutcome, success,
  failure, denied, unavailable, Details, record_request_security_event,
}
use secure_api_gateway.Login.Client.{Policy, Decision, Identity, Backend}
use secure_api_gateway.Login.Client
use secure_api_gateway.World.{Services, World, on_trail, on_login, on_users, set_headers, about}
use secure_api_gateway.RateLimit.{RateLimitDecision, build_rate_limit_headers}
use secure_api_gateway.RateLimit.Dependencies.{
  retry_in_a_second, authentication_protection_unavailable, too_many_authentication_attempts,
  enforce_login_ip_rate_limit,
}
use secure_api_gateway.Auth.{
  UserPublic, AuthenticationResult, UserRegistration, AuthenticationService,
}

unfoldable pub authentication_database_unavailable : Exn
authentication_database_unavailable = http (record {
  status_code = 503;
  detail = "Authentication database is temporarily unavailable.";
  headers = retry_in_a_second;
})

unfoldable pub username_taken : Exn
username_taken =
    http (record { status_code = 409; detail = "Username is already registered."; headers = [] })

unfoldable pub invalid_credentials : RateLimitDecision → Exn
invalid_credentials ip_decision = http (record {
  status_code = 401;
  detail = "Invalid username or password.";
  headers = ("WWW-Authenticate", word "Bearer") ∷ build_rate_limit_headers ip_decision;
})

-- What the dependencies hand to the login handler: the clock is read when the lock is checked and
-- when a failure is recorded.
pub record Protection : Type 0 where
  pub identity : Identity
  pub key_prefix : String
  pub checked_at : ℤ
  pub failed_at : ℤ
  pub account_policy : Policy

module _ {s : Services} (parse_uuid : String → Option String) (request : Request)
    (service : AuthenticationService s.Users) where
  unfoldable pub event : AuditEventType → AuditOutcome → Details → Action (World s) (Unit {0})
  event event_type outcome d =
      on_trail (record_request_security_event parse_uuid request event_type outcome d) >> pure tt

  -- The `except` clauses of register_user.
  unfoldable pub registration_failed : Exn → Action (World s) UserPublic
  registration_failed user_already_exists_error = raise username_taken
  registration_failed user_repository_backend_error =
      event authentication_backend_unavailable unavailable
        (about request 503 "registration_repository_unavailable")
      >> raise authentication_database_unavailable
  registration_failed e = raise e

  unfoldable pub register_user : UserRegistration → Action (World s) UserPublic
  register_user registration = do
    user ← try_except (on_users (service.register_user registration)) registration_failed
    _ ←
        event user_registered success
          (record (about request 201 "registration_completed") { target_user_id = some user.id })
    pure user

  module _ (protection : Protection) (username password : String) where
    abbrev protect :
        {A : Type 0}
        → ((redis : _) → Identity → String → ℤ → String → Policy → Action (Backend redis) A)
        → ℤ
        → Action (World s) A
    protect operation now = on_login (
        operation s.redis protection.identity protection.key_prefix now username
          protection.account_policy)

    -- The `except` clause around a call of the login protection.
    unfoldable pub protection_failed : {A : Type 0} → String → Exn → Action (World s) A
    protection_failed reason_code login_protection_backend_error =
        event rate_limit_backend_unavailable unavailable (about request 503 reason_code)
        >> raise authentication_protection_unavailable
    protection_failed reason_code e = raise e

    unfoldable pub refuse_locked : String → Decision → Action (World s) (Unit {0})
    refuse_locked reason_code d = when d.locked (
        event account_locked denied (about request 429 reason_code)
        >> raise (too_many_authentication_attempts d.retry_after_seconds []))

    -- The `except` clauses around the authentication.
    unfoldable pub not_authenticated :
        RateLimitDecision → Exn → Action (World s) AuthenticationResult
    not_authenticated ip_decision user_repository_backend_error =
        event authentication_backend_unavailable unavailable
          (about request 503 "authentication_repository_unavailable")
        >> raise authentication_database_unavailable
    not_authenticated ip_decision authentication_error = do
      _ ← event login_failed failure (about request 401 "invalid_credentials")
      d ←
          try_except (protect Client.record_failure protection.failed_at)
            (protection_failed "login_failure_tracking_unavailable")
      _ ← refuse_locked "failure_threshold_reached" d
      raise (invalid_credentials ip_decision)
    not_authenticated ip_decision e = raise e

    -- The access token of the response.
    unfoldable pub issue_access_token : RateLimitDecision → Action (World s) String
    issue_access_token ip_decision = do
      d ←
          try_except (protect Client.check_lock protection.checked_at)
            (protection_failed "login_lock_check_unavailable")
      _ ← refuse_locked "account_already_locked" d
      result ←
          try_except (on_users (service.authenticate_and_create_result username password))
            (not_authenticated ip_decision)
      _ ←
          try_except (protect Client.reset protection.checked_at)
            (protection_failed "login_state_reset_unavailable")
      _ ← set_headers (build_rate_limit_headers ip_decision)
      _ ← event login_succeeded success (record (about request 200 "credentials_verified") {
        actor_user_id = some result.user.id;
      })
      pure result.access_token

    -- POST /auth/token: the address is limited first.
    unfoldable pub token_route : Action s.Limits RateLimitDecision → Action (World s) String
    token_route check = enforce_login_ip_rate_limit parse_uuid request check >>= issue_access_token
