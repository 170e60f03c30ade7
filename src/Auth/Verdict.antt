-- ===== src/Auth/Verdict.antt =====
-- The login handler answers by its verdict, and gives out a token only to an account that is open,
-- authenticated and cleared.
use secure_api_gateway.Prelude.{◌≡◌, true, Option, some, String, arith, refl, inl, inr}
use secure_api_gateway.Http.{ok, raised, Result-cases, Action, pure, try_except, ◌>>=◌}
use secure_api_gateway.Audit.{Request, login_succeeded, success, status_code_valid}
use secure_api_gateway.Audit.Recording.{KeepsContract}
use secure_api_gateway.Audit.Trusted.{none_valid, IsTrusted, others_valid}
use secure_api_gateway.Login.Client.{Backend}
use secure_api_gateway.World.{on_users, Services, World, set_headers, about}
use secure_api_gateway.RateLimit.{RateLimitDecision, build_rate_limit_headers}
use secure_api_gateway.Auth.{AuthenticationService}
use secure_api_gateway.Auth.Router.{
  authentication_database_unavailable, invalid_credentials, Protection,
}
use secure_api_gateway.Auth.Router
use secure_api_gateway.Auth.Token.{
  codes, guarded, refusal, verdict, check_lock, record_failure, reset, set_headers_runs, event,
  event_runs, guard, guard_runs, refuse, refuse_runs, refuse_login, refuse_login_runs,
}

credentials_valid :
    (request : Request) (id : String)
    → others_valid (record (about request 200 "credentials_verified") { actor_user_id = some id })
      ≡ true
unfolding others_valid status_code_valid
credentials_valid request id =
    let (_, _, _, _, _, _, _, c8) = codes in ground (arith, none_valid 160, c8)

module _ {s : Services} (parse_uuid : String → Option String) (request : Request)
    (service : AuthenticationService s.Users) (protection : Protection)
    (username password : String) where
  abbrev guard_by : {A : Type 0} → Action (Backend s.redis) A → String → Action (World s) A
  guard_by = guard parse_uuid request service protection username password

  -- What the handler does for an open account.
  abbrev authenticate : RateLimitDecision → Action (World s) String
  authenticate ip = do
    result ←
        try_except (on_users (service.authenticate_and_create_result username password))
          (refuse_login parse_uuid request service protection username password ip)
    _ ← guard_by (reset s protection username) "login_state_reset_unavailable"
    _ ← set_headers (build_rate_limit_headers ip)
    _ ←
        event parse_uuid request service login_succeeded success
          (record (about request 200 "credentials_verified") {
            actor_user_id = some result.user.id;
          })
    pure result.access_token

  authenticate_runs :
      (ip : RateLimitDecision) (w : World s)
      → IsTrusted parse_uuid request
      → KeepsContract w.trail
      → (authenticate ip w).0
        ≡ elim (service.authenticate_and_create_result username password w.users).0 [
          | raised x ↦ raised (refusal ip x (record_failure s protection username w.login).0)
          | ok result ↦ elim (guarded (reset s protection username w.login).0) [
            | ok _ ↦ ok result.access_token
            | raised x ↦ raised x
          ]
        ]
  authenticate_runs ip w trusted h =
      let (_, _, _, _, _, _, c7, _) = codes in
      let w₁ = record w {
        users = (service.authenticate_and_create_result username password w.users).1;
      } in
      let w₂ = (guard_by (reset s protection username) "login_state_reset_unavailable" w₁).1 in
      let w₃ = (set_headers (build_rate_limit_headers ip) w₂).1 in
      let cleared =
        guard_runs parse_uuid request service protection username password
          (reset s protection username) "login_state_reset_unavailable" w₁ trusted c7 h in
      let headed = set_headers_runs (build_rate_limit_headers ip) w₂ in
      elim (Result-cases (service.authenticate_and_create_result username password w.users).0) [
        | inr (x, e) ↦ ground (
          arith,
          e,
          refuse_login_runs parse_uuid request service protection username password ip x w₁ trusted
              h,
        )
        | inl (result, e) ↦
            let done =
              event_runs parse_uuid request service trusted login_succeeded success
                (record (about request 200 "credentials_verified") {
                  actor_user_id = some result.user.id;
                })
                w₃ refl (credentials_valid request result.user.id)
                (ground (arith, cleared, headed)) in
            ground (arith, e, cleared, headed, done)
      ]

  abbrev pub issue : RateLimitDecision → Action (World s) String
  issue = Router.issue_access_token parse_uuid request service protection username password

  -- For a trusted request, while the audit repository keeps its contract, the login handler
  -- answers by the verdict: what the lock check, the authentication, recording the failure and
  -- clearing the account gave decide it, and whether events can be stored does not.
  pub issue_access_token-verdict :
      (ip : RateLimitDecision) (w : World s)
      → IsTrusted parse_uuid request
      → KeepsContract w.trail
      → let checked = check_lock s protection username w.login in
        (issue ip w).0
        ≡ verdict ip checked.0
            (service.authenticate_and_create_result username password w.users).0
            (record_failure s protection username checked.1).0
            (reset s protection username checked.1).0
  unfolding Router.issue_access_token
  issue_access_token-verdict ip w trusted h =
      let (c1, c2, _, _, _, _, _, _) = codes in
      let checked =
        guard_runs parse_uuid request service protection username password
          (check_lock s protection username) "login_lock_check_unavailable" w trusted c1 h in
      let w₁ = (guard_by (check_lock s protection username) "login_lock_check_unavailable" w).1 in
      elim (Result-cases (check_lock s protection username w.login).0) [
        | inr (x, e) ↦ ground (arith, e, checked)
        | inl (d, e) ↦
            let refused =
              refuse_runs parse_uuid request service protection username password
                "account_already_locked" d w₁ trusted c2 checked.1 in
            let w₂ =
              (refuse parse_uuid request service protection username password
                "account_already_locked" d w₁).1 in
            let rest = authenticate_runs ip w₂ trusted refused.1 in
            ground (arith, e, checked, refused, rest)
      ]
