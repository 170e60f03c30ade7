-- ===== src/Auth/Granting.antt =====
-- A token is given out only for an account that is not locked, whose credentials the service
-- accepted, and whose failures were cleared.
use secure_api_gateway.Prelude.{
  ◌≡◌, ◌≢◌, Bool, false, Option, some, String, arith, inl, inr, ◌∙◌, ap, sym,
}
use secure_api_gateway.Http.{Exn, ok, Result-cases, bind-ok, Action, pure, try_except, ◌>>=◌}
use secure_api_gateway.Audit.{
  Request, AuditEventType, login_succeeded, AuditOutcome, success, Details,
}
use secure_api_gateway.Login.Client.{Decision, Backend}
use secure_api_gateway.World.{on_users, Services, World, set_headers, about}
use secure_api_gateway.RateLimit.{RateLimitDecision, build_rate_limit_headers}
use secure_api_gateway.Auth.{AuthenticationResult, AuthenticationService}
use secure_api_gateway.Auth.Router.{
  authentication_database_unavailable, invalid_credentials, Protection,
}
use secure_api_gateway.Auth.Router
use secure_api_gateway.Auth.Token.{
  check_lock, reset, set_headers_runs, event, guard, refuse, refuse_login,
}
use secure_api_gateway.Auth.Verdict.{issue}

-- What a token stands for, in the world before the login and the state of the login protection
-- after it.
pub record IsGranted {s : Services} (service : AuthenticationService s.Users)
    (protection : Protection) (username password : String) (w : World s) (token : String)
    (after : Backend s.redis) : Type 0 where
  pub decision : Decision
  pub result : AuthenticationResult
  pub cleared : Bool
  pub checked : (check_lock s protection username w.login).0 ≡ ok decision
  pub is_open : decision.locked ≡ false
  pub authenticated :
      (service.authenticate_and_create_result username password w.users).0 ≡ ok result
  pub issued : token ≡ result.access_token
  pub forgiven :
      (reset s protection username (check_lock s protection username w.login).1).0 ≡ ok cleared
  pub state : after ≡ (reset s protection username (check_lock s protection username w.login).1).1

module _ {s : Services} (parse_uuid : String → Option String) (request : Request)
    (service : AuthenticationService s.Users) (protection : Protection)
    (username password : String) where
  guard_ok :
      {A : Type 0} (op : Action (Backend s.redis) A) (code : String) (w : World s) (a : A)
      → (guard parse_uuid request service protection username password op code w).0 ≡ ok a
      → let w' = (guard parse_uuid request service protection username password op code w).1 in
        ((op w.login).0 ≡ ok a) × (w' ≡ record w { login = (op w.login).1 })
  unfolding Router.protection_failed Router.event
  guard_ok op code w a h = ground (arith, h)

  refuse_ok :
      (code : String) (d : Decision) (w : World s) (u : Unit {0})
      → (refuse parse_uuid request service protection username password code d w).0 ≡ ok u
      → (d.locked ≡ false)
        × ((refuse parse_uuid request service protection username password code d w).1 ≡ w)
  unfolding Router.refuse_locked Router.event
  refuse_ok code d w u h = ground (arith, h)

  refuse_login_raises :
      (ip : RateLimitDecision) (x : Exn) (w : World s) (a : AuthenticationResult)
      → (refuse_login parse_uuid request service protection username password ip x w).0 ≢ ok a
  unfolding Router.not_authenticated Router.protection_failed Router.refuse_locked Router.event
  refuse_login_raises ip x w a h = ground (arith, h)

  event_login :
      (event_type : AuditEventType) (outcome : AuditOutcome) (d : Details) (w : World s)
      → (event parse_uuid request service event_type outcome d w).1.login ≡ w.login
  unfolding Router.event
  event_login event_type outcome d w = ground arith

  -- The handler, from each step on.
  abbrev finish : RateLimitDecision → AuthenticationResult → Action (World s) String
  finish ip result = do
    _ ← set_headers (build_rate_limit_headers ip)
    _ ←
        event parse_uuid request service login_succeeded success
          (record (about request 200 "credentials_verified") {
            actor_user_id = some result.user.id;
          })
    pure result.access_token

  abbrev clear : Action (World s) Bool
  clear =
      guard parse_uuid request service protection username password (reset s protection username)
        "login_state_reset_unavailable"

  abbrev authenticate : RateLimitDecision → Action (World s) AuthenticationResult
  authenticate ip =
      try_except (on_users (service.authenticate_and_create_result username password))
        (refuse_login parse_uuid request service protection username password ip)

  abbrev check : Action (World s) Decision
  check =
      guard parse_uuid request service protection username password
        (check_lock s protection username) "login_lock_check_unavailable"

  abbrev pass : Decision → Action (World s) (Unit {0})
  pass = refuse parse_uuid request service protection username password "account_already_locked"

  finish_ok :
      (ip : RateLimitDecision) (result : AuthenticationResult) (w : World s) (token : String)
      → (finish ip result w).0 ≡ ok token
      → (token ≡ result.access_token) × ((finish ip result w).1.login ≡ w.login)
  unfolding Router.event
  finish_ok ip result w token h =
      ground (arith, h, set_headers_runs (build_rate_limit_headers ip) w)

  authenticate_ok :
      (ip : RateLimitDecision) (result : AuthenticationResult) (w : World s)
      → (authenticate ip w).0 ≡ ok result
      → ((service.authenticate_and_create_result username password w.users).0 ≡ ok result)
        × ((authenticate ip w).1.login ≡ w.login)
  authenticate_ok ip result w h =
      elim (Result-cases (service.authenticate_and_create_result username password w.users).0) [
        | inl (r, e) ↦ ground (arith, h, e)
        | inr (x, e) ↦ ground (
          arith,
          h,
          e,
          refuse_login_raises ip x
              (record w {
                users = (service.authenticate_and_create_result username password w.users).1;
              })
              result,
        )
      ]

  -- Whatever fails on the way, the login handler gives out a token only if the account was not
  -- locked, the service authenticated the credentials, for which the token is, and the failures of
  -- the account were cleared; that is what it leaves of the login protection.
  pub issue_access_token-IsGranted :
      (ip : RateLimitDecision) (w : World s) (token : String)
      → (issue parse_uuid request service protection username password ip w).0 ≡ ok token
      → IsGranted service protection username password w token
          (issue parse_uuid request service protection username password ip w).1.login
  unfolding Router.issue_access_token
  issue_access_token-IsGranted ip w token h =
      let (d, e₁, h₁, q₁) =
        bind-ok check
          (λ d. pass d >>= λ _. authenticate ip >>= λ result. clear >>= λ _. finish ip result) w
          token h in
      let (checked, at₁) =
        guard_ok (check_lock s protection username) "login_lock_check_unavailable" w d e₁ in
      let w₁ = (check w).1 in
      let (u, e₂, h₂, q₂) =
        bind-ok (pass d) (λ _. authenticate ip >>= λ result. clear >>= λ _. finish ip result) w₁
          token h₁ in
      let (is_open, at₂) = refuse_ok "account_already_locked" d w₁ u e₂ in
      let w₂ = (pass d w₁).1 in
      let (result, e₃, h₃, q₃) =
        bind-ok (authenticate ip) (λ result. clear >>= λ _. finish ip result) w₂ token h₂ in
      let (authenticated, at₃) = authenticate_ok ip result w₂ e₃ in
      let w₃ = (authenticate ip w₂).1 in
      let (cleared, e₄, h₄, q₄) = bind-ok clear (λ _. finish ip result) w₃ token h₃ in
      let (forgiven, at₄) =
        guard_ok (reset s protection username) "login_state_reset_unavailable" w₃ cleared e₄ in
      let (issued, at₅) = finish_ok ip result (clear w₃).1 token h₄ in
      let login_of : World s → Backend s.redis = λ v. v.login in
      let kept : w₃.login ≡ (check_lock s protection username w.login).1 =
        at₃ ∙ ap login_of (at₂ ∙ at₁) in
      record {
        decision = d;
        result = result;
        cleared = cleared;
        checked = checked;
        is_open = is_open;
        authenticated =
            ap
              (λ (v : World s).
                (service.authenticate_and_create_result username password v.users).0)
              (sym (at₂ ∙ at₁))
            ∙ authenticated;
        issued = issued;
        forgiven = ap (λ b. (reset s protection username b).0) (sym kept) ∙ forgiven;
        state =
            ap login_of (q₁ ∙ q₂ ∙ q₃ ∙ q₄)
            ∙ at₅
            ∙ ap login_of at₄
            ∙ ap (λ b. (reset s protection username b).1) kept;
      }
