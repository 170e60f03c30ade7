-- ===== src/Auth/Token.antt =====
-- What the steps of the login handler do, and the answers that they come to.
use secure_api_gateway.Prelude.{
  ℕ, ◌≡◌, Bool, true, Option, some, String, [], ◌∷◌, if◌then◌else◌, arith, refl, inl, inr,
}
use secure_api_gateway.Prelude.Dict.{Dict, put}
use secure_api_gateway.Prelude.Texts.{is_stripped, starts_with_space, ends_with_space, is_space}
use secure_api_gateway.Http.{
  HeaderValue, Exn, authentication_error, user_repository_backend_error,
  login_protection_backend_error, Result, ok, raised, Result-cases, Action, try_except,
}
use secure_api_gateway.Audit.{
  Request, AuditEventType, login_failed, account_locked, authentication_backend_unavailable,
  rate_limit_backend_unavailable, AuditOutcome, failure, denied, unavailable, Details,
  status_code_valid, optional_code_valid,
}
use secure_api_gateway.Audit.Recording.{KeepsContract, newest, record-made}
use secure_api_gateway.Audit.Trusted.{
  IsCode, none_valid, IsTrusted, event_about, others_valid, made_about,
}
use secure_api_gateway.Login.Client.{Decision, Policy, Identity, Backend}
use secure_api_gateway.Login.Client
use secure_api_gateway.World.{on_login, Services, World, set_headers, about}
use secure_api_gateway.RateLimit.{RateLimitDecision}
use secure_api_gateway.RateLimit.Dependencies.{
  authentication_protection_unavailable, too_many_authentication_attempts,
}
use secure_api_gateway.Auth.{AuthenticationResult, AuthenticationService}
use secure_api_gateway.Auth.Router.{
  authentication_database_unavailable, invalid_credentials, Protection,
}
use secure_api_gateway.Auth.Router

pub about_valid :
    (request : Request) (status : ℕ) (code : String)
    → status_code_valid (some status) ≡ true
    → IsCode code
    → others_valid (about request status code) ≡ true
unfolding others_valid
about_valid request status code h c = ground (arith, none_valid 160, h, c)

pub codes :
    IsCode "login_lock_check_unavailable"
    × IsCode "account_already_locked"
    × IsCode "authentication_repository_unavailable"
    × IsCode "invalid_credentials"
    × IsCode "login_failure_tracking_unavailable"
    × IsCode "failure_threshold_reached"
    × IsCode "login_state_reset_unavailable"
    × IsCode "credentials_verified"
unfolding optional_code_valid is_stripped starts_with_space ends_with_space is_space
codes = (refl, refl, refl, refl, refl, refl, refl, refl)

-- What the handler makes of an answer of the login protection.
abbrev pub guarded : {A : Type 0} → Result A → Result A
guarded (ok a) = ok a
guarded (raised login_protection_backend_error) = raised authentication_protection_unavailable
guarded (raised e) = raised e

-- What a login is answered that could not be authenticated, by the exception and what recording
-- the failure gave.
abbrev pub refusal : RateLimitDecision → Exn → Result Decision → Exn
refusal ip user_repository_backend_error recorded = authentication_database_unavailable
refusal ip authentication_error (ok d) =
    if d.locked
    then too_many_authentication_attempts d.retry_after_seconds []
    else invalid_credentials ip
refusal ip authentication_error (raised login_protection_backend_error) =
    authentication_protection_unavailable
refusal ip authentication_error (raised e) = e
refusal ip e recorded = e

-- What a login is answered, by what checking the lock, the authentication, recording the failure
-- and clearing the account gave.
abbrev pub verdict :
    RateLimitDecision
    → Result Decision
    → Result AuthenticationResult
    → Result Decision
    → Result Bool
    → Result String
verdict ip (ok d) auth recorded cleared =
    if d.locked
    then raised (too_many_authentication_attempts d.retry_after_seconds [])
    else elim auth [
      | raised x ↦ raised (refusal ip x recorded)
      | ok result ↦ elim (guarded cleared) [ ok _ ↦ ok result.access_token | raised x ↦ raised x ]
    ]
verdict ip (raised login_protection_backend_error) auth recorded cleared =
    raised authentication_protection_unavailable
verdict ip (raised x) auth recorded cleared = raised x

module _ (s : Services) (protection : Protection) (username : String) where
  -- The three calls of the login protection.
  abbrev pub check_lock : Action (Backend s.redis) Decision
  check_lock =
      Client.check_lock s.redis protection.identity protection.key_prefix protection.checked_at
        username protection.account_policy

  abbrev pub record_failure : Action (Backend s.redis) Decision
  record_failure =
      Client.record_failure s.redis protection.identity protection.key_prefix protection.failed_at
        username protection.account_policy

  abbrev pub reset : Action (Backend s.redis) Bool
  reset =
      Client.reset s.redis protection.identity protection.key_prefix protection.checked_at username
        protection.account_policy

pub set_headers_runs :
    {s : Services} (headers : Dict HeaderValue) (w : World s)
    → let (r, w') = set_headers headers w in
      (r ≡ ok tt) × (w'.trail ≡ w.trail) × (w'.login ≡ w.login) × (w'.users ≡ w.users)
unfolding set_headers
set_headers_runs [] w = (refl, refl, refl, refl)
set_headers_runs ((name, value) ∷ rest) w =
    set_headers_runs rest (record w { headers = put name value w.headers })

module _ {s : Services} (parse_uuid : String → Option String) (request : Request)
    (service : AuthenticationService s.Users) where
  abbrev pub event : AuditEventType → AuditOutcome → Details → Action (World s) (Unit {0})
  event = Router.event parse_uuid request service

  pub event_runs :
      (trusted : IsTrusted parse_uuid request) (event_type : AuditEventType)
      (outcome : AuditOutcome) (d : Details) (w : World s)
      → d.method ≡ some request.method
      → others_valid d ≡ true
      → KeepsContract w.trail
      → let (r, w') = event event_type outcome d w in
        (r ≡ ok tt)
        × KeepsContract w'.trail
        × (newest w'.trail.log ≡ some (event_about event_type outcome trusted.uuid d))
        × (w'.login ≡ w.login)
        × (w'.users ≡ w.users)
  unfolding Router.event
  event_runs trusted event_type outcome d w m o h =
      let (told, kept, line, lost) =
        record-made parse_uuid request event_type outcome d w.trail h in
      let known = made_about trusted event_type outcome d m o in
      ground (arith, told, kept, line _ known, known)

  module _ (protection : Protection) (username password : String) where
    abbrev pub guard : {A : Type 0} → Action (Backend s.redis) A → String → Action (World s) A
    guard op code =
        try_except (on_login op)
          (Router.protection_failed parse_uuid request service protection username password code)

    pub guard_runs :
        {A : Type 0} (op : Action (Backend s.redis) A) (code : String) (w : World s)
        → IsTrusted parse_uuid request
        → IsCode code
        → KeepsContract w.trail
        → let (r, w') = guard op code w in
          (r ≡ guarded (op w.login).0)
          × KeepsContract w'.trail
          × (w'.login ≡ (op w.login).1)
          × (w'.users ≡ w.users)
    unfolding Router.protection_failed status_code_valid
    guard_runs op code w trusted c h =
        let told =
          event_runs trusted rate_limit_backend_unavailable unavailable (about request 503 code)
            (record w { login = (op w.login).1 }) refl (about_valid request 503 code refl c) h in
        ground (arith, told, h)

    abbrev pub refuse : String → Decision → Action (World s) (Unit {0})
    refuse = Router.refuse_locked parse_uuid request service protection username password

    pub refuse_runs :
        (code : String) (d : Decision) (w : World s)
        → IsTrusted parse_uuid request
        → IsCode code
        → KeepsContract w.trail
        → let (r, w') = refuse code d w in
          (r ≡ (
            if d.locked
            then raised (too_many_authentication_attempts d.retry_after_seconds [])
            else ok tt))
          × KeepsContract w'.trail
          × (w'.login ≡ w.login)
          × (w'.users ≡ w.users)
    unfolding Router.refuse_locked status_code_valid
    refuse_runs code d w trusted c h =
        let told =
          event_runs trusted account_locked denied (about request 429 code) w refl
            (about_valid request 429 code refl c) h in
        ground (arith, told, h)

    abbrev pub refuse_login : RateLimitDecision → Exn → Action (World s) AuthenticationResult
    refuse_login = Router.not_authenticated parse_uuid request service protection username password

    pub refuse_login_runs :
        (ip : RateLimitDecision) (x : Exn) (w : World s)
        → IsTrusted parse_uuid request
        → KeepsContract w.trail
        → (refuse_login ip x w).0
          ≡ raised (refusal ip x (record_failure s protection username w.login).0)
    unfolding Router.not_authenticated status_code_valid
    refuse_login_runs ip x w trusted h =
        let (_, _, c3, c4, c5, c6, _, _) = codes in
        let down =
          event_runs trusted authentication_backend_unavailable unavailable
            (about request 503 "authentication_repository_unavailable") w refl
            (about_valid request 503 "authentication_repository_unavailable" refl c3) h in
        let noted =
          event_runs trusted login_failed failure (about request 401 "invalid_credentials") w refl
            (about_valid request 401 "invalid_credentials" refl c4) h in
        let w₁ = (event login_failed failure (about request 401 "invalid_credentials") w).1 in
        let counted =
          guard_runs (record_failure s protection username) "login_failure_tracking_unavailable" w₁
            trusted c5 noted.1 in
        let w₂ =
          (guard (record_failure s protection username) "login_failure_tracking_unavailable"
            w₁).1 in
        elim (Result-cases (record_failure s protection username w.login).0) [
          | inl (d, e) ↦ ground (
            arith,
            down,
            noted,
            counted,
            e,
            refuse_runs "failure_threshold_reached" d w₂ trusted c6 counted.1,
          )
          | inr (y, e) ↦ ground (arith, down, noted, counted, e)
        ]
