-- ===== src/RateLimit/Enforcement.antt =====
-- The checks of the rate limit let a request pass only when the limiter allows it.
use secure_api_gateway.Prelude.{
  ℕ, ◌≡◌, ◌≢◌, Bool, true, false, Option, some, if◌then◌else◌, String, arith, refl, ◌∙◌, inl, inr,
  ◌⊎◌,
}
use secure_api_gateway.Prelude.Texts.{text}
use secure_api_gateway.Http.{
  Exn, rate_limit_backend_error, value_error, Result, ok, raised, Result-cases, Action,
}
use secure_api_gateway.Audit.{
  Request, rate_limit_rejected, rate_limit_backend_unavailable, SecurityAuditEvent, denied,
  unavailable, Details,
}
use secure_api_gateway.Audit.Recording.{KeepsContract, newest, made, record-made}
use secure_api_gateway.World.{Services, World, count_decision, about}
use secure_api_gateway.RateLimit.{RateLimitDecision, build_rate_limit_headers}
use secure_api_gateway.Audit.{status_code_valid, optional_code_valid}
use secure_api_gateway.Audit.Trusted.{
  IsTrusted, event_about, others_valid, made_about, refused_about, none_valid, IsCode,
}
use secure_api_gateway.Prelude.Texts.{is_stripped, starts_with_space, ends_with_space, is_space}
use secure_api_gateway.RateLimit.Dependencies
use secure_api_gateway.RateLimit.Dependencies.{
  authentication_protection_unavailable, too_many_authentication_attempts, rate_limit_unavailable,
  rate_limit_exceeded, about_proxy, enforce_login_ip_rate_limit, enforce_proxy_rate_limit,
}

rejected-IsCode : IsCode "proxy_rate_limit_exceeded"
unfolding optional_code_valid is_stripped starts_with_space ends_with_space is_space
rejected-IsCode = refl

failed-IsCode : IsCode "proxy_rate_limit_backend_unavailable"
unfolding optional_code_valid is_stripped starts_with_space ends_with_space is_space
failed-IsCode = refl

-- The fields of a proxied request are accepted as its service is.
service_valid :
    (request : Request) (user_id service_name : String) (status : ℕ) (reason : String) (b : Bool)
    → status_code_valid (some status) ≡ true
    → IsCode reason
    → optional_code_valid 160 (some (text service_name)) ≡ b
    → others_valid (about_proxy request user_id service_name status reason) ≡ b
unfolding others_valid
service_valid request user_id service_name status reason b ok_status ok_reason fits =
    ground (arith, none_valid 160, ok_status, ok_reason, fits)

-- What a check answers to the limiter, when its events can be recorded.
abbrev pub answer :
    Exn → (RateLimitDecision → Exn) → Result RateLimitDecision → Result RateLimitDecision
answer if_unavailable if_exceeded (ok d) = if d.allowed then ok d else raised (if_exceeded d)
answer if_unavailable if_exceeded (raised rate_limit_backend_error) = raised if_unavailable
answer if_unavailable if_exceeded (raised e) = raised e

module _ {s : Services} (parse_uuid : String → Option String) (request : Request) where
  module _ (scope : String) (check : Action s.Limits RateLimitDecision)
      (describe : ℕ → String → Details) (unavailable_reason exceeded_reason : String)
      (if_unavailable : Exn) (if_exceeded : RateLimitDecision → Exn) where
    abbrev checked : Action (World s) RateLimitDecision
    checked =
        Dependencies.enforce parse_uuid request scope check describe unavailable_reason
          exceeded_reason if_unavailable if_exceeded

    abbrev limiter_failed : Exn → Action (World s) RateLimitDecision
    limiter_failed =
        Dependencies.limiter_failed parse_uuid request scope check describe unavailable_reason
          exceeded_reason if_unavailable if_exceeded

    failed_raises : (x : Exn) (w : World s) (d : RateLimitDecision) → (limiter_failed x w).0 ≢ ok d
    unfolding Dependencies.limiter_failed
    failed_raises x w d = ground arith

    checked-allowed :
        (w : World s) (d : RateLimitDecision)
        → (checked w).0 ≡ ok d
        → ((check w.limits).0 ≡ ok d) × (d.allowed ≡ true)
    unfolding Dependencies.enforce
    checked-allowed w d h = elim (Result-cases (check w.limits).0) [
      | inl (d', e) ↦ ground (arith, h, e)
      | inr (x, e) ↦
          ground (arith, h, e, failed_raises x (record w { limits = (check w.limits).1 }))
    ]

    -- Whatever becomes of a check, it does not touch the roles.
    checked-roles : (w : World s) → (checked w).1.roles ≡ w.roles
    unfolding Dependencies.enforce Dependencies.limiter_failed count_decision
    checked-roles w = ground arith

    -- A rejection, once its event is recorded or cannot be made.
    checked-exceeded :
        (w : World s) (d : RateLimitDecision) (r : Result SecurityAuditEvent)
        → KeepsContract w.trail
        → made parse_uuid request rate_limit_rejected denied (describe 429 exceeded_reason) ≡ r
        → (check w.limits).0 ≡ ok d
        → d.allowed ≡ false
        → ((event : SecurityAuditEvent)
            → r ≡ ok event
            → ((checked w).0 ≡ raised (if_exceeded d))
              × (newest (checked w).1.trail.log ≡ some event))
          × ((x : Exn) → r ≡ raised x → (checked w).0 ≡ raised x)
    unfolding Dependencies.enforce count_decision
    checked-exceeded w d r h m e rejected =
        let (told, kept, line, lost) =
          record-made parse_uuid request rate_limit_rejected denied (describe 429 exceeded_reason)
            w.trail h in
        (
          λ event e'. ground (arith, told, line event (m ∙ e'), e, rejected, m, e'),
          λ x e'. ground (arith, told, e, rejected, m, e'),
        )

    checked-answer :
        (w : World s) (a b : SecurityAuditEvent)
        → KeepsContract w.trail
        → made parse_uuid request rate_limit_rejected denied (describe 429 exceeded_reason) ≡ ok a
        → made parse_uuid request rate_limit_backend_unavailable unavailable
            (describe 503 unavailable_reason)
          ≡ ok b
        → (checked w).0 ≡ answer if_unavailable if_exceeded (check w.limits).0
    unfolding Dependencies.enforce Dependencies.limiter_failed count_decision
    checked-answer w a b h m n =
        let (told, _, _, _) =
          record-made parse_uuid request rate_limit_rejected denied (describe 429 exceeded_reason)
            w.trail h in
        let (told', _, _, _) =
          record-made parse_uuid request rate_limit_backend_unavailable unavailable
            (describe 503 unavailable_reason) w.trail h in
        ground (arith, told, told', m, n)

  module _ (check : Action s.Limits RateLimitDecision) where
    abbrev login_checked : Action (World s) RateLimitDecision
    login_checked = enforce_login_ip_rate_limit parse_uuid request check

    abbrev proxy_checked : String → String → Action (World s) RateLimitDecision
    proxy_checked service_name user_id =
        enforce_proxy_rate_limit parse_uuid request service_name user_id check

    -- A login and a proxied request pass the check of the rate limit only with a decision of the
    -- limiter that allows them, whatever fails on the way.
    pub only_allowed_pass :
        (service_name user_id : String) (w : World s) (d : RateLimitDecision)
        → ((login_checked w).0 ≡ ok d ⊎ (proxy_checked service_name user_id w).0 ≡ ok d)
        → ((check w.limits).0 ≡ ok d) × (d.allowed ≡ true)
    unfolding enforce_login_ip_rate_limit enforce_proxy_rate_limit
    only_allowed_pass service_name user_id w d (inl h) = checked-allowed _ check _ _ _ _ _ w d h
    only_allowed_pass service_name user_id w d (inr h) = checked-allowed _ check _ _ _ _ _ w d h

    pub enforce_proxy_rate_limit-roles :
        (service_name user_id : String) (w : World s)
        → (proxy_checked service_name user_id w).1.roles ≡ w.roles
    unfolding enforce_proxy_rate_limit
    enforce_proxy_rate_limit-roles service_name user_id w = checked-roles _ check _ _ _ _ _ w

    -- For a trusted request, while the audit repository keeps its contract, the check of a login
    -- answers 429 to a rejection of the limiter, with the delay, 503 to a failure of its backend,
    -- and otherwise as the limiter does; a rejection is the newest event of the log.
    pub login_limit :
        (w : World s) (trusted : IsTrusted parse_uuid request)
        → KeepsContract w.trail
        → ((login_checked w).0
            ≡ answer authentication_protection_unavailable
                (λ d.
                  too_many_authentication_attempts d.retry_after_seconds
                    (build_rate_limit_headers d))
                (check w.limits).0)
          × ((d : RateLimitDecision)
              → (check w.limits).0 ≡ ok d
              → d.allowed ≡ false
              → newest (login_checked w).1.trail.log
                ≡ some (
                    event_about rate_limit_rejected denied trusted.uuid
                      (about request 429 "login_ip_rate_limit_exceeded")))
    unfolding enforce_login_ip_rate_limit others_valid status_code_valid optional_code_valid
        is_stripped starts_with_space ends_with_space is_space
    login_limit w trusted h =
        let m =
          made_about trusted rate_limit_rejected denied
            (about request 429 "login_ip_rate_limit_exceeded") refl refl in
        let n =
          made_about trusted rate_limit_backend_unavailable unavailable
            (about request 503 "login_ip_rate_limit_backend_unavailable") refl refl in
        (
          checked-answer _ check _ _ _ _ _ w _ _ h m n,
          λ d e rejected. ((checked-exceeded _ check _ _ _ _ _ w d _ h m e rejected).0 _ refl).1,
        )

    -- For a trusted request, while the audit repository keeps its contract, the check of a
    -- proxied request answers 429 to a rejection of the limiter, 503 to a failure of its backend,
    -- and otherwise as the limiter does, if the service of its path is a text that an event
    -- accepts: 1 to 160 characters, none of them outer white space.
    pub proxy_limit :
        (service_name user_id : String) (w : World s)
        → IsTrusted parse_uuid request
        → KeepsContract w.trail
        → optional_code_valid 160 (some (text service_name)) ≡ true
        → (proxy_checked service_name user_id w).0
          ≡ answer rate_limit_unavailable rate_limit_exceeded (check w.limits).0
    unfolding enforce_proxy_rate_limit status_code_valid
    proxy_limit service_name user_id w trusted h fits =
        checked-answer _ check _ _ _ _ _ w _ _ h
          (made_about trusted rate_limit_rejected denied
            (about_proxy request user_id service_name 429 "proxy_rate_limit_exceeded") refl
            (service_valid request user_id service_name 429 "proxy_rate_limit_exceeded" true refl
              rejected-IsCode fits))
          (made_about trusted rate_limit_backend_unavailable unavailable
            (about_proxy request user_id service_name 503 "proxy_rate_limit_backend_unavailable")
            refl
            (service_valid request user_id service_name 503 "proxy_rate_limit_backend_unavailable"
              true refl failed-IsCode fits))

    -- For a trusted request whose service is a text that an event does not accept, while the
    -- audit repository keeps its contract, a rejection of the limiter raises ValueError in place
    -- of the 429.
    pub unrecordable_service :
        (service_name user_id : String) (w : World s) (d : RateLimitDecision)
        → IsTrusted parse_uuid request
        → KeepsContract w.trail
        → optional_code_valid 160 (some (text service_name)) ≡ false
        → (check w.limits).0 ≡ ok d
        → d.allowed ≡ false
        → (proxy_checked service_name user_id w).0 ≡ raised value_error
    unfolding enforce_proxy_rate_limit status_code_valid
    unrecordable_service service_name user_id w d trusted h bad e rejected =
        (checked-exceeded _ check _ _ _ _ _ w d _ h
            (refused_about trusted rate_limit_rejected denied _ (
              service_valid request user_id service_name 429 "proxy_rate_limit_exceeded" false refl
                rejected-IsCode bad))
            e rejected).1
          value_error refl
