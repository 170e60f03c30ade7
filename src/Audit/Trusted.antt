-- ===== src/Audit/Trusted.antt =====
-- Events about a request that came through the middleware can be made.
use secure_api_gateway.Prelude.{
  ℕ, ◌≡◌, Bool, true, false, ◌&&◌, Option, none, some, String, arith, refl,
}
use secure_api_gateway.Prelude.Texts.{text, upper}
use secure_api_gateway.Http.{ok, raised, value_error}
use secure_api_gateway.Audit.{
  AuditEventType, AuditOutcome, Details, SecurityAuditEvent, details_valid, status_code_valid,
  optional_code_valid, upper_method, create_security_audit_event, Request, trusted_event,
  get_trusted_request_id,
}

-- The middleware gave the request an identifier that is a UUID, and its method has up to 16
-- characters, none of them outer white space.
pub record IsTrusted (parse_uuid : String → Option String) (request : Request) : Type 0 where
  pub given : String
  pub uuid : String
  pub is_given : request.request_id ≡ some given
  pub is_uuid : parse_uuid given ≡ some uuid
  pub method : optional_code_valid 16 (some (upper request.method)) ≡ true

-- The event that the handlers record of their fields.
unfoldable pub event_about : AuditEventType → AuditOutcome → String → Details → SecurityAuditEvent
event_about event_type outcome uuid d = record {
  event_type = event_type;
  outcome = outcome;
  request_id = uuid;
  details = record d { method = upper_method d.method };
}

-- The fields but the method are accepted.
unfoldable pub others_valid : Details → Bool
others_valid d =
    status_code_valid d.status_code
    && optional_code_valid 160 d.permission_code
    && optional_code_valid 160 d.role_name
    && optional_code_valid 160 d.service_name
    && optional_code_valid 160 d.reason_code

pub none_valid : (max_length : ℕ) → optional_code_valid max_length none ≡ true
unfolding optional_code_valid
none_valid max_length = refl

-- A reason code of the source is accepted.
abbrev pub IsCode : String → Type 0
IsCode code = optional_code_valid 160 (some (text code)) ≡ true

module _ {parse_uuid : String → Option String} {request : Request}
    (trusted : IsTrusted parse_uuid request) where
  trusted-id : get_trusted_request_id parse_uuid request ≡ ok trusted.uuid
  unfolding get_trusted_request_id
  trusted-id = ground (arith, trusted.is_given, trusted.is_uuid)

  pub made_about :
      (event_type : AuditEventType) (outcome : AuditOutcome) (d : Details)
      → d.method ≡ some request.method
      → others_valid d ≡ true
      → trusted_event parse_uuid request event_type outcome d
        ≡ ok (event_about event_type outcome trusted.uuid d)
  unfolding trusted_event create_security_audit_event details_valid upper_method event_about
      others_valid
  made_about event_type outcome d m o = ground (arith, trusted-id, trusted.method, m, o)

  pub refused_about :
      (event_type : AuditEventType) (outcome : AuditOutcome) (d : Details)
      → others_valid d ≡ false
      → trusted_event parse_uuid request event_type outcome d ≡ raised value_error
  unfolding trusted_event create_security_audit_event details_valid others_valid
  refused_about event_type outcome d o = ground (arith, trusted-id, o)
