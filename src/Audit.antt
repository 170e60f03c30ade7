-- ===== src/Audit.antt =====
-- Security events: gateway/app/audit/models.py, service.py and dependencies.py. An event is logged,
-- then stored when the application has a database; a failure to store it is logged and forgotten.
--
-- The identifier and the time of an event are chosen anew for each and left out. User and request
-- identifiers are UUIDs, compared as their texts; reading one from a text is a parameter.
pub mod Recording
pub mod Trusted
mod Examples
use secure_api_gateway.Prelude.{
  ℕ, ◌≡◌, Bool, true, false, ◌&&◌, Option, none, some, String, List, [], ◌∷◌, leb, if◌then◌else◌,
}
use secure_api_gateway.Prelude.Lists.{length}
use secure_api_gateway.Prelude.Texts.{Text, upper, is_stripped}
use secure_api_gateway.Http.{
  Result, ok, raised, Exn, audit_repository_backend_error, value_error, runtime_error, Action, pure,
  raise, lift, try_except, ◌>>=◌, ◌>>◌,
}

pub data AuditEventType : Type 0 where
  user_registered login_succeeded login_failed account_locked : AuditEventType
  authentication_backend_unavailable : AuditEventType
  authorization_denied authorization_backend_unavailable : AuditEventType
  role_list_read role_assigned role_removed : AuditEventType
  rate_limit_rejected rate_limit_backend_unavailable : AuditEventType

pub data AuditOutcome : Type 0 where
  success failure denied unavailable : AuditOutcome

-- The optional fields of an event.
pub record Details : Type 0 where
  pub actor_user_id : Option String
  pub target_user_id : Option String
  pub permission_code : Option Text
  pub role_name : Option Text
  pub service_name : Option Text
  pub method : Option Text
  pub status_code : Option ℕ
  pub reason_code : Option Text

abbrev pub no_details : Details
no_details = record {
  actor_user_id = none;
  target_user_id = none;
  permission_code = none;
  role_name = none;
  service_name = none;
  method = none;
  status_code = none;
  reason_code = none;
}

pub record SecurityAuditEvent : Type 0 where
  pub event_type : AuditEventType
  pub outcome : AuditOutcome
  pub request_id : String
  pub details : Details

-- Whether _validate_optional_code accepts the value.
unfoldable pub optional_code_valid : ℕ → Option Text → Bool
optional_code_valid max_length none = true
optional_code_valid max_length (some value) =
    leb 1 (length value) && is_stripped value && leb (length value) max_length

unfoldable pub status_code_valid : Option ℕ → Bool
status_code_valid none = true
status_code_valid (some code) = leb 100 code && leb code 599

-- Whether SecurityAuditEvent accepts its fields.
unfoldable pub details_valid : Details → Bool
details_valid d =
    status_code_valid d.status_code
    && optional_code_valid 160 d.permission_code
    && optional_code_valid 160 d.role_name
    && optional_code_valid 160 d.service_name
    && optional_code_valid 16 d.method
    && optional_code_valid 160 d.reason_code

unfoldable pub upper_method : Option Text → Option Text
upper_method none = none
upper_method (some m) = some (upper m)

-- create_security_audit_event, once the request identifier is a UUID.
unfoldable pub create_security_audit_event :
    AuditEventType → AuditOutcome → String → Details → Result SecurityAuditEvent
create_security_audit_event event_type outcome request_id d =
    let normalized = record d { method = upper_method d.method } in
    if details_valid normalized
    then ok (record {
      event_type = event_type;
      outcome = outcome;
      request_id = request_id;
      details = normalized;
    })
    else raised value_error

-- What the handlers read of a request and of the application that it came to.
pub record Request : Type 0 where
  pub method : Text
  -- request.state.request_id
  pub request_id : Option String
  -- whether the application has a database to store events in
  pub has_audit_service : Bool

pub data LogLine : Type 0 where
  logged persistence_failed : SecurityAuditEvent → LogLine

-- What was recorded, the newest first, and how the database treats the events to come: it stores
-- them, or raises an exception; it stores those after the last that is listed.
pub record Trail : Type 0 where
  pub log : List LogLine
  pub rows : List SecurityAuditEvent
  pub metrics : List (AuditEventType × AuditOutcome)
  pub storage : List (Option Exn)

unfoldable pub emit : LogLine → Action Trail (Unit {0})
emit line t = (ok tt, record t { log = line ∷ t.log })

unfoldable pub record_security_metric_best_effort :
    AuditEventType → AuditOutcome → Action Trail (Unit {0})
record_security_metric_best_effort event_type outcome t =
    (ok tt, record t { metrics = (event_type, outcome) ∷ t.metrics })

unfoldable pub append_with : List (Option Exn) → SecurityAuditEvent → Action Trail (Unit {0})
append_with [] event t = (ok tt, record t { rows = event ∷ t.rows; storage = [] })
append_with (none ∷ rest) event t = (ok tt, record t { rows = event ∷ t.rows; storage = rest })
append_with (some e ∷ rest) event t = (raised e, record t { storage = rest })

-- AuditRepository.append_event
unfoldable pub append_event : SecurityAuditEvent → Action Trail (Unit {0})
unfolding append_with
append_event event t = append_with t.storage event t

-- AuditService.record
unfoldable pub record_event : SecurityAuditEvent → Action Trail (Unit {0})
unfolding emit append_event
record_event event = emit (logged event) >> append_event event

-- emit_audit_persistence_failure, for the one exception that is caught
unfoldable pub not_persisted : Exn → SecurityAuditEvent → Action Trail (Unit {0})
not_persisted audit_repository_backend_error event = emit (persistence_failed event)
not_persisted e event = raise e

unfoldable pub record_security_event_best_effort :
    Bool → SecurityAuditEvent → Action Trail (Unit {0})
unfolding record_event emit not_persisted
record_security_event_best_effort false event = emit (logged event)
record_security_event_best_effort true event =
    try_except (record_event event) (λ e. not_persisted e event)

-- The first argument reads a UUID.
unfoldable pub get_trusted_request_id : (String → Option String) → Request → Result String
get_trusted_request_id parse_uuid request = elim request.request_id [
  | none ↦ raised runtime_error
  | some id ↦ elim (parse_uuid id) [ none ↦ raised value_error | some uuid ↦ ok uuid ]
]

-- The event that record_request_security_event makes.
unfoldable pub trusted_event :
    (String → Option String)
    → Request
    → AuditEventType
    → AuditOutcome
    → Details
    → Result SecurityAuditEvent
trusted_event parse_uuid request event_type outcome d =
    elim (get_trusted_request_id parse_uuid request) [
      | ok uuid ↦ create_security_audit_event event_type outcome uuid d
      | raised e ↦ raised e
    ]

unfoldable pub record_request_security_event :
    (String → Option String)
    → Request
    → AuditEventType
    → AuditOutcome
    → Details
    → Action Trail SecurityAuditEvent
unfolding trusted_event record_security_metric_best_effort
record_request_security_event parse_uuid request event_type outcome d = do
  event ← lift (trusted_event parse_uuid request event_type outcome d)
  _ ← record_security_metric_best_effort event_type outcome
  _ ← record_security_event_best_effort request.has_audit_service event
  pure event
