-- ===== src/Audit/Examples.antt =====
-- Tests of the audit trail, and its theorems at concrete inputs.
use secure_api_gateway.Prelude.{◌≡◌, inr, none, some, refl}
use secure_api_gateway.Prelude.Texts.{
  text, upper, upper_char, is_stripped, starts_with_space, ends_with_space, is_space,
}
use secure_api_gateway.Http.{ok, raised, Exn, runtime_error}
use secure_api_gateway.Audit.{
  Details, login_failed, failure, SecurityAuditEvent, record_request_security_event, trusted_event,
  get_trusted_request_id, create_security_audit_event, details_valid, status_code_valid,
  optional_code_valid, upper_method,
}
use secure_api_gateway.Audit.Recording.{KeepsContract, IsClean, newest, made, record-made}
use secure_api_gateway.World.{about}
use secure_api_gateway.Fixtures.{parse_uuid, post_request, failing_trail}

abbrev details : Details
details = about post_request 401 "invalid_credentials"

-- The method of an event is in capitals.
capitals :
    made parse_uuid post_request login_failed failure details
    ≡ ok (record {
      event_type = login_failed;
      outcome = failure;
      request_id = "request-1";
      details = record details { method = some (text "POST") };
    })
unfolding trusted_event get_trusted_request_id create_security_audit_event details_valid
    status_code_valid optional_code_valid upper_method upper upper_char is_stripped
    starts_with_space ends_with_space is_space
capitals = refl

no_request_id :
    made parse_uuid (record post_request { request_id = none }) login_failed failure details
    ≡ raised runtime_error
unfolding trusted_event get_trusted_request_id
no_request_id = refl

failing-KeepsContract : KeepsContract failing_trail
failing-KeepsContract = (inr refl, tt)

record-made_example :
    let (r, t) =
      record_request_security_event parse_uuid post_request login_failed failure details
        failing_trail in
    let m = trusted_event parse_uuid post_request login_failed failure details in
    (r ≡ m)
    × KeepsContract t
    × ((event : SecurityAuditEvent) → m ≡ ok event → newest t.log ≡ some event)
    × ((e : Exn) → m ≡ raised e → t ≡ failing_trail)
record-made_example =
    record-made parse_uuid post_request login_failed failure details failing_trail
      failing-KeepsContract

failing-IsClean : IsClean failing_trail
failing-IsClean = record { log = tt; rows = tt }
