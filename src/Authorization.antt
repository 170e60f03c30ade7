-- ===== src/Authorization.antt =====
-- Authorization: which permission a request needs, and whether its user has it. The normal form of
-- permission codes of gateway/app/authorization/models.py, has_permission and require_permission of
-- service.py, the list of services of gateway/app/proxy/registry.py, and dependencies.py.
-- RoleNames and Roles have the rest, which is about the roles of users.
--
-- Unicode normalization (NFKC, strip, casefold) is a parameter.
pub mod Enforcement
pub mod Answers
pub mod RoleNames
pub mod Roles
mod Examples
use secure_api_gateway.Prelude.{
  ℕ, zero, suc, Bool, true, false, not, ◌&&◌, ◌||◌, Option, none, some, String, List, [], ◌∷◌, leb,
  ◌==◌, if◌then◌else◌,
}
use Prim.Native.String.{◌++◌}
use secure_api_gateway.Prelude.Lists.{length}
use secure_api_gateway.Prelude.Texts.{Text, text, strip, upper, is_in, is_lower, is_digit}
use secure_api_gateway.Http.{
  HttpException, Exn, http, authorization_denied_error, authorization_repository_backend_error,
  permission_code_policy_error, Result, ok, raised, Action, pure, raise, lift, try_except, when,
  ◌>>=◌, ◌>>◌,
}
use secure_api_gateway.Audit.{
  Request, AuditEventType, authorization_denied, authorization_backend_unavailable, AuditOutcome,
  denied, unavailable, Details, record_request_security_event,
}
use secure_api_gateway.World.{Services, World, on_trail, on_roles, about}
use secure_api_gateway.RateLimit.Dependencies.{retry_in_a_second, about_proxy}
use secure_api_gateway.Auth.{UserPublic}
use package.text.Mathlib.Text.{◌==◌ as str_eq}

-- The rest of a code that PERMISSION_CODE_PATTERN matches: whether a segment begins here, and how
-- many segments follow the current one.
unfoldable pub code_from : Bool → ℕ → Text → Bool
unfolding is_lower is_digit
code_from begins left [] = not begins && left == 0
code_from true left (c ∷ s) = is_lower c && code_from false left s
code_from false zero (c ∷ s) = (is_lower c || is_digit c || c == b'-') && code_from false zero s
code_from false (suc left) (c ∷ s) =
    (c == b':' && code_from true left s)
    || ((is_lower c || is_digit c || c == b'-') && code_from false (suc left) s)

unfoldable pub normalize_permission_code : (String → String) → String → Result String
unfolding code_from
normalize_permission_code normalize permission_code =
    let normalized = normalize permission_code in
    let chars = text normalized in
    if length chars == 0
    then raised permission_code_policy_error
    else if not (leb (length chars) 128)
    then raised permission_code_policy_error
    else if not (code_from true 2 chars)
    then raised permission_code_policy_error
    else ok normalized

-- The keys of SERVICE_DEFINITIONS.
unfoldable pub is_registered_service : String → Bool
is_registered_service service_name =
    str_eq service_name "service-a" || str_eq service_name "service-b"

abbrev pub proxy_read_methods : List Text
proxy_read_methods = text "GET" ∷ text "HEAD" ∷ text "OPTIONS" ∷ []

abbrev pub proxy_write_methods : List Text
proxy_write_methods = text "POST" ∷ text "PUT" ∷ text "PATCH" ∷ text "DELETE" ∷ []

unfoldable pub authorization_denied_response : Exn
authorization_denied_response =
    http (record { status_code = 403; detail = "Permission denied."; headers = [] })

unfoldable pub authorization_unavailable_response : Exn
authorization_unavailable_response = http (record {
  status_code = 503;
  detail = "Authorization service is temporarily unavailable.";
  headers = retry_in_a_second;
})

unfoldable pub unknown_service : String → Exn
unknown_service service_name =
    http (record { status_code = 404; detail = "Unknown service: " ++ service_name; headers = [] })

unfoldable pub proxy_permission : String → String → String
proxy_permission service_name action = "proxy:" ++ (service_name ++ (":" ++ action))

unfoldable pub resolve_proxy_permission : String → Text → Result String
unfolding is_registered_service unknown_service strip upper is_in
resolve_proxy_permission service_name method =
    let normalized_method = upper (strip method) in
    if not (is_registered_service service_name)
    then raised (unknown_service service_name)
    else if is_in normalized_method proxy_read_methods
    then ok (proxy_permission service_name "read")
    else if is_in normalized_method proxy_write_methods
    then ok (proxy_permission service_name "write")
    else raised authorization_denied_response

-- AuthorizationRepository. A frozenset is a list.
pub record AuthorizationRepository (Roles : Type 0) : Type 0 where
  pub get_role_names_for_user : String → Action Roles (List String)
  pub get_permission_codes_for_user : String → Action Roles (List String)
  pub has_permission : String → String → Action Roles Bool
  pub assign_role : String → String → Action Roles Bool
  pub remove_role : String → String → Action Roles Bool

module _ {Roles : Type 0} (normalize : String → String)
    (repository : AuthorizationRepository Roles) where
  -- AuthorizationService.has_permission
  unfoldable pub has_permission : String → String → Action Roles Bool
  unfolding normalize_permission_code
  has_permission user_id permission_code = do
    normalized ← lift (normalize_permission_code normalize permission_code)
    repository.has_permission user_id normalized

  -- AuthorizationService.require_permission
  unfoldable pub require_permission : String → String → Action Roles (Unit {0})
  unfolding has_permission
  require_permission user_id permission_code = do
    allowed ← has_permission user_id permission_code
    when (not allowed) (raise authorization_denied_error)

module _ {s : Services} (parse_uuid : String → Option String) (request : Request) where
  unfoldable pub event : AuditEventType → AuditOutcome → Details → Action (World s) (Unit {0})
  event event_type outcome d =
      on_trail (record_request_security_event parse_uuid request event_type outcome d) >> pure tt

  -- The `except` clauses around require_permission; the first argument describes the request.
  unfoldable pub not_permitted : (ℕ → String → Details) → Exn → Action (World s) (Unit {0})
  not_permitted describe authorization_denied_error =
      event authorization_denied denied (describe 403 "permission_missing")
      >> raise authorization_denied_response
  not_permitted describe authorization_repository_backend_error =
      event authorization_backend_unavailable unavailable
        (describe 503 "authorization_repository_unavailable")
      >> raise authorization_unavailable_response
  not_permitted describe e = raise e

  module _ (normalize : String → String) (repository : AuthorizationRepository s.Roles) where
    unfoldable pub enforce_proxy_authorization : String → String → Action (World s) (Unit {0})
    enforce_proxy_authorization service_name user_id = do
      required_permission ← lift (resolve_proxy_permission service_name request.method)
      try_except (on_roles (require_permission normalize repository user_id required_permission)) (
          not_permitted (λ status_code reason_code.
            record (about_proxy request user_id service_name status_code reason_code) {
              permission_code = some (text required_permission);
            }))

    -- The dependency that require_permission of dependencies.py builds.
    unfoldable pub permission_dependency : String → UserPublic → Action (World s) UserPublic
    permission_dependency permission_code current_user =
        try_except
          (on_roles (require_permission normalize repository current_user.id permission_code))
          (not_permitted (λ status_code reason_code.
            record (about request status_code reason_code) {
              actor_user_id = some current_user.id;
              permission_code = some (text permission_code);
            }))
        >> pure current_user
