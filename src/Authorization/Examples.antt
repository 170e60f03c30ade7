-- ===== src/Authorization/Examples.antt =====
-- Tests of the authorization, and its theorems at concrete inputs.
use secure_api_gateway.Prelude.{ℕ, suc, [], ◌∷◌, ◌≡◌, inr, true, false, refl, String, if◌then◌else◌}
use secure_api_gateway.Prelude.Texts.{
  text, strip, lstrip, rstrip, upper, upper_char, is_in, text_eq, is_space, is_lower, is_digit,
}
use secure_api_gateway.Redis.Memory.{vacant}
use secure_api_gateway.Http.{ok, raised, permission_code_policy_error}
use secure_api_gateway.Audit.Recording.{KeepsContract}
use secure_api_gateway.World.{World}
use secure_api_gateway.Auth.{UserPublic}
use secure_api_gateway.Authorization.{
  code_from, normalize_permission_code, is_registered_service, proxy_permission,
  resolve_proxy_permission, AuthorizationRepository, has_permission, require_permission,
  enforce_proxy_authorization, permission_dependency, authorization_denied_response,
  unknown_service,
}
use secure_api_gateway.Authorization.Enforcement.{IsNeeded, only_permitted_pass}
use secure_api_gateway.Fixtures.{parse_uuid, post_request, services, world_of}
use package.text.Mathlib.Text.{◌==◌ as str_eq}

-- Every user may write to service-a and read the roles, and do nothing else.
abbrev repository : AuthorizationRepository ℕ
repository = record {
  get_role_names_for_user = λ user_id n. (ok ("auditor" ∷ []), n);
  get_permission_codes_for_user = λ user_id n. (ok [], n);
  assign_role = λ user_id role n. (ok true, suc n);
  remove_role = λ user_id role n. (ok false, n);
  has_permission = λ user_id code n. (
    ok (
        if str_eq code "proxy:service-a:write"
        then true
        else str_eq code "authorization:roles:read"),
    n,
  );
}

abbrev same : String → String
same code = code

abbrev world : World services
world = world_of vacant

world-KeepsContract : KeepsContract world.trail
world-KeepsContract = (inr refl, tt)

two_segments : normalize_permission_code same "proxy:read" ≡ raised permission_code_policy_error
unfolding normalize_permission_code code_from is_lower is_digit
two_segments = refl

unregistered :
    resolve_proxy_permission "service-c" (text "GET") ≡ raised (unknown_service "service-c")
unfolding resolve_proxy_permission is_registered_service
unregistered = refl

trace_denied :
    resolve_proxy_permission "service-a" (text "TRACE") ≡ raised authorization_denied_response
unfolding resolve_proxy_permission is_registered_service strip lstrip rstrip upper upper_char is_in
    text_eq is_space
trace_denied = refl

post_needs : resolve_proxy_permission "service-a" post_request.method ≡ ok "proxy:service-a:write"
unfolding resolve_proxy_permission is_registered_service strip lstrip rstrip upper upper_char is_in
    text_eq is_space proxy_permission
post_needs = refl

put_needs : resolve_proxy_permission "service-a" (text "PUT") ≡ ok "proxy:service-a:write"
unfolding resolve_proxy_permission is_registered_service strip lstrip rstrip upper upper_char is_in
    text_eq is_space proxy_permission
put_needs = refl

write_normal : normalize_permission_code same "proxy:service-a:write" ≡ ok "proxy:service-a:write"
unfolding normalize_permission_code code_from is_lower is_digit
write_normal = refl

roles_normal :
    normalize_permission_code same "authorization:roles:read" ≡ ok "authorization:roles:read"
unfolding normalize_permission_code code_from is_lower is_digit
roles_normal = refl

abbrev service_a : String
service_a = "service-a"

post_passes :
    (enforce_proxy_authorization parse_uuid post_request same repository "service-a" "user-1"
      world).0
    ≡ ok tt
unfolding enforce_proxy_authorization require_permission has_permission resolve_proxy_permission
    is_registered_service strip lstrip rstrip upper upper_char is_in text_eq is_space
    proxy_permission normalize_permission_code code_from is_lower is_digit
post_passes = refl

only_permitted_pass_example :
    (needed : String) × (granted : String) × IsNeeded "service-a" post_request.method needed
    × (normalize_permission_code same needed ≡ ok granted)
    × ((repository.has_permission "user-1" granted 0).0 ≡ ok true)
only_permitted_pass_example =
    only_permitted_pass parse_uuid post_request same repository "service-a" "user-1" world tt
      post_passes

abbrev operator : UserPublic
operator = record { id = "user-1"; username = "operator"; is_active = true }

roles_read :
    (permission_dependency parse_uuid post_request same repository "authorization:roles:read"
      operator world).0
    ≡ ok operator
unfolding permission_dependency require_permission has_permission normalize_permission_code
    code_from is_lower is_digit
roles_read = refl
