-- ===== src/Authorization/Answers.antt =====
-- What the authorization of a proxied request answers, and that permissions are kept apart.
use secure_api_gateway.Prelude.{
  ℕ, ◌≡◌, Bool, true, Option, some, String, if◌then◌else◌, arith, refl, inl, inr, ◌⊎◌,
}
use secure_api_gateway.Prelude.Texts.{
  Text, text, strip, upper, is_in, is_stripped, starts_with_space, ends_with_space, is_space,
}
use secure_api_gateway.Http.{
  authorization_denied_error, authorization_repository_backend_error, Result, ok, raised,
}
use secure_api_gateway.Audit.{
  Request, authorization_denied, authorization_backend_unavailable, denied, unavailable,
  status_code_valid, optional_code_valid,
}
use secure_api_gateway.Audit.Recording.{KeepsContract, record-made}
use secure_api_gateway.Audit.Trusted.{IsTrusted, others_valid, made_about, IsCode, none_valid}
use secure_api_gateway.World.{Services, World}
use secure_api_gateway.Authorization.{
  normalize_permission_code, is_registered_service, proxy_read_methods, proxy_write_methods,
  proxy_permission, resolve_proxy_permission, authorization_denied_response,
  authorization_unavailable_response, unknown_service, AuthorizationRepository,
}
use secure_api_gateway.Authorization
use secure_api_gateway.Authorization.Enforcement.{IsNeeded, resolve-IsNeeded, describe}
use package.text.Mathlib.Text.{◌==◌ as str_eq}
use package.text.Mathlib.TextEquality.{eq_iff}

registered_cases :
    (service_name : String)
    → is_registered_service service_name ≡ true
    → (service_name ≡ "service-a") ⊎ (service_name ≡ "service-b")
unfolding is_registered_service
registered_cases service_name h =
    ground (arith, h, eq_iff service_name "service-a", eq_iff service_name "service-b")

abbrev tag : String → ℕ
tag p =
    if str_eq p "proxy:service-a:read"
    then 0
    else if str_eq p "proxy:service-a:write"
    then 1
    else if str_eq p "proxy:service-b:read"
    then 2
    else 3

tags :
    (tag (proxy_permission "service-a" "read") ≡ 0)
    × (tag (proxy_permission "service-a" "write") ≡ 1)
    × (tag (proxy_permission "service-b" "read") ≡ 2)
    × (tag (proxy_permission "service-b" "write") ≡ 3)
unfolding proxy_permission
tags = (refl, refl, refl, refl)

-- Two requests that need the same permission are for the same service, and both read or both write.
pub resolve_proxy_permission-apart :
    (service_a service_b : String) (method_a method_b : Text) (permission : String)
    → resolve_proxy_permission service_a method_a ≡ ok permission
    → resolve_proxy_permission service_b method_b ≡ ok permission
    → (service_a ≡ service_b)
      × (is_in (upper (strip method_a)) proxy_read_methods
          ≡ is_in (upper (strip method_b)) proxy_read_methods)
resolve_proxy_permission-apart service_a service_b method_a method_b permission h k =
    let a = resolve-IsNeeded service_a method_a permission h in
    let b = resolve-IsNeeded service_b method_b permission k in
    ground (
      arith,
      registered_cases service_a a.registered,
      registered_cases service_b b.registered,
      a.action,
      b.action,
      tags,
    )

codes :
    IsCode "service-a"
    × IsCode "service-b"
    × IsCode (proxy_permission "service-a" "read")
    × IsCode (proxy_permission "service-a" "write")
    × IsCode (proxy_permission "service-b" "read")
    × IsCode (proxy_permission "service-b" "write")
    × IsCode "permission_missing"
    × IsCode "authorization_repository_unavailable"
unfolding proxy_permission optional_code_valid is_stripped starts_with_space ends_with_space
    is_space
codes = (refl, refl, refl, refl, refl, refl, refl, refl)

needed_valid :
    (service_name : String) (method : Text) (needed : String)
    → IsNeeded service_name method needed
    → IsCode service_name × IsCode needed
needed_valid service_name method needed n =
    let (c1, c2, c3, c4, c5, c6, _, _) = codes in
    elim (registered_cases service_name n.registered) [
      | inl a ↦ elim n.action [
        | inl (_, r) ↦ (rw a c1, rw (r, a) c3)
        | inr (_, _, r) ↦ (rw a c1, rw (r, a) c4)
      ]
      | inr b ↦ elim n.action [
        | inl (_, r) ↦ (rw b c2, rw (r, b) c5)
        | inr (_, _, r) ↦ (rw b c2, rw (r, b) c6)
      ]
    ]

described_valid :
    (request : Request) (user_id service_name needed : String) (status : ℕ) (reason : String)
    → status_code_valid (some status) ≡ true
    → IsCode service_name
    → IsCode needed
    → IsCode reason
    → others_valid (describe request user_id service_name needed status reason) ≡ true
unfolding others_valid
described_valid request user_id service_name needed status reason h a b c =
    ground (arith, none_valid 160, h, a, b, c)

-- What the repository's answer comes to.
abbrev pub permitted : Result Bool → Result (Unit {0})
permitted (ok granted) = if granted then ok tt else raised authorization_denied_response
permitted (raised authorization_repository_backend_error) =
    raised authorization_unavailable_response
permitted (raised authorization_denied_error) = raised authorization_denied_response
permitted (raised e) = raised e

module _ {s : Services} (parse_uuid : String → Option String) (request : Request)
    (normalize : String → String) (repository : AuthorizationRepository s.Roles) where
  -- A trusted request that resolves to a permission with a normal form passes when the repository
  -- grants it; it is answered 403 when the repository does not, and 503 when its backend fails,
  -- while the audit repository keeps its contract.
  pub enforce_proxy_authorization-permitted :
      (service_name user_id needed granted : String) (w : World s)
      → IsTrusted parse_uuid request
      → KeepsContract w.trail
      → resolve_proxy_permission service_name request.method ≡ ok needed
      → normalize_permission_code normalize needed ≡ ok granted
      → (Authorization.enforce_proxy_authorization parse_uuid request normalize repository
          service_name user_id w).0
        ≡ permitted (repository.has_permission user_id granted w.roles).0
  unfolding Authorization.enforce_proxy_authorization Authorization.not_permitted
      Authorization.event Authorization.require_permission Authorization.has_permission
      status_code_valid
  enforce_proxy_authorization-permitted service_name user_id needed granted w trusted h e n =
      let (_, _, _, _, _, _, c7, c8) = codes in
      let (c, d) =
        needed_valid service_name request.method needed
          (resolve-IsNeeded service_name request.method needed e) in
      let asked = record w { roles = (repository.has_permission user_id granted w.roles).1 } in
      let m₁ =
        made_about trusted authorization_denied denied
          (describe request user_id service_name needed 403 "permission_missing") refl
          (described_valid request user_id service_name needed 403 "permission_missing" refl c d
            c7) in
      let m₂ =
        made_about trusted authorization_backend_unavailable unavailable
          (describe request user_id service_name needed 503 "authorization_repository_unavailable")
          refl
          (described_valid request user_id service_name needed 503
            "authorization_repository_unavailable" refl c d c8) in
      let r₁ =
        record-made parse_uuid request authorization_denied denied
          (describe request user_id service_name needed 403 "permission_missing") w.trail h in
      let r₂ =
        record-made parse_uuid request authorization_backend_unavailable unavailable
          (describe request user_id service_name needed 503 "authorization_repository_unavailable")
          w.trail h in
      ground (arith, e, n, r₁.0, r₂.0, m₁, m₂)
