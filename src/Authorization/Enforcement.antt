-- ===== src/Authorization/Enforcement.antt =====
-- A request is authorized only by a permission that the repository grants its user.
use secure_api_gateway.Prelude.{
  ℕ, ◌≡◌, ◌≢◌, true, false, Option, some, String, arith, inl, inr, ◌⊎◌,
}
use secure_api_gateway.Prelude.Texts.{Text, text, strip, upper, is_in}
use secure_api_gateway.Http.{Exn, ok, Result-cases, bind-ok, pure, lift, try_except}
use secure_api_gateway.Audit.{Request, Details}
use secure_api_gateway.World.{Services, World, on_roles, about}
use secure_api_gateway.RateLimit.Dependencies.{about_proxy}
use secure_api_gateway.Auth.{UserPublic}
use secure_api_gateway.Authorization.{
  normalize_permission_code, is_registered_service, proxy_read_methods, proxy_write_methods,
  proxy_permission, resolve_proxy_permission, authorization_denied_response,
  authorization_unavailable_response, unknown_service, AuthorizationRepository,
}
use secure_api_gateway.Authorization

-- The permission that a request resolves to is that of its service, for reading or writing as its
-- method says; no other method has one.
pub record IsNeeded (service_name : String) (method : Text) (permission : String) : Type 0 where
  pub registered : is_registered_service service_name ≡ true
  pub action :
      (is_in (upper (strip method)) proxy_read_methods ≡ true
        × (permission ≡ proxy_permission service_name "read"))
      ⊎ (is_in (upper (strip method)) proxy_read_methods ≡ false
          × is_in (upper (strip method)) proxy_write_methods ≡ true
          × (permission ≡ proxy_permission service_name "write"))

-- The fields of the events about a proxied request.
abbrev pub describe : Request → String → String → String → ℕ → String → Details
describe request user_id service_name needed status_code reason_code =
    record (about_proxy request user_id service_name status_code reason_code) {
      permission_code = some (text needed);
    }

pub resolve-IsNeeded :
    (service_name : String) (method : Text) (permission : String)
    → resolve_proxy_permission service_name method ≡ ok permission
    → IsNeeded service_name method permission
unfolding resolve_proxy_permission
resolve-IsNeeded service_name method permission h = record {
  registered = ground (arith, h);
  action = ground (arith, h);
}

module _ {Roles : Type 0} (normalize : String → String)
    (repository : AuthorizationRepository Roles) where
  require_ok :
      (user_id code : String) (st : Roles) (u : Unit {0})
      → (Authorization.require_permission normalize repository user_id code st).0 ≡ ok u
      → (granted : String) × (normalize_permission_code normalize code ≡ ok granted)
        × ((repository.has_permission user_id granted st).0 ≡ ok true)
  unfolding Authorization.require_permission Authorization.has_permission
  require_ok user_id code st u h = elim (Result-cases (normalize_permission_code normalize code)) [
    | inl (granted, e) ↦ (granted, e, ground (arith, h, e))
    | inr (x, e) ↦ ground (arith, h, e)
  ]

module _ {s : Services} (parse_uuid : String → Option String) (request : Request) where
  not_permitted_raises :
      (describe : ℕ → String → Details) (x : Exn) (w : World s) (u : Unit {0})
      → (Authorization.not_permitted parse_uuid request describe x w).0 ≢ ok u
  unfolding Authorization.not_permitted Authorization.event
  not_permitted_raises describe x w u h = ground (arith, h)

  module _ (normalize : String → String) (repository : AuthorizationRepository s.Roles) where
    guarded_ok :
        (describe : ℕ → String → Details) (user_id code : String) (w : World s) (u : Unit {0})
        → (try_except
            (on_roles (Authorization.require_permission normalize repository user_id code))
            (Authorization.not_permitted parse_uuid request describe)
            w).0
          ≡ ok u
        → (Authorization.require_permission normalize repository user_id code w.roles).0 ≡ ok u
    guarded_ok describe user_id code w u h =
        elim (Result-cases
          (Authorization.require_permission normalize repository user_id code w.roles).0) [
            | inl (v, e) ↦ ground (arith, h, e)
            | inr (x, e) ↦ ground (
              arith,
              h,
              e,
              not_permitted_raises describe x
                  (record w {
                    roles =
                        (Authorization.require_permission normalize repository user_id code
                          w.roles).1;
                  })
                  u,
            )
          ]

    -- A request passes the authorization of the proxy only if its service is registered, its method
    -- is one of those for reading or writing, and the repository grants its user the permission for
    -- that service and kind of method, whatever fails on the way.
    pub only_permitted_pass :
        (service_name user_id : String) (w : World s) (u : Unit {0})
        → (Authorization.enforce_proxy_authorization parse_uuid request normalize repository
            service_name user_id w).0
          ≡ ok u
        → (needed : String) × (granted : String) × IsNeeded service_name request.method needed
          × (normalize_permission_code normalize needed ≡ ok granted)
          × ((repository.has_permission user_id granted w.roles).0 ≡ ok true)
    unfolding Authorization.enforce_proxy_authorization
    only_permitted_pass service_name user_id w u h =
        let (needed, e, h', _) =
          bind-ok (lift (resolve_proxy_permission service_name request.method))
            (λ needed.
              try_except
                (on_roles (Authorization.require_permission normalize repository user_id needed))
                (Authorization.not_permitted parse_uuid request
                  (describe request user_id service_name needed)))
            w u h in
        let passed =
          guarded_ok (describe request user_id service_name needed) user_id needed w u h' in
        let (granted, normal, answer) =
          require_ok normalize repository user_id needed w.roles u passed in
        (needed, granted, resolve-IsNeeded service_name request.method needed e, normal, answer)

    -- A dependency for one permission passes only if the repository grants it to the user, whatever
    -- fails on the way, and hands that user on.
    pub only_granted_pass :
        (permission_code : String) (current_user user : UserPublic) (w : World s)
        → (Authorization.permission_dependency parse_uuid request normalize repository
            permission_code current_user w).0
          ≡ ok user
        → (user ≡ current_user)
          × (granted : String) × (normalize_permission_code normalize permission_code ≡ ok granted)
          × ((repository.has_permission current_user.id granted w.roles).0 ≡ ok true)
    unfolding Authorization.permission_dependency
    only_granted_pass permission_code current_user user w h =
        let describe_code : ℕ → String → Details = λ status_code reason_code.
          record (about request status_code reason_code) {
            actor_user_id = some current_user.id;
            permission_code = some (text permission_code);
          } in
        let (u, e, h', _) =
          bind-ok
            (try_except
              (on_roles (
                Authorization.require_permission normalize repository current_user.id
                  permission_code))
              (Authorization.not_permitted parse_uuid request describe_code))
            (λ _. pure current_user) w user h in
        let passed = guarded_ok describe_code current_user.id permission_code w u e in
        let (granted, normal, answer) =
          require_ok normalize repository current_user.id permission_code w.roles u passed in
        (ground (arith, h'), granted, normal, answer)
