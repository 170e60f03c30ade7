-- ===== src/Proxy/Route/Guards.antt =====
-- A request reaches the upstream only past the rate limit and the authorization.
use secure_api_gateway.Prelude.{◌≡◌, ◌⊎◌, inl, inr, true, Option, String, arith, refl}
use secure_api_gateway.Http.{
  Exn, Result, Result-cases, ok, raised, unknown_service_error, Action, ◌>>=◌,
}
use secure_api_gateway.World.{Services}
use secure_api_gateway.RateLimit.{RateLimitDecision}
use secure_api_gateway.RateLimit.Dependencies.{enforce_proxy_rate_limit}
use secure_api_gateway.RateLimit.Enforcement.{only_allowed_pass, enforce_proxy_rate_limit-roles}
use secure_api_gateway.Authorization.{
  AuthorizationRepository, unknown_service, normalize_permission_code, enforce_proxy_authorization,
}
use secure_api_gateway.Authorization.Enforcement.{IsNeeded, only_permitted_pass}
use secure_api_gateway.Circuit.{Settings}
use secure_api_gateway.Executor.{Environment}
use secure_api_gateway.Proxy.Url.{SplitResult, get_service_base_url}
use secure_api_gateway.Proxy.Route.{
  Incoming, Outgoing, ProxyResponse, Gateway, on_world, not_registered, forward, proxy_request,
}

-- The limiter allowed the request, a permission for it was granted, and the service has a URL.
pub record HasPassed {s : Services} (normalize : String → String)
    (repository : AuthorizationRepository s.Roles) (urlsplit : String → Result SplitResult)
    (environ : String → Option String) (i : Incoming) (service_name user_id : String)
    (check : Action s.Limits RateLimitDecision) (g : Gateway s) : Type 0 where
  pub decision : RateLimitDecision
  pub limited : (check g.world.limits).0 ≡ ok decision
  pub allowed : decision.allowed ≡ true
  pub needed : String
  pub granted : String
  pub is_needed : IsNeeded service_name i.request.method needed
  pub normal : normalize_permission_code normalize needed ≡ ok granted
  pub permitted : (repository.has_permission user_id granted g.world.roles).0 ≡ ok true
  pub base_url : String
  pub has_url : get_service_base_url urlsplit environ service_name ≡ ok base_url

-- Nothing of the upstream was touched, and the request is refused.
abbrev pub IsRefused : {s : Services} → Gateway s → Result ProxyResponse × Gateway s → Type 0
IsRefused g (r, g') =
    ((e : Exn) × (r ≡ raised e))
    × (g'.circuits ≡ g.circuits)
    × (g'.upstream_metrics ≡ g.upstream_metrics)

unregistered :
    {S A : Type 0} (service_name : String) (e : Exn) (st : S)
    → (x : Exn) × (not_registered {S = S} {A = A} service_name e st ≡ (raised x, st))
unfolding not_registered
unregistered service_name unknown_service_error st = (unknown_service service_name, refl)
unregistered service_name e st = (e, refl)

module _ {s : Services} (parse_uuid : String → Option String) (normalize : String → String)
    (repository : AuthorizationRepository s.Roles) (urlsplit : String → Result SplitResult)
    (environ : String → Option String) (settings : Settings) (upstream : Outgoing → Environment)
    (i : Incoming) (service_name path user_id : String)
    (check : Action s.Limits RateLimitDecision) where
  forward_refused :
      (decision : RateLimitDecision) (e : Exn) (g : Gateway s)
      → get_service_base_url urlsplit environ service_name ≡ raised e
      → (x : Exn) × (forward parse_uuid normalize repository urlsplit environ settings upstream i
            service_name path decision g
          ≡ (raised x, g))
  unfolding forward
  forward_refused decision e g b =
      let (x, same) = unregistered {A = String} service_name e g in (x, ground (arith, b, same))

  -- A request that the rate limit, the authorization or the registry of services stops is refused,
  -- and touches neither a breaker nor the upstream, whatever fails on the way: every other request
  -- was allowed by the limiter, was granted the permission for its service and method by the
  -- repository as it was when the request came, and its service has a URL.
  pub proxy_request-guarded :
      (g : Gateway s)
      → IsRefused g (
          proxy_request parse_uuid normalize repository urlsplit environ settings upstream i
            service_name path user_id check g)
        ⊎ HasPassed normalize repository urlsplit environ i service_name user_id check g
  unfolding proxy_request
  proxy_request-guarded g =
      let limited =
        enforce_proxy_rate_limit parse_uuid i.request service_name user_id check g.world in
      elim (Result-cases limited.0) [
        | inr (e, h) ↦ inl (rw (◌>>=◌, on_world, h) ((e, refl), refl, refl))
        | inl (decision, h) ↦
            let allowed =
              only_allowed_pass parse_uuid i.request check service_name user_id g.world decision
                (inr h) in
            let same_roles =
              enforce_proxy_rate_limit-roles parse_uuid i.request check service_name user_id
                g.world in
            let permitted =
              enforce_proxy_authorization parse_uuid i.request normalize repository service_name
                user_id limited.1 in
            elim (Result-cases permitted.0) [
              | inr (e, k) ↦ inl (rw (◌>>=◌, on_world, h, k) ((e, refl), refl, refl))
              | inl (u, k) ↦
                  let (needed, granted, is_needed, normal, answer) =
                    only_permitted_pass parse_uuid i.request normalize repository service_name
                      user_id limited.1 u k in
                  elim (Result-cases (get_service_base_url urlsplit environ service_name)) [
                    | inl (url, b) ↦ inr (record {
                      decision = decision;
                      limited = allowed.0;
                      allowed = allowed.1;
                      needed = needed;
                      granted = granted;
                      is_needed = is_needed;
                      normal = normal;
                      permitted = rw⁻¹ same_roles answer;
                      base_url = url;
                      has_url = b;
                    })
                    | inr (e, b) ↦
                        let before : Gateway s = record g { world = permitted.1 } in
                        let (x, same) = forward_refused decision e before b in
                        inl (rw (◌>>=◌, on_world, h, k, same) ((x, refl), refl, refl))
                  ]
            ]
      ]
