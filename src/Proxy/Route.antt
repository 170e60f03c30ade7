-- ===== src/Proxy/Route.antt =====
-- proxy_request of gateway/app/proxy/router.py: a request is limited, authorized, and forwarded by the
-- executor; what becomes of it is the response or an HTTP error. The durations of the metrics are left
-- out.
pub mod Forwarding
pub mod Guards
use secure_api_gateway.Prelude.{
  ℕ, ◌/◌, Bool, true, false, ◌&&◌, Option, none, some, String, List, [], ◌∷◌, leb, ◌==◌,
  if◌then◌else◌, map,
}
use secure_api_gateway.Prelude.Dict.{Dict, put}
use secure_api_gateway.Prelude.Texts.{Text, text, text_eq, is_empty}
use secure_api_gateway.Http.{
  HeaderValue, word, number, Exn, http, Result, unknown_service_error, lookup_error, runtime_error,
  unforeseen_error, cancelled_error, Action, pure, raise, lift, try_except, ok, raised, ◌>>=◌, ◌>>◌,
}
use secure_api_gateway.Audit.{Request}
use secure_api_gateway.World.{Services, World}
use secure_api_gateway.RateLimit.{RateLimitDecision, build_rate_limit_headers}
use secure_api_gateway.RateLimit.Dependencies.{enforce_proxy_rate_limit}
use secure_api_gateway.Authorization.{
  AuthorizationRepository, unknown_service, enforce_proxy_authorization,
}
use secure_api_gateway.Circuit.{Settings}
use secure_api_gateway.Circuit.Registry.{Registry}
use secure_api_gateway.Executor.Classify.{
  RequestError, connect_timeout, read_timeout, write_timeout, pool_timeout,
}
use secure_api_gateway.Executor.{
  Response, Environment, Finish, returned, request_error, loop_exited,
}
use secure_api_gateway.Executor
use secure_api_gateway.Proxy.Headers.{lower, filter_request_headers, filter_response_headers}
use secure_api_gateway.Proxy.Url.{SplitResult, get_service_base_url, target_url}

-- What proxy_request reads of a request.
pub record Incoming : Type 0 where
  pub request : Request
  pub scheme : String
  -- request.client.host
  pub client : Option String
  pub headers : List (String × String)
  pub params : List (String × String)
  pub body : Text

-- What the executor sends.
pub record Outgoing : Type 0 where
  pub method : Text
  pub url : String
  pub params : List (String × String)
  pub headers : Dict String
  pub content : Text

pub record ProxyResponse : Type 0 where
  pub status_code : ℕ
  pub headers : Dict HeaderValue
  pub content : Text

-- `request.headers.get(name)` for a name in lower case: the first value.
unfoldable pub header_value : Text → List (String × String) → Option String
unfolding lower text_eq
header_value name [] = none
header_value name ((other, value) ∷ headers) =
    let rest = header_value name headers in
    if text_eq (lower (text other)) name then some value else rest

unfoldable pub put_if : String → Option String → Dict String → Dict String
put_if name none headers = headers
put_if name (some value) headers = put name value headers

-- A text that is not empty.
unfoldable pub non_empty : Option String → Option String
unfolding is_empty
non_empty none = none
non_empty (some value) = if is_empty value then none else some value

unfoldable pub outgoing_headers : Incoming → Dict String
unfolding put_if non_empty header_value
outgoing_headers i =
    let filtered = filter_request_headers i.headers in
    let identified = put_if "x-request-id" i.request.request_id filtered in
    let from_client = put_if "x-forwarded-for" i.client identified in
    let with_proto = put "x-forwarded-proto" i.scheme from_client in
    put_if "x-forwarded-host" (non_empty (header_value (text "host") i.headers)) with_proto

unfoldable pub outgoing : Incoming → String → String → Outgoing
unfolding outgoing_headers
outgoing i base_url path = record {
  method = i.request.method;
  url = target_url base_url path;
  params = i.params;
  headers = outgoing_headers i;
  content = i.body;
}

-- isinstance(exc, httpx.TimeoutException)
unfoldable pub is_timeout : RequestError → Bool
is_timeout connect_timeout = true
is_timeout read_timeout = true
is_timeout write_timeout = true
is_timeout pool_timeout = true
is_timeout _ = false

-- status_class of gateway/app/observability/metrics.py
unfoldable pub status_class : ℕ → String
status_class status_code =
    if leb 100 status_code && leb status_code 599
    then (let class = status_code / 100 in
        if class == 1
        then "1xx"
        else if class == 2
        then "2xx"
        else if class == 3
        then "3xx"
        else if class == 4
        then "4xx"
        else "5xx")
    else "unknown"

-- dict.update
unfoldable pub put_all : Dict HeaderValue → Dict HeaderValue → Dict HeaderValue
put_all [] headers = headers
put_all ((name, value) ∷ more) headers = put_all more (put name value headers)

unfoldable pub gateway_error : ℕ → String → Dict HeaderValue → Exn
gateway_error status_code detail headers =
    http (record { status_code = status_code; detail = detail; headers = headers })

unfoldable pub not_registered : {S A : Type 0} → String → Exn → Action S A
not_registered service_name unknown_service_error = raise (unknown_service service_name)
not_registered service_name e = raise e

-- The services, the breakers, and the observations of upstream requests.
pub record Gateway (s : Services) : Type 0 where
  pub world : World s
  pub circuits : Registry
  pub upstream_metrics : List (String × String)

module _ {s : Services} where
  abbrev pub on_world : {A : Type 0} → Action (World s) A → Action (Gateway s) A
  on_world m g = let r = m g.world in (r.0, record g { world = r.1 })

  -- record_upstream_metric_best_effort
  unfoldable pub count_upstream : String → String → Action (Gateway s) (Unit {0})
  count_upstream service outcome g =
      (ok tt, record g { upstream_metrics = (service, outcome) ∷ g.upstream_metrics })

  -- The call of the executor; `upstream` is how the upstream and the other tasks treat it. The
  -- callback for events never raises.
  unfoldable pub call_upstream :
      Settings → (Outgoing → Environment) → String → Outgoing → Action (Gateway s) Finish
  call_upstream settings upstream service_name out g =
      elim (Executor.execute settings (some (λ service event. false)) service_name out.method
        (upstream out) g.circuits) [
          | none ↦ (raised lookup_error, g)
          | some (finish, progress, circuits) ↦ (ok finish, record g { circuits = circuits })
        ]

  -- What follows the call: its `except` clauses, and the response.
  unfoldable pub answer : String → RateLimitDecision → Finish → Action (Gateway s) ProxyResponse
  unfolding count_upstream gateway_error is_timeout status_class put_all
  answer service_name decision (returned r attempts) =
      count_upstream service_name (status_class r.status_code)
      >> pure (record {
        status_code = r.status_code;
        headers =
            put_all (build_rate_limit_headers decision)
              (map (λ (name, value). (name, word value)) (filter_response_headers r.headers));
        content = r.content;
      })
  answer service_name decision (Executor.circuit_open_error retry_after) = raise (
      gateway_error 503 "Upstream service temporarily unavailable"
        (("Retry-After", number retry_after) ∷ []))
  answer service_name decision (request_error e) =
      if is_timeout e
      then count_upstream service_name "timeout"
        >> raise (gateway_error 504 "Upstream service timeout" [])
      else count_upstream service_name "unavailable"
        >> raise (gateway_error 502 "Upstream service unavailable" [])
  answer service_name decision Executor.other_exception = raise unforeseen_error
  answer service_name decision Executor.cancelled_error = raise cancelled_error
  answer service_name decision loop_exited = raise runtime_error

  module _ (parse_uuid : String → Option String) (normalize : String → String)
      (repository : AuthorizationRepository s.Roles) (urlsplit : String → Result SplitResult)
      (environ : String → Option String) (settings : Settings)
      (upstream : Outgoing → Environment) where
    -- The body of the handler, once its dependencies let the request pass.
    unfoldable pub forward :
        Incoming → String → String → RateLimitDecision → Action (Gateway s) ProxyResponse
    unfolding outgoing call_upstream answer not_registered
    forward i service_name path decision = do
      base_url ←
          try_except (lift (get_service_base_url urlsplit environ service_name))
            (not_registered service_name)
      finish ← call_upstream settings upstream service_name (outgoing i base_url path)
      answer service_name decision finish

    unfoldable pub proxy_request :
        Incoming
        → String
        → String
        → String
        → Action s.Limits RateLimitDecision
        → Action (Gateway s) ProxyResponse
    unfolding forward
    proxy_request i service_name path user_id check = do
      decision ← on_world (enforce_proxy_rate_limit parse_uuid i.request service_name user_id check)
      _ ← on_world (
          enforce_proxy_authorization parse_uuid i.request normalize repository service_name
            user_id)
      forward i service_name path decision
