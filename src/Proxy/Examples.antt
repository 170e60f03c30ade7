-- ===== src/Proxy/Examples.antt =====
-- The proxy at concrete requests.
use secure_api_gateway.Prelude.{
  ℕ, ◌*◌, ◌≤◌, ◌≡◌, ◌⊎◌, true, false, Option, none, some, String, List, [], ◌∷◌, refl,
  if◌then◌else◌,
}
use secure_api_gateway.Prelude.Dict.{get, put}
use secure_api_gateway.Prelude.Int.{pos, between}
use secure_api_gateway.Prelude.Numerals.{parse_int, unsigned_or_signed, signed, digits}
use secure_api_gateway.Prelude.Texts.{
  text, text_eq, is_in, strip, lstrip, rstrip, is_space, is_digit, is_empty, strip_string,
  lstrip_string, rstrip_string, keep_before,
}
use secure_api_gateway.Redis.Memory.{vacant}
use secure_api_gateway.Http.{ok, Result, Action}
use secure_api_gateway.RateLimit.{RateLimitDecision}
use secure_api_gateway.Authorization.{AuthorizationRepository}
use secure_api_gateway.Circuit.{Settings, init, second}
use secure_api_gateway.Executor.{Environment, responded, execute_on}
use secure_api_gateway.Proxy.Headers.{
  lower, lower_char, in_front, split, tokens_of, get_connection_header_tokens, keep_headers,
  request_header_blocked, filter_request_headers, filter_response_headers,
}
use secure_api_gateway.Proxy.Headers.Tokens.{connection_named_blocked}
use secure_api_gateway.Proxy.Settings.{
  Seconds, ticks, from_environment, settings_of, make_settings, seconds_between, ticks_of, getenv,
}
use secure_api_gateway.Proxy.Settings.Bounds.{configured_call}
use secure_api_gateway.Proxy.Url.{
  SplitResult, get_service_base_url, validate_service_base_url, after_split, parts_valid,
  is_missing, is_given, rstrip_slash, keep_before_slash,
}
use secure_api_gateway.Proxy.Route.{
  Incoming, outgoing_headers, put_if, non_empty, header_value, Gateway, proxy_request,
}
use secure_api_gateway.Proxy.Route.Forwarding.{SetByGateway, outgoing_headers-SetByGateway}
use secure_api_gateway.Proxy.Route.Guards.{IsRefused, HasPassed, proxy_request-guarded}
use secure_api_gateway.Fixtures.{parse_uuid, post_request, services, world_of}
use package.text.Mathlib.Text.{◌==◌ as str_eq}

-- Headers of a client that names one of them in its Connection header, and pretends an address.
abbrev headers : List (String × String)
headers =
    ("Connection", "close, X-Secret")
    ∷ ("x-secret", "1")
    ∷ ("X-Forwarded-For", "10.0.0.1")
    ∷ ("accept", "text/plain")
    ∷ []

secret_dropped : filter_request_headers headers ≡ ("accept", "text/plain") ∷ []
unfolding filter_request_headers keep_headers request_header_blocked lower lower_char is_in text_eq
    get_connection_header_tokens tokens_of split in_front strip lstrip rstrip is_space put
secret_dropped = refl

connection_lowered : lower (text "Connection") ≡ text "connection"
unfolding lower lower_char
connection_lowered = refl

secret_stripped : strip (text " X-Secret") ≡ b'X' ∷ text "-Secret"
unfolding strip lstrip rstrip is_space
secret_stripped = refl

secret_lowered : lower (text "x-secret") ≡ lower (b'X' ∷ text "-Secret")
unfolding lower lower_char
secret_lowered = refl

connection_named_blocked_example :
    (get "x-secret" (filter_request_headers headers) ≡ none)
    × (get "x-secret" (filter_response_headers headers) ≡ none)
connection_named_blocked_example =
    connection_named_blocked []
      (("x-secret", "1") ∷ ("X-Forwarded-For", "10.0.0.1") ∷ ("accept", "text/plain") ∷ [])
      "Connection" "close, X-Secret" (text "close") (text " X-Secret" ∷ []) (text "close" ∷ []) []
      (text " X-Secret") (text "-Secret") b'X' "x-secret" connection_lowered (refl, (refl, tt)) refl
      refl secret_stripped secret_lowered

abbrev incoming : Incoming
incoming = record {
  request = post_request;
  scheme = "https";
  client = some "192.0.2.7";
  headers = headers;
  params = [];
  body = [];
}

forwarding_blocked : request_header_blocked headers "x-forwarded-for" ≡ true
unfolding request_header_blocked lower lower_char is_in text_eq
forwarding_blocked = refl

client_sent : get "x-forwarded-for" (outgoing_headers incoming) ≡ some "192.0.2.7"
unfolding outgoing_headers filter_request_headers keep_headers request_header_blocked lower
    lower_char is_in text_eq get_connection_header_tokens tokens_of split in_front strip lstrip
    rstrip is_space put get put_if non_empty header_value
client_sent = refl

outgoing_headers-SetByGateway_example : SetByGateway incoming "x-forwarded-for" "192.0.2.7"
outgoing_headers-SetByGateway_example =
    outgoing_headers-SetByGateway incoming "x-forwarded-for" "192.0.2.7" forwarding_blocked
      client_sent

-- `float` at the defaults.
abbrev float : String → Option Seconds
float value =
    if str_eq value "0.1"
    then some (ticks (pos 100_000_000))
    else if str_eq value "10"
    then some (ticks (pos (10 * second)))
    else none

abbrev no_environment : String → Option String
no_environment name = none

abbrev default_settings : Settings
default_settings = record {
  max_attempts = 2;
  retry_base_delay = 100_000_000;
  failure_threshold = 3;
  recovery_timeout = 10 * second;
}

defaults : from_environment float no_environment ≡ ok default_settings
unfolding from_environment settings_of make_settings seconds_between ticks_of getenv between
    parse_int unsigned_or_signed signed digits strip lstrip rstrip is_space is_digit
defaults = refl

-- Every attempt is answered by an error of the upstream.
abbrev failing : Environment
failing = record {
  attempt = λ n. responded (record { status_code = 503; headers = []; content = [] });
  sleep_cancelled = λ n. false;
  others = λ n c. c;
  others_asleep = λ n c. c;
  clock = λ n. n;
}

configured_call_example :
    (execute_on default_settings none "service-a" (text "GET") failing init).1.requests ≤ 3
configured_call_example =
    configured_call float no_environment default_settings none "service-a" (text "GET") failing init
      defaults

-- `urlsplit` at the URLs of the defaults.
abbrev urlsplit : String → Result SplitResult
urlsplit value = ok (record {
  scheme = "http";
  hostname = some "127.0.0.1";
  username = none;
  password = none;
  query = "";
  fragment = "";
})

default_url : get_service_base_url urlsplit no_environment "service-a" ≡ ok "http://127.0.0.1:8001"
unfolding get_service_base_url getenv validate_service_base_url after_split parts_valid is_missing
    is_given is_empty is_space strip_string lstrip_string rstrip_string keep_before rstrip_slash
    keep_before_slash
default_url = refl

abbrev same : String → String
same code = code

-- Every user may do everything.
abbrev repository : AuthorizationRepository ℕ
repository = record {
  get_role_names_for_user = λ user_id n. (ok [], n);
  get_permission_codes_for_user = λ user_id n. (ok [], n);
  has_permission = λ user_id code n. (ok true, n);
  assign_role = λ user_id role n. (ok true, n);
  remove_role = λ user_id role n. (ok true, n);
}

abbrev allowing : Action ℕ RateLimitDecision
allowing n = (
  ok (record {
    allowed = true;
    limit = 60;
    remaining = 59;
    retry_after_seconds = 0;
    reset_after_seconds = 1;
  }),
  n,
)

abbrev gateway : Gateway services
gateway = record {
  world = world_of vacant;
  circuits = ("service-a", init) ∷ [];
  upstream_metrics = [];
}

proxy_request-guarded_example :
    IsRefused gateway (
      proxy_request parse_uuid same repository urlsplit no_environment default_settings
        (λ out. failing)
        incoming
        "service-a"
        "items"
        "user-1"
        allowing
        gateway)
    ⊎ HasPassed same repository urlsplit no_environment incoming "service-a" "user-1" allowing
        gateway
proxy_request-guarded_example =
    proxy_request-guarded parse_uuid same repository urlsplit no_environment default_settings
      (λ out. failing) incoming "service-a" "items" "user-1" allowing gateway
