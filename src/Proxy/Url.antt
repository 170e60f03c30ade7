-- ===== src/Proxy/Url.antt =====
-- The URL of a registered service, and of a request to it: gateway/app/proxy/registry.py, and the
-- beginning of proxy_request of router.py. `urlsplit` of urllib is a parameter, with the port of its
-- result, whose reading may raise ValueError too.
pub mod Base
use secure_api_gateway.Prelude.{
  ℕ, Bool, true, false, not, ◌&&◌, ◌||◌, Option, none, some, String, ◌==◌, if◌then◌else◌,
}
use secure_api_gateway.Prelude.Lists.{any}
use secure_api_gateway.Prelude.Texts.{text, is_space, strip_string, is_empty}
use secure_api_gateway.Http.{
  Result, ok, raised, value_error, unknown_service_error, invalid_service_configuration_error,
}
use secure_api_gateway.Proxy.Settings.{getenv}
use Prim.Native.Char.{Char, code}
use Prim.Native.String.{◌++◌}
use Prim.Native.String
use package.text.Mathlib.Text.{◌==◌ as str_eq}

pub record SplitResult : Type 0 where
  pub scheme : String
  pub hostname : Option String
  pub username : Option String
  pub password : Option String
  pub query : String
  pub fragment : String

unfoldable pub keep_before_slash : Char → String → String
keep_before_slash c String.[] = if code c == b'/' then "" else String.◌∷◌ c String.[]
keep_before_slash c (String.◌∷◌ d s) = String.◌∷◌ c (String.◌∷◌ d s)

-- `value.rstrip("/")`
unfoldable pub rstrip_slash : String → String
unfolding keep_before_slash
rstrip_slash String.[] = ""
rstrip_slash (String.◌∷◌ c s) = keep_before_slash c (rstrip_slash s)

-- `value.lstrip("/")`
unfoldable pub lstrip_slash : String → String
lstrip_slash String.[] = ""
lstrip_slash (String.◌∷◌ c s) = if code c == b'/' then lstrip_slash s else String.◌∷◌ c s

unfoldable pub is_missing : Option String → Bool
unfolding is_empty
is_missing none = true
is_missing (some value) = is_empty value

unfoldable pub is_given : Option String → Bool
is_given none = false
is_given (some value) = true

-- The tests of _validate_service_base_url on the parts of the URL.
unfoldable pub parts_valid : SplitResult → Bool
unfolding is_missing is_given is_empty
parts_valid parsed =
    (str_eq parsed.scheme "http" || str_eq parsed.scheme "https")
    && not (is_missing parsed.hostname)
    && not (is_given parsed.username || is_given parsed.password)
    && is_empty parsed.query
    && is_empty parsed.fragment

module _ (urlsplit : String → Result SplitResult) where
  unfoldable pub after_split : String → Result SplitResult → Result String
  unfolding parts_valid rstrip_slash
  after_split normalized (raised value_error) = raised invalid_service_configuration_error
  after_split normalized (raised e) = raised e
  after_split normalized (ok parsed) =
      if parts_valid parsed
      then ok (rstrip_slash normalized)
      else raised invalid_service_configuration_error

  -- _validate_service_base_url
  unfoldable pub validate_service_base_url : String → Result String
  unfolding strip_string is_empty is_space after_split
  validate_service_base_url value =
      let normalized = strip_string value in
      if is_empty normalized
      then raised invalid_service_configuration_error
      else if any is_space (text normalized)
      then raised invalid_service_configuration_error
      else after_split normalized (urlsplit normalized)

  unfoldable pub get_service_base_url : (String → Option String) → String → Result String
  unfolding validate_service_base_url getenv
  get_service_base_url environ service_name =
      if str_eq service_name "service-a"
      then validate_service_base_url (getenv environ "SERVICE_A_URL" "http://127.0.0.1:8001")
      else if str_eq service_name "service-b"
      then validate_service_base_url (getenv environ "SERVICE_B_URL" "http://127.0.0.1:8002")
      else raised unknown_service_error

-- target_url of proxy_request
unfoldable pub target_url : String → String → String
unfolding rstrip_slash lstrip_slash
target_url base_url path = rstrip_slash base_url ++ ("/" ++ lstrip_slash path)
