-- ===== src/RateLimit/Config.antt =====
-- The configuration of Redis: RedisSettings of gateway/app/rate_limit/config.py, its validation and
-- its reading from the environment. `urlsplit` with the port of its
-- result, `float`, and `str.casefold` and `str.isdigit` of Unicode are parameters.
pub mod Bounds
use secure_api_gateway.Prelude.{
  ℕ, ◌*◌, ◌≡◌, ◌≤◌, Bool, true, false, not, ◌&&◌, ◌||◌, Option, none, some, String, [], ◌∷◌, leb,
  ◌==◌, if◌then◌else◌, arith, inl, inr,
}
use secure_api_gateway.Prelude.Lists.{length, all}
use secure_api_gateway.Prelude.Sorting.{has}
use secure_api_gateway.Prelude.Texts.{Text, text, strip_string, is_empty, is_lower, is_digit}
use secure_api_gateway.Prelude.Int.{ℤ, between, magnitude}
use secure_api_gateway.Prelude.Numerals.{parse_int}
use secure_api_gateway.Http.{Result, Result-cases, ok, raised, value_error, rate_limit_config_error}
use secure_api_gateway.Circuit.{second}
use secure_api_gateway.Proxy.Settings.{Seconds, seconds_between, ticks_of, getenv}
use secure_api_gateway.Proxy.Settings.Bounds.{between-magnitude, seconds-ticks}
use secure_api_gateway.Proxy.Url.{is_missing, lstrip_slash}
use package.text.Mathlib.Text.{◌==◌ as str_eq}

pub record RedisSettings : Type 0 where
  pub url : String
  pub key_prefix : String
  pub connect_timeout : ℕ
  pub socket_timeout : ℕ
  pub max_connections : ℕ
  pub health_check_interval_seconds : ℕ
  pub verify_on_startup : Bool

-- The parts of a URL that are tested.
pub record SplitResult : Type 0 where
  pub scheme : String
  pub hostname : Option String
  pub path : String
  pub fragment : String

unfoldable pub is_letter_or_digit : ℕ → Bool
unfolding is_lower is_digit
is_letter_or_digit c = is_lower c || is_digit c || (leb b'A' c && leb c b'Z')

unfoldable pub is_prefix_char : ℕ → Bool
unfolding is_letter_or_digit
is_prefix_char c = is_letter_or_digit c || c == b':' || c == b'_' || c == b'-'

-- Whether _KEY_PREFIX_PATTERN matches.
unfoldable pub key_prefix_valid : Text → Bool
unfolding is_letter_or_digit is_prefix_char
key_prefix_valid [] = false
key_prefix_valid (c ∷ s) = is_letter_or_digit c && all is_prefix_char s && leb (length s) 63

-- An error of `int` or `float` is one of the configuration.
unfoldable pub read_or_fail : {A : Type 0} → Option A → Result A
read_or_fail none = raised rate_limit_config_error
read_or_fail (some a) = ok a

module _ (urlsplit : String → Result SplitResult) (float : String → Option Seconds)
    (casefold : String → String) (isdigit : String → Bool) where
  unfoldable pub parts_valid : Result SplitResult → Result (Unit {0})
  unfolding is_missing is_empty lstrip_slash
  parts_valid (raised value_error) = raised rate_limit_config_error
  parts_valid (raised e) = raised e
  parts_valid (ok parsed) =
      let database_path = lstrip_slash parsed.path in
      if not (str_eq parsed.scheme "redis" || str_eq parsed.scheme "rediss")
      then raised rate_limit_config_error
      else if is_missing parsed.hostname
      then raised rate_limit_config_error
      else if not (is_empty parsed.fragment)
      then raised rate_limit_config_error
      else if not (is_empty database_path) && not (isdigit database_path)
      then raised rate_limit_config_error
      else ok tt

  -- _validate_url
  unfoldable pub validate_url : String → Result (Unit {0})
  unfolding parts_valid
  validate_url value =
      if is_empty value then raised rate_limit_config_error else parts_valid (urlsplit value)

  -- What __post_init__ tests after the URL.
  unfoldable pub limits_valid : String → Seconds → Seconds → ℤ → ℤ → Bool
  unfolding key_prefix_valid seconds_between between
  limits_valid key_prefix connect socket connections interval =
      key_prefix_valid (text key_prefix)
      && seconds_between 1 (60 * second) connect
      && seconds_between 1 (60 * second) socket
      && between 1 1000 connections
      && between 0 3600 interval

  -- The constructor with __post_init__.
  unfoldable pub make_settings :
      String → String → Seconds → Seconds → ℤ → ℤ → Bool → Result RedisSettings
  unfolding validate_url limits_valid strip_string ticks_of
  make_settings url key_prefix connect socket connections interval verify =
      if not (str_eq (strip_string key_prefix) key_prefix)
      then raised rate_limit_config_error
      else elim (validate_url (strip_string url)) [
        | raised e ↦ raised e
        | ok u ↦
            if limits_valid key_prefix connect socket connections interval
            then ok (record {
              url = strip_string url;
              key_prefix = key_prefix;
              connect_timeout = ticks_of connect;
              socket_timeout = ticks_of socket;
              max_connections = magnitude connections;
              health_check_interval_seconds = magnitude interval;
              verify_on_startup = verify;
            })
            else raised rate_limit_config_error
      ]

  module _ (environ : String → Option String) where
    unfoldable pub read_float : String → String → Result Seconds
    unfolding read_or_fail getenv strip_string
    read_float name default_value =
        read_or_fail (float (strip_string (getenv environ name default_value)))

    unfoldable pub read_integer : String → String → Result ℤ
    unfolding read_or_fail getenv strip_string parse_int
    read_integer name default_value =
        read_or_fail (parse_int (text (strip_string (getenv environ name default_value))))

    unfoldable pub read_boolean : String → String → Result Bool
    unfolding getenv strip_string
    read_boolean name default_value =
        let raw_value = casefold (strip_string (getenv environ name default_value)) in
        if has raw_value ("1" ∷ "true" ∷ "yes" ∷ "on" ∷ [])
        then ok true
        else if has raw_value ("0" ∷ "false" ∷ "no" ∷ "off" ∷ [])
        then ok false
        else raised rate_limit_config_error

    -- The constructor, for values that could be read; the first that could not is reported.
    unfoldable pub settings_of :
        Result Seconds → Result Seconds → Result ℤ → Result ℤ → Result Bool → Result RedisSettings
    unfolding make_settings getenv
    settings_of (raised e) _ _ _ _ = raised e
    settings_of (ok connect) (raised e) _ _ _ = raised e
    settings_of (ok connect) (ok socket) (raised e) _ _ = raised e
    settings_of (ok connect) (ok socket) (ok connections) (raised e) _ = raised e
    settings_of (ok connect) (ok socket) (ok connections) (ok interval) (raised e) = raised e
    settings_of (ok connect) (ok socket) (ok connections) (ok interval) (ok verify) =
        make_settings (getenv environ "REDIS_URL" "redis://redis:6379/0")
          (getenv environ "REDIS_KEY_PREFIX" "secure-api-gateway") connect socket connections
          interval verify

    unfoldable pub from_environment : Result RedisSettings
    unfolding settings_of read_float read_integer read_boolean
    from_environment =
        settings_of (read_float "REDIS_CONNECT_TIMEOUT_SECONDS" "2.0")
          (read_float "REDIS_SOCKET_TIMEOUT_SECONDS" "2.0")
          (read_integer "REDIS_MAX_CONNECTIONS" "20")
          (read_integer "REDIS_HEALTH_CHECK_INTERVAL_SECONDS" "30")
          (read_boolean "REDIS_VERIFY_ON_STARTUP" "False")
