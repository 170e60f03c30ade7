-- ===== src/RateLimit/Config/Bounds.antt =====
-- The bounds of the configuration of Redis that was accepted.
use secure_api_gateway.Prelude.{◌*◌, ◌≡◌, ◌≤◌, Bool, true, Option, String, arith, inl, inr}
use secure_api_gateway.Prelude.Texts.{text, strip_string}
use secure_api_gateway.Prelude.Int.{ℤ, magnitude}
use secure_api_gateway.Http.{Result, Result-cases, ok, raised}
use secure_api_gateway.Circuit.{second}
use secure_api_gateway.Proxy.Settings.{Seconds, ticks_of, getenv}
use secure_api_gateway.Proxy.Settings.Bounds.{between-magnitude, seconds-ticks}
use secure_api_gateway.RateLimit.Config.{
  RedisSettings, SplitResult, key_prefix_valid, validate_url, limits_valid, make_settings,
  read_float, read_integer, read_boolean, settings_of, from_environment,
}

module _ (urlsplit : String → Result SplitResult) (float : String → Option Seconds)
    (casefold : String → String) (isdigit : String → Bool) where
  -- What the clients of Redis rely on.
  pub record IsConfigured (s : RedisSettings) : Type 0 where
    pub good_url : validate_url urlsplit float casefold isdigit s.url ≡ ok tt
    pub good_prefix : key_prefix_valid (text s.key_prefix) ≡ true
    pub some_connect : 1 ≤ s.connect_timeout
    pub short_connect : s.connect_timeout ≤ 60 * second
    pub some_socket : 1 ≤ s.socket_timeout
    pub short_socket : s.socket_timeout ≤ 60 * second
    pub some_connection : 1 ≤ s.max_connections
    pub few_connections : s.max_connections ≤ 1000
    pub short_interval : s.health_check_interval_seconds ≤ 3600

  made :
      (url key_prefix : String) (connect socket : Seconds) (connections interval : ℤ)
      (verify : Bool) (s : RedisSettings)
      → make_settings urlsplit float casefold isdigit url key_prefix connect socket connections
          interval verify
        ≡ ok s
      → (validate_url urlsplit float casefold isdigit (strip_string url) ≡ ok tt)
        × (limits_valid urlsplit float casefold isdigit key_prefix connect socket connections
              interval
            ≡ true)
        × (s ≡ record {
          url = strip_string url;
          key_prefix = key_prefix;
          connect_timeout = ticks_of connect;
          socket_timeout = ticks_of socket;
          max_connections = magnitude connections;
          health_check_interval_seconds = magnitude interval;
          verify_on_startup = verify;
        })
  unfolding make_settings
  made url key_prefix connect socket connections interval verify s h =
      elim (Result-cases (validate_url urlsplit float casefold isdigit (strip_string url))) [
        | inr (x, e) ↦ ground (arith, h, e)
        | inl (u, e) ↦ (e, ground (arith, h, e), ground (arith, h, e))
      ]

  make_settings-IsConfigured :
      (url key_prefix : String) (connect socket : Seconds) (connections interval : ℤ)
      (verify : Bool) (s : RedisSettings)
      → make_settings urlsplit float casefold isdigit url key_prefix connect socket connections
          interval verify
        ≡ ok s
      → IsConfigured s
  unfolding limits_valid
  make_settings-IsConfigured url key_prefix connect socket connections interval verify s h =
      let (valid, limits, same) =
        made url key_prefix connect socket connections interval verify s h in
      let (c₁, c₂) = seconds-ticks 1 (60 * second) connect (ground (arith, limits)) in
      let (s₁, s₂) = seconds-ticks 1 (60 * second) socket (ground (arith, limits)) in
      let (m₁, m₂) = between-magnitude 1 1000 connections (ground (arith, limits)) in
      let (i₁, i₂) = between-magnitude 0 3600 interval (ground (arith, limits)) in
      rw same (record {
        good_url = valid;
        good_prefix = ground (arith, limits);
        some_connect = c₁;
        short_connect = c₂;
        some_socket = s₁;
        short_socket = s₂;
        some_connection = m₁;
        few_connections = m₂;
        short_interval = i₂;
      })

  settings_of-IsConfigured :
      (environ : String → Option String) (connect socket : Result Seconds)
      (connections interval : Result ℤ) (verify : Result Bool) (s : RedisSettings)
      → settings_of urlsplit float casefold isdigit environ connect socket connections interval
          verify
        ≡ ok s
      → IsConfigured s
  unfolding settings_of
  settings_of-IsConfigured environ (ok c) (ok t) (ok m) (ok i) (ok v) s h =
      make_settings-IsConfigured (getenv environ "REDIS_URL" "redis://redis:6379/0")
        (getenv environ "REDIS_KEY_PREFIX" "secure-api-gateway") c t m i v s h
  settings_of-IsConfigured environ (raised e) _ _ _ _ s h = ground (arith, h)
  settings_of-IsConfigured environ (ok c) (raised e) _ _ _ s h = ground (arith, h)
  settings_of-IsConfigured environ (ok c) (ok t) (raised e) _ _ s h = ground (arith, h)
  settings_of-IsConfigured environ (ok c) (ok t) (ok m) (raised e) _ s h = ground (arith, h)
  settings_of-IsConfigured environ (ok c) (ok t) (ok m) (ok i) (raised e) s h = ground (arith, h)

  -- Settings of Redis that were read from the environment have a URL that was validated, a prefix
  -- that the pattern matches, and timeouts, connections and an interval in their bounds, whatever
  -- its variables hold and however they are read.
  pub from_environment-IsConfigured :
      (environ : String → Option String) (s : RedisSettings)
      → from_environment urlsplit float casefold isdigit environ ≡ ok s
      → IsConfigured s
  unfolding from_environment
  from_environment-IsConfigured environ s h =
      settings_of-IsConfigured environ
        (read_float urlsplit float casefold isdigit environ "REDIS_CONNECT_TIMEOUT_SECONDS" "2.0")
        (read_float urlsplit float casefold isdigit environ "REDIS_SOCKET_TIMEOUT_SECONDS" "2.0")
        (read_integer urlsplit float casefold isdigit environ "REDIS_MAX_CONNECTIONS" "20")
        (read_integer urlsplit float casefold isdigit environ "REDIS_HEALTH_CHECK_INTERVAL_SECONDS"
          "30")
        (read_boolean urlsplit float casefold isdigit environ "REDIS_VERIFY_ON_STARTUP" "False") s h
