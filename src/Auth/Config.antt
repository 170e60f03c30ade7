-- ===== src/Auth/Config.antt =====
-- The configuration of the authentication: load_auth_settings of gateway/app/auth/config.py, and the
-- bounds of what it accepts.
use secure_api_gateway.Prelude.{
  ℕ, zero, suc, ◌≡◌, ◌≤◌, false, not, Option, none, some, String, ltb, if◌then◌else◌, arith, refl,
  ap, sym, ◌∙◌, inl, inr,
}
use secure_api_gateway.Prelude.Lists.{length}
use secure_api_gateway.Prelude.Texts.{text, strip_string, is_empty}
use secure_api_gateway.Prelude.Int.{ℤ, pos, negsuc}
use secure_api_gateway.Prelude.Numerals.{parse_int}
use secure_api_gateway.Http.{Result, ok, raised, Result-cases, Exn, auth_configuration_error}
use secure_api_gateway.Proxy.Settings.{getenv}
use secure_api_gateway.Auth.Tokens.{AuthSettings}
use package.text.Mathlib.Text.{◌==◌ as str_eq}
use package.text.Mathlib.TextEquality.{eq_iff}

-- A value that was read, if it is positive.
unfoldable pub positive : Option ℤ → Result ℕ
positive (some (pos (suc n))) = ok (suc n)
positive (some (pos zero)) = raised auth_configuration_error
positive (some (negsuc n)) = raised auth_configuration_error
positive none = raised auth_configuration_error

-- What the tokens rely on.
pub record IsConfigured (s : AuthSettings) : Type 0 where
  pub long_key : 32 ≤ length (text s.secret_key)
  pub algorithm : s.algorithm ≡ "HS256"
  pub some_minute : 1 ≤ s.access_token_minutes
  pub one_day : s.access_token_minutes ≤ 1440
  pub issuer : is_empty s.issuer ≡ false
  pub audience : is_empty s.audience ≡ false

positive-above : (o : Option ℤ) (n : ℕ) → positive o ≡ ok n → 1 ≤ n
unfolding positive
positive-above (some (pos (suc m))) n h = ground (arith, h)
positive-above (some (pos zero)) n h = ground (arith, h)
positive-above (some (negsuc m)) n h = ground (arith, h)
positive-above none n h = ground (arith, h)

module _ (environ : String → Option String) where
  -- os.getenv with a default, without outer white space
  unfoldable pub getenv_stripped : String → String → String
  unfolding getenv
  getenv_stripped name default_value = strip_string (getenv environ name default_value)

  unfoldable pub read_positive_integer : String → String → Result ℕ
  unfolding positive getenv_stripped
  read_positive_integer name default_value =
      positive (parse_int (text (getenv_stripped name default_value)))

  -- The rest of load_auth_settings, once the minutes were read.
  unfoldable pub settings_with : String → String → Result ℕ → Result AuthSettings
  unfolding getenv_stripped
  settings_with secret_key algorithm (raised e) = raised e
  settings_with secret_key algorithm (ok minutes) =
      if ltb 1440 minutes
      then raised auth_configuration_error
      else if is_empty (getenv_stripped "JWT_ISSUER" "secure-api-gateway")
      then raised auth_configuration_error
      else if is_empty (getenv_stripped "JWT_AUDIENCE" "secure-api-clients")
      then raised auth_configuration_error
      else ok (record {
        secret_key = secret_key;
        algorithm = algorithm;
        access_token_minutes = minutes;
        issuer = getenv_stripped "JWT_ISSUER" "secure-api-gateway";
        audience = getenv_stripped "JWT_AUDIENCE" "secure-api-clients";
      })

  unfoldable pub load_auth_settings : Result AuthSettings
  unfolding read_positive_integer settings_with getenv_stripped
  load_auth_settings =
      let secret_key = getenv_stripped "JWT_SECRET_KEY" "" in
      let algorithm = getenv_stripped "JWT_ALGORITHM" "HS256" in
      if ltb (length (text secret_key)) 32
      then raised auth_configuration_error
      else if not (str_eq algorithm "HS256")
      then raised auth_configuration_error
      else settings_with secret_key algorithm
          (read_positive_integer "JWT_ACCESS_TOKEN_MINUTES" "15")

  settings_cases :
      (secret_key algorithm : String) (minutes : ℕ) (s : AuthSettings)
      → settings_with secret_key algorithm (ok minutes) ≡ ok s
      → (minutes ≤ 1440)
        × (is_empty s.issuer ≡ false)
        × (is_empty s.audience ≡ false)
        × (s.secret_key ≡ secret_key)
        × (s.algorithm ≡ algorithm)
        × (s.access_token_minutes ≡ minutes)
  unfolding settings_with
  settings_cases secret_key algorithm minutes s h = ground (arith, h)

  settings_refused :
      (secret_key algorithm : String) (x : Exn)
      → settings_with secret_key algorithm (raised x) ≡ raised x
  unfolding settings_with
  settings_refused secret_key algorithm x = refl

  -- Settings that were loaded have a key of 32 characters or more, the algorithm HS256, a lifetime
  -- of one minute to one day, an issuer and an audience, whatever the environment holds.
  pub load_auth_settings-IsConfigured :
      (s : AuthSettings) → load_auth_settings ≡ ok s → IsConfigured s
  unfolding load_auth_settings read_positive_integer
  load_auth_settings-IsConfigured s h =
      let secret_key : String = getenv_stripped "JWT_SECRET_KEY" "" in
      let algorithm : String = getenv_stripped "JWT_ALGORITHM" "HS256" in
      let read = read_positive_integer "JWT_ACCESS_TOKEN_MINUTES" "15" in
      let long : 32 ≤ length (text secret_key) = ground (arith, h) in
      let hs : algorithm ≡ "HS256" = ground (arith, h, eq_iff algorithm "HS256") in
      let rest : settings_with secret_key algorithm read ≡ ok s = ground (arith, h) in
      elim (Result-cases read) [
        | inr (x, e) ↦ ground (arith, rest, settings_refused secret_key algorithm x, e)
        | inl (minutes, e) ↦
            let (below, i, a, k, alg, m) =
              settings_cases secret_key algorithm minutes s
                (ap (settings_with secret_key algorithm) (sym e) ∙ rest) in
            record {
              long_key = rw k long;
              algorithm = alg ∙ hs;
              some_minute = rw m (positive-above _ minutes e);
              one_day = rw m below;
              issuer = i;
              audience = a;
            }
      ]
