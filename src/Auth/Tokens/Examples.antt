-- ===== src/Auth/Tokens/Examples.antt =====
-- Tests of the access tokens, and their theorems at concrete inputs.
use secure_api_gateway.Prelude.{
  true, not, ℕ, ◌*◌, ◌/◌, ◌<◌, ◌≡◌, false, ◌&&◌, Option, none, some, String, ltb, if◌then◌else◌,
  arith, refl,
}
use secure_api_gateway.Prelude.Texts.{
  strip_string, lstrip_string, rstrip_string, keep_before, is_space, is_empty,
}
use secure_api_gateway.Prelude.Texts.{strip, lstrip, rstrip, is_digit}
use secure_api_gateway.Prelude.Numerals.{parse_int, unsigned_or_signed, signed, digits}
use secure_api_gateway.Proxy.Settings.{getenv}
use secure_api_gateway.Auth.Config.{
  IsConfigured, positive, getenv_stripped, read_positive_integer, settings_with, load_auth_settings,
  load_auth_settings-IsConfigured,
}
use secure_api_gateway.Http.{ok, raised, token_creation_error, auth_configuration_error}
use secure_api_gateway.Auth.Tokens.{
  AuthSettings, Payload, Claims, second, claims_of, Jwt, AccessTokenClaims, create_access_token,
  decode_access_token, numeric_date, read_dates, read_token_id, read_subject, read_claims,
}
use secure_api_gateway.Auth.Service.{StoredUser, to_public_user, UserRepository}
use secure_api_gateway.Auth.CurrentUser.{
  active_user, get_current_user, IsIdentified, get_current_user-IsIdentified,
}
use secure_api_gateway.Auth.Tokens.Roundtrip.{decode-create}
use text.Mathlib.Text.{◌==◌}
use text.Mathlib.TextEquality.{eq_iff}

-- Tokens that are not signed but carry their key.
pub record Sealed : Type 0 where
  pub payload : Payload
  pub secret : String
  pub algorithm : String

open_sealed : Sealed → String → String → String → String → ℕ → Option Claims
open_sealed t secret algorithm audience issuer now =
    if not (is_empty audience)
      && (t.secret == secret
          && (t.algorithm == algorithm
              && (t.payload.aud == audience
                  && (t.payload.iss == issuer && ltb now (t.payload.exp / second * second)))))
    then some (claims_of t.payload)
    else none

open_own :
    (p : Payload) (secret algorithm : String) (now : ℕ)
    → is_empty p.aud ≡ false
    → now < p.exp / second * second
    → open_sealed
        (record { payload = p; secret = secret; algorithm = algorithm })
        secret
        algorithm
        p.aud
        p.iss
        now
      ≡ some (claims_of p)
unfolding open_sealed
open_own p secret algorithm now given h = ground (
  arith,
  h,
  given,
  eq_iff secret secret,
  eq_iff algorithm algorithm,
  eq_iff p.aud p.aud,
  eq_iff p.iss p.iss,
)

-- HS256 alone is supported, with a key.
seal : Payload → String → String → Option Sealed
seal p secret algorithm =
    if algorithm == "HS256"
    then some (record { payload = p; secret = secret; algorithm = algorithm })
    else none

open_seal :
    (p : Payload) (secret algorithm : String) (t : Sealed) (now : ℕ)
    → seal p secret algorithm ≡ some t
    → is_empty p.aud ≡ false
    → now < p.exp / second * second
    → open_sealed t secret algorithm p.aud p.iss now ≡ some (claims_of p)
unfolding seal
open_seal p secret algorithm t now e given h =
    let same : t ≡ record { payload = p; secret = secret; algorithm = algorithm } =
      ground (arith, e) in
    rw same (open_own p secret algorithm now given h)

abbrev sealing : Jwt
sealing = record {
  Token = Sealed;
  is_blank = λ t. false;
  text_of = λ t. t.payload.sub;
  encode = seal;
  decode = open_sealed;
  encode_not_blank = λ p secret algorithm t e. refl;
  decode-encode = λ p secret algorithm t now e _ _ given _ started valid.
      open_seal p secret algorithm t now e given valid;
}

abbrev settings : AuthSettings
settings = record {
  secret_key = "a secret of thirty-two characters";
  algorithm = "HS256";
  access_token_minutes = 15;
  issuer = "secure-api-gateway";
  audience = "secure-api-clients";
}

-- An environment with a key, and one with a key that is too short.
abbrev with_key : String → Option String
with_key name =
    if name == "JWT_SECRET_KEY" then some " a secret of thirty-two characters " else none

abbrev short_key : String → Option String
short_key name = if name == "JWT_SECRET_KEY" then some "secret" else none

loads : load_auth_settings with_key ≡ ok settings
unfolding load_auth_settings getenv_stripped getenv settings_with read_positive_integer positive
    parse_int unsigned_or_signed signed digits is_digit strip lstrip rstrip strip_string
    lstrip_string rstrip_string keep_before is_space is_empty
loads = refl

loads_no_short : load_auth_settings short_key ≡ raised auth_configuration_error
unfolding load_auth_settings getenv_stripped getenv strip_string lstrip_string rstrip_string
    keep_before is_space
loads_no_short = refl

settings-IsConfigured : IsConfigured settings
settings-IsConfigured = load_auth_settings-IsConfigured with_key settings loads

abbrev token : Sealed
token = record {
  payload = record {
    sub = "alice";
    iat = 5_500_000;
    exp = 905_500_000;
    iss = "secure-api-gateway";
    aud = "secure-api-clients";
    jti = "token-1";
    type = "access";
  };
  secret = "a secret of thirty-two characters";
  algorithm = "HS256";
}

abbrev parse_uuid : String → Option String
parse_uuid s = some s

blank_subject :
    create_access_token sealing "token-1" 5_500_000 "  " settings ≡ raised token_creation_error
unfolding seal create_access_token strip_string lstrip_string rstrip_string keep_before is_space
    is_empty
blank_subject = refl

token_created : create_access_token sealing "token-1" 5_500_000 " alice" settings ≡ ok token
unfolding seal create_access_token strip_string lstrip_string rstrip_string keep_before is_space
    is_empty
token_created = refl

abbrev claims : AccessTokenClaims
claims = record {
  subject = strip_string " alice";
  token_id = "token-1";
  issued_at = 5;
  expires_at = 905;
}

token_read : decode_access_token sealing parse_uuid 904_000_000 token settings ≡ ok claims
unfolding decode_access_token read_claims read_subject read_token_id read_dates numeric_date
    claims_of open_sealed strip_string lstrip_string rstrip_string keep_before is_space is_empty
token_read = refl

decode-create_example :
    decode_access_token sealing parse_uuid 904_000_000 token settings ≡ ok claims
decode-create_example =
    decode-create sealing parse_uuid 904_000_000 settings "token-1" "token-1" " alice" token
      5_500_000 token_created refl settings-IsConfigured (omega arith) (omega arith) (omega arith)

abbrev alice : StoredUser
alice = record { id = "user-1"; username = "alice"; hashed_password = "hash"; is_active = true }

-- A repository of one user.
abbrev directory : UserRepository ℕ
directory = record {
  create_user = λ username hashed_password n. (ok alice, n);
  get_by_username = λ username n. (ok (some alice), n);
  update_password_hash = λ username hashed_password n. (ok alice, n);
}

alice_identified :
    (get_current_user sealing parse_uuid 904_000_000 settings directory token 0).0
    ≡ ok (to_public_user alice)
unfolding get_current_user active_user
alice_identified = ground (arith, token_read)

get_current_user-IsIdentified_example :
    IsIdentified sealing parse_uuid 904_000_000 settings directory token (to_public_user alice) 0
get_current_user-IsIdentified_example =
    get_current_user-IsIdentified sealing parse_uuid 904_000_000 settings directory token
      (to_public_user alice) 0 alice_identified

load_auth_settings-IsConfigured_example : IsConfigured settings
load_auth_settings-IsConfigured_example = load_auth_settings-IsConfigured with_key settings loads
