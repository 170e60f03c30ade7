-- ===== src/Auth/Tokens.antt =====
-- Access tokens: gateway/app/auth/tokens.py, over what it uses of PyJWT. Times are microseconds; the
-- numeric dates of a token are whole seconds. Reading a UUID from a text is a parameter.
pub mod Roundtrip
mod Examples
use secure_api_gateway.Prelude.{
  ℕ, ◌+◌, ◌*◌, ◌/◌, ◌≤◌, ◌<◌, ◌≡◌, Bool, true, false, not, Option, none, some, String, ltb, leb,
  if◌then◌else◌,
}
use secure_api_gateway.Prelude.Lists.{length}
use secure_api_gateway.Prelude.Texts.{text, strip_string, is_empty}
use secure_api_gateway.Http.{
  Result, ok, raised, token_creation_error, token_validation_error, unforeseen_error,
}
use package.text.Mathlib.Text.{◌==◌}

pub record AuthSettings : Type 0 where
  pub secret_key : String
  pub algorithm : String
  pub access_token_minutes : ℕ
  pub issuer : String
  pub audience : String

-- The payload of create_access_token, whose type is "access".
pub record Payload : Type 0 where
  pub sub : String
  pub iat : ℕ
  pub exp : ℕ
  pub iss : String
  pub aud : String
  pub jti : String
  pub type : String

-- A claim of a decoded payload. Its numbers are natural, like those that the gateway encodes.
pub data Claim : Type 0 where
  text_claim : String → Claim
  number_claim : ℕ → Claim
  other_claim : Claim

-- The claims of a decoded payload that are read; `none` for one that is missing.
pub record Claims : Type 0 where
  pub sub : Option Claim
  pub iat : Option Claim
  pub exp : Option Claim
  pub jti : Option Claim
  pub type : Option Claim

abbrev pub second : ℕ
second = 1_000_000

unfoldable pub claims_of : Payload → Claims
claims_of p = record {
  sub = some (text_claim p.sub);
  iat = some (number_claim (p.iat / second));
  exp = some (number_claim (p.exp / second));
  jti = some (text_claim p.jti);
  type = some (text_claim p.type);
}

-- A token is a text that is only tested for being blank (`not token.strip()`). jwt.encode, where
-- nothing comes of an algorithm or a key that it refuses with an exception, and jwt.decode with the
-- secret, the algorithm, the audience, the issuer and the time, where nothing comes of a token that it
-- rejects. A token that was encoded with HS256 and a key of 32 characters or more is accepted with the
-- same key, for its audience and issuer if they are not empty, from its issuance until it expires.
pub record Jwt : Type 1 where
  pub Token : Type 0
  pub is_blank : Token → Bool
  pub text_of : Token → String
  pub encode : Payload → String → String → Option Token
  pub decode : Token → String → String → String → String → ℕ → Option Claims
  pub encode_not_blank :
      (p : Payload) (secret algorithm : String) (t : Token)
      → encode p secret algorithm ≡ some t
      → is_blank t ≡ false
  pub decode-encode :
      (p : Payload) (secret algorithm : String) (t : Token) (now : ℕ)
      → encode p secret algorithm ≡ some t
      → algorithm ≡ "HS256"
      → 32 ≤ length (text secret)
      → is_empty p.aud ≡ false
      → is_empty p.iss ≡ false
      → p.iat / second * second ≤ now
      → now < p.exp / second * second
      → decode t secret algorithm p.aud p.iss now ≡ some (claims_of p)

pub record AccessTokenClaims : Type 0 where
  pub subject : String
  pub token_id : String
  pub issued_at : ℕ
  pub expires_at : ℕ

-- _numeric_date_to_datetime: the dates of Python end with the year 9999.
unfoldable pub numeric_date : Option Claim → Result ℕ
numeric_date (some (number_claim n)) =
    if ltb n 253_402_300_800 then ok n else raised token_validation_error
numeric_date _ = raised token_validation_error

-- Once the token was accepted: the checks on its claims, in the order of the source.
unfoldable pub read_dates : String → String → Claims → Result AccessTokenClaims
unfolding numeric_date
read_dates subject token_id c = elim (numeric_date c.iat) [
  | raised e ↦ raised e
  | ok issued_at ↦ elim (numeric_date c.exp) [
    | raised e ↦ raised e
    | ok expires_at ↦
        if leb expires_at issued_at
        then raised token_validation_error
        else ok (record {
          subject = subject;
          token_id = token_id;
          issued_at = issued_at;
          expires_at = expires_at;
        })
  ]
]

unfoldable pub read_token_id : (String → Option String) → String → Claims → Result AccessTokenClaims
unfolding read_dates
read_token_id parse_uuid subject c = elim c.jti [
  | some (text_claim jti) ↦ elim (parse_uuid jti) [
    | none ↦ raised token_validation_error
    | some token_id ↦ read_dates subject token_id c
  ]
  | _ ↦ raised token_validation_error
]

unfoldable pub read_subject : (String → Option String) → Claims → Result AccessTokenClaims
unfolding read_token_id
read_subject parse_uuid c = elim c.sub [
  | some (text_claim subject) ↦
      if is_empty (strip_string subject)
      then raised token_validation_error
      else read_token_id parse_uuid subject c
  | _ ↦ raised token_validation_error
]

unfoldable pub read_claims : (String → Option String) → Claims → Result AccessTokenClaims
unfolding read_subject
read_claims parse_uuid c = elim c.type [
  | some (text_claim t) ↦
      if t == "access" then read_subject parse_uuid c else raised token_validation_error
  | _ ↦ raised token_validation_error
]

module _ (jwt : Jwt) where
  -- The identifier and the time are chosen by the caller of this model, not by the caller of the
  -- program.
  unfoldable pub create_access_token : String → ℕ → String → AuthSettings → Result jwt.Token
  create_access_token jti now subject settings =
      let normalized_subject = strip_string subject in
      if is_empty normalized_subject
      then raised token_creation_error
      else elim (jwt.encode
          (record {
            sub = normalized_subject;
            iat = now;
            exp = now + settings.access_token_minutes * (60 * second);
            iss = settings.issuer;
            aud = settings.audience;
            jti = jti;
            type = "access";
          })
          settings.secret_key settings.algorithm) [
            | none ↦ raised unforeseen_error
            | some token ↦ ok token
          ]

  unfoldable pub decode_access_token :
      (String → Option String) → ℕ → jwt.Token → AuthSettings → Result AccessTokenClaims
  unfolding read_claims
  decode_access_token parse_uuid now token settings =
      if jwt.is_blank token
      then raised token_validation_error
      else elim (jwt.decode token settings.secret_key settings.algorithm settings.audience
          settings.issuer now) [
            | none ↦ raised token_validation_error
            | some c ↦ read_claims parse_uuid c
          ]
