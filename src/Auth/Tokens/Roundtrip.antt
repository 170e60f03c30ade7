-- ===== src/Auth/Tokens/Roundtrip.antt =====
-- A token that the gateway made is read back as what it was made of, and only a token that PyJWT
-- accepts is read at all.
use secure_api_gateway.Prelude.{
  ℕ, ◌+◌, ◌*◌, ◌/◌, ◌≤◌, ◌<◌, ◌≡◌, false, Option, some, String, arith, refl, ◌∙◌, Option-cases, inl,
  inr,
}
use secure_api_gateway.Prelude.Texts.{strip_string, is_empty}
use text.Mathlib.TextEquality.{eq_iff}
use secure_api_gateway.Prelude.Strip.{empty-strip_strip}
use secure_api_gateway.Http.{ok}
use secure_api_gateway.Auth.Config.{IsConfigured}
use secure_api_gateway.Auth.Tokens.{
  AuthSettings, Payload, text_claim, number_claim, other_claim, Claims, second, claims_of, Jwt,
  AccessTokenClaims, create_access_token, numeric_date, read_dates, read_token_id, read_subject,
  read_claims, decode_access_token,
}

pub read_claims_of :
    (parse_uuid : String → Option String) (p : Payload) (id : String)
    → p.type ≡ "access"
    → is_empty (strip_string p.sub) ≡ false
    → parse_uuid p.jti ≡ some id
    → p.exp / second < 253_402_300_800
    → p.iat / second < p.exp / second
    → read_claims parse_uuid (claims_of p)
      ≡ ok (record {
        subject = p.sub;
        token_id = id;
        issued_at = p.iat / second;
        expires_at = p.exp / second;
      })
unfolding read_claims read_subject read_token_id read_dates numeric_date claims_of
read_claims_of parse_uuid p id t s u bound later =
    ground (arith, t, s, u, bound, later, eq_iff p.type "access")

-- Claims that are read came of a token that PyJWT accepted for the key, the algorithm, the audience
-- and the issuer of the settings at that time; it is an access token, its subject is not blank, and
-- it expires after it was issued.
pub record IsRead (jwt : Jwt) (parse_uuid : String → Option String) (now : ℕ) (token : jwt.Token)
    (settings : AuthSettings) (c : AccessTokenClaims) : Type 0 where
  pub decoded : Claims
  pub jti : String
  pub accepted :
      jwt.decode token settings.secret_key settings.algorithm settings.audience settings.issuer now
      ≡ some decoded
  pub type : decoded.type ≡ some (text_claim "access")
  pub subject : decoded.sub ≡ some (text_claim c.subject)
  pub not_blank : is_empty (strip_string c.subject) ≡ false
  pub token_id : (decoded.jti ≡ some (text_claim jti)) × (parse_uuid jti ≡ some c.token_id)
  pub dates :
      (decoded.iat ≡ some (number_claim c.issued_at))
      × (decoded.exp ≡ some (number_claim c.expires_at))
  pub later : c.issued_at < c.expires_at

dates_read :
    (subject token_id : String) (d : Claims) (c : AccessTokenClaims)
    → read_dates subject token_id d ≡ ok c
    → (c.subject ≡ subject)
      × (c.token_id ≡ token_id)
      × (d.iat ≡ some (number_claim c.issued_at))
      × (d.exp ≡ some (number_claim c.expires_at))
      × (c.issued_at < c.expires_at)
unfolding read_dates numeric_date
dates_read subject token_id d c h = ground (arith, h)

token_id_read :
    (parse_uuid : String → Option String) (subject : String) (d : Claims) (c : AccessTokenClaims)
    → read_token_id parse_uuid subject d ≡ ok c
    → (jti : String) × (id : String) × (d.jti ≡ some (text_claim jti))
      × (parse_uuid jti ≡ some id)
      × (read_dates subject id d ≡ ok c)
unfolding read_token_id
token_id_read parse_uuid subject d c h = elim (Option-cases d.jti) [
  | inl e ↦ ground (arith, h, e)
  | inr (text_claim jti, e) ↦ elim (Option-cases (parse_uuid jti)) [
    | inl f ↦ ground (arith, h, e, f)
    | inr (id, f) ↦ (jti, id, e, f, ground (arith, h, e, f))
  ]
  | inr (number_claim n, e) ↦ ground (arith, h, e)
  | inr (other_claim, e) ↦ ground (arith, h, e)
]

subject_read :
    (parse_uuid : String → Option String) (d : Claims) (c : AccessTokenClaims)
    → read_subject parse_uuid d ≡ ok c
    → (subject : String) × (d.sub ≡ some (text_claim subject))
      × (is_empty (strip_string subject) ≡ false)
      × (read_token_id parse_uuid subject d ≡ ok c)
unfolding read_subject
subject_read parse_uuid d c h = elim (Option-cases d.sub) [
  | inl e ↦ ground (arith, h, e)
  | inr (text_claim subject, e) ↦ (subject, e, ground (arith, h, e), ground (arith, h, e))
  | inr (number_claim n, e) ↦ ground (arith, h, e)
  | inr (other_claim, e) ↦ ground (arith, h, e)
]

type_read :
    (parse_uuid : String → Option String) (d : Claims) (c : AccessTokenClaims)
    → read_claims parse_uuid d ≡ ok c
    → (d.type ≡ some (text_claim "access")) × (read_subject parse_uuid d ≡ ok c)
unfolding read_claims
type_read parse_uuid d c h = elim (Option-cases d.type) [
  | inl e ↦ ground (arith, h, e)
  | inr (text_claim t, e) ↦ (ground (arith, h, e, eq_iff t "access"), ground (arith, h, e))
  | inr (number_claim n, e) ↦ ground (arith, h, e)
  | inr (other_claim, e) ↦ ground (arith, h, e)
]

later :
    (issued minutes : ℕ)
    → 1 ≤ minutes
    → issued / second < (issued + minutes * (60 * second)) / second
later issued minutes h = omega arith

-- What create_access_token encodes.
abbrev payload : AuthSettings → String → String → ℕ → Payload
payload settings jti subject issued = record {
  sub = strip_string subject;
  iat = issued;
  exp = issued + settings.access_token_minutes * (60 * second);
  iss = settings.issuer;
  aud = settings.audience;
  jti = jti;
  type = "access";
}

created :
    (jwt : Jwt) (settings : AuthSettings) (jti subject : String) (token : jwt.Token) (issued : ℕ)
    → create_access_token jwt jti issued subject settings ≡ ok token
    → (is_empty (strip_string subject) ≡ false)
      × (jwt.encode (payload settings jti subject issued) settings.secret_key settings.algorithm
          ≡ some token)
unfolding create_access_token
created jwt settings jti subject token issued h =
    elim (Option-cases
      (jwt.encode (payload settings jti subject issued) settings.secret_key settings.algorithm)) [
        | inl e ↦ ground (arith, h, e)
        | inr (t, e) ↦ (ground (arith, h), ground (arith, h, e))
      ]

module _ (jwt : Jwt) (parse_uuid : String → Option String) (now : ℕ) (settings : AuthSettings) where
  -- A token that is read was accepted by PyJWT for the settings at that time; it is an access token
  -- for the subject and the identifier that are read, its dates are those that are read, and it
  -- expires after it was issued.
  pub decode_access_token-IsRead :
      (token : jwt.Token) (c : AccessTokenClaims)
      → decode_access_token jwt parse_uuid now token settings ≡ ok c
      → IsRead jwt parse_uuid now token settings c
  unfolding decode_access_token
  decode_access_token-IsRead token c h =
      elim (Option-cases (
        jwt.decode token settings.secret_key settings.algorithm settings.audience settings.issuer
          now)) [
            | inl e ↦ ground (arith, h, e)
            | inr (d, e) ↦
                let (type, h₁) = type_read parse_uuid d c (ground (arith, h, e)) in
                let (subject, sub, not_blank, h₂) = subject_read parse_uuid d c h₁ in
                let (jti, id, is_jti, is_id, h₃) = token_id_read parse_uuid subject d c h₂ in
                let (same, same_id, iat, exp, later) = dates_read subject id d c h₃ in
                record {
                  decoded = d;
                  jti = jti;
                  accepted = e;
                  type = type;
                  subject = ground (arith, sub, same);
                  not_blank = ground (arith, not_blank, same);
                  token_id = (is_jti, ground (arith, is_id, same_id));
                  dates = (iat, exp);
                  later = later;
                }
          ]

  -- A token that was created with settings that load_auth_settings accepts, with an identifier
  -- that is a UUID, and that expires before the year 10000, is read back with the same settings,
  -- from the second of its issuance until that of its expiry, as its subject without outer white
  -- space, its identifier, and its times in whole seconds.
  pub decode-create :
      (jti id subject : String) (token : jwt.Token) (issued : ℕ)
      → create_access_token jwt jti issued subject settings ≡ ok token
      → parse_uuid jti ≡ some id
      → IsConfigured settings
      → issued / second * second ≤ now
      → let expiry = (issued + settings.access_token_minutes * (60 * second)) / second in
        now < expiry * second
        → expiry < 253_402_300_800
        → decode_access_token jwt parse_uuid now token settings
          ≡ ok (record {
            subject = strip_string subject;
            token_id = id;
            issued_at = issued / second;
            expires_at = expiry;
          })
  unfolding decode_access_token
  decode-create jti id subject token issued made is_id configured started valid bound =
      let p = payload settings jti subject issued in
      let (kept, encoded) = created jwt settings jti subject token issued made in
      let read =
        read_claims_of parse_uuid p id refl (empty-strip_strip subject ∙ kept) is_id bound
          (later issued settings.access_token_minutes configured.some_minute) in
      let known =
        jwt.decode-encode p settings.secret_key settings.algorithm token now encoded
          configured.algorithm configured.long_key configured.audience configured.issuer started
          valid in
      let not_blank = jwt.encode_not_blank p settings.secret_key settings.algorithm token encoded in
      rw (not_blank, known) read
