-- ===== src/Auth/CurrentUser.antt =====
-- get_current_user of gateway/app/auth/dependencies.py: the user of a bearer token.
use secure_api_gateway.Prelude.{
  ℕ, ◌≡◌, true, Option, none, some, String, [], ◌∷◌, if◌then◌else◌, arith, inl, inr,
}
use secure_api_gateway.Http.{
  word, Exn, http, user_repository_backend_error, token_validation_error, username_policy_error, ok,
  Result-cases, Action, pure, raise, lift, try_except, ◌>>=◌,
}
use secure_api_gateway.Auth.{UserPublic}
use secure_api_gateway.Auth.Router.{authentication_database_unavailable}
use secure_api_gateway.Auth.Tokens.{AuthSettings, AccessTokenClaims, Jwt, decode_access_token}
use secure_api_gateway.Auth.Tokens.Roundtrip.{IsRead, decode_access_token-IsRead}
use secure_api_gateway.Auth.Service.{StoredUser, to_public_user, UserRepository}

unfoldable pub unauthorized_exception : Exn
unauthorized_exception = http (record {
  status_code = 401;
  detail = "Could not validate credentials.";
  headers = ("WWW-Authenticate", word "Bearer") ∷ [];
})

-- The `except` clauses.
unfoldable pub not_identified : {S : Type 0} → Exn → Action S (Option StoredUser)
not_identified user_repository_backend_error = raise authentication_database_unavailable
not_identified token_validation_error = raise unauthorized_exception
not_identified username_policy_error = raise unauthorized_exception
not_identified e = raise e

unfoldable pub active_user : {S : Type 0} → Option StoredUser → Action S UserPublic
unfolding to_public_user
active_user none = raise unauthorized_exception
active_user (some u) = if u.is_active then pure (to_public_user u) else raise unauthorized_exception

module _ {S : Type 0} (jwt : Jwt) (parse_uuid : String → Option String) (now : ℕ)
    (settings : AuthSettings) (repository : UserRepository S) where
  unfoldable pub get_current_user : jwt.Token → Action S UserPublic
  unfolding not_identified active_user
  get_current_user token =
      try_except
        (lift (decode_access_token jwt parse_uuid now token settings)
          >>= (λ claims. repository.get_by_username claims.subject))
        not_identified
      >>= active_user

  -- Who a request is taken for: the active user of the name that an accepted token has as its
  -- subject.
  pub record IsIdentified (token : jwt.Token) (user : UserPublic) (st : S) : Type 0 where
    pub claims : AccessTokenClaims
    pub stored : StoredUser
    pub is_read : IsRead jwt parse_uuid now token settings claims
    pub is_stored : (repository.get_by_username claims.subject st).0 ≡ ok (some stored)
    pub is_active : stored.is_active ≡ true
    pub is_public : user ≡ to_public_user stored

  -- A request is taken for a user only if PyJWT accepts its token at that time for the settings, and
  -- the repository has an active user of the name that is the subject of the token.
  pub get_current_user-IsIdentified :
      (token : jwt.Token) (user : UserPublic) (st : S)
      → (get_current_user token st).0 ≡ ok user
      → IsIdentified token user st
  unfolding get_current_user
  get_current_user-IsIdentified token user st h =
      elim (Result-cases (decode_access_token jwt parse_uuid now token settings)) [
        | inr (x, e) ↦ ground (arith, h, e)
        | inl (claims, e) ↦ elim (Result-cases (repository.get_by_username claims.subject st).0) [
          | inr (x, f) ↦ ground (arith, h, e, f)
          | inl (none, f) ↦ ground (arith, h, e, f)
          | inl (some stored, f) ↦ record {
            claims = claims;
            stored = stored;
            is_read = decode_access_token-IsRead jwt parse_uuid now settings token claims e;
            is_stored = f;
            is_active = ground (arith, h, e, f);
            is_public = ground (arith, h, e, f);
          }
        ]
      ]
