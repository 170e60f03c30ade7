-- ===== src/Auth/Service/Credentials.antt =====
-- Which credentials are accepted, and that the others are refused alike.
use secure_api_gateway.Prelude.{
  ℕ, ◌+◌, ◌≡◌, ◌⊎◌, inl, inr, Bool, true, false, Option, none, some, String, arith, refl, ap, ◌∙◌,
}
use secure_api_gateway.Http.{
  Result, ok, raised, Result-cases, authentication_error, username_policy_error,
}
use secure_api_gateway.Auth.{AuthenticationResult}
use secure_api_gateway.Auth.Tokens.{AuthSettings, Jwt, create_access_token}
use secure_api_gateway.Auth.Service.{
  StoredUser, to_public_user, Hasher, UserRepository, Accounts, on_repository, verify,
  unknown_if_invalid,
}
use secure_api_gateway.Auth.Service

module _ {S : Type 0} (hasher : Hasher) (repository : UserRepository S) (jwt : Jwt)
    (token_id : String) (now : ℕ) (settings : AuthSettings) (dummy_password_hash : String)
    (username password : String) (a : Accounts S) where
  abbrev looked_up : Result (Option StoredUser) × S
  looked_up = repository.get_by_username username a.users

  abbrev verified : StoredUser → Result (Bool × Option String)
  verified u = hasher.verify_and_update password u.hashed_password

  abbrev dummy_verified : Result (Bool × Option String)
  dummy_verified = hasher.verify_and_update password dummy_password_hash

  -- The ways in which credentials are wrong: no such user, no user can have that name, the password
  -- is not that of the user, or the user is not active; the hasher knows the hash that it verifies.
  pub data IsWrong : Type 0 where
    unknown :
        (answer : Bool × Option String)
        → looked_up.0 ≡ ok none
        → dummy_verified ≡ ok answer
        → IsWrong
    impossible_name :
        (answer : Bool × Option String)
        → looked_up.0 ≡ raised username_policy_error
        → dummy_verified ≡ ok answer
        → IsWrong
    wrong_password :
        (u : StoredUser) (replacement : Option String)
        → looked_up.0 ≡ ok (some u)
        → verified u ≡ ok (false, replacement)
        → IsWrong
    inactive :
        (u : StoredUser) (answer : Bool × Option String)
        → looked_up.0 ≡ ok (some u)
        → verified u ≡ ok answer
        → u.is_active ≡ false
        → IsWrong

  -- Wrong credentials of every kind are refused with the same exception, after exactly one
  -- verification of a password, and the users stay as the lookup left them; the hasher knows the
  -- hash that it verifies.
  pub wrong_credentials_alike :
      IsWrong
      → Service.authenticate_user hasher repository jwt token_id now settings dummy_password_hash
          username password a
        ≡ (
          raised authentication_error,
          record { users = looked_up.1; verifications = a.verifications + 1 },
        )
  unfolding Service.authenticate_user Service.check_credentials Service.accept verify
      unknown_if_invalid
  wrong_credentials_alike (unknown answer e f) = ground (arith, e, f)
  wrong_credentials_alike (impossible_name answer e f) = ground (arith, e, f)
  wrong_credentials_alike (wrong_password u replacement e f) = ground (arith, e, f)
  wrong_credentials_alike (inactive u answer e f g) = ground (arith, e, f, g)

  -- How an accepted user was found: an active user of that name whose password was verified, with
  -- the hash that the repository stored in place of an outdated one.
  pub record IsAuthentic (u : StoredUser) : Type 0 where
    pub found : StoredUser
    pub is_found : looked_up.0 ≡ ok (some found)
    pub is_active : found.is_active ≡ true
    pub replacement : Option String
    pub is_verified : verified found ≡ ok (true, replacement)
    pub stored :
        (replacement ≡ none × (u ≡ found))
        ⊎ ((h : String) × (replacement ≡ some h)
            × ((repository.update_password_hash found.username h looked_up.1).0 ≡ ok u))

  accept_ok :
      (v : StoredUser) (u : StoredUser) (valid : Bool) (replacement : Option String)
      (b : Accounts S)
      → (Service.accept hasher repository jwt token_id now settings dummy_password_hash v
          (valid, replacement)
          b).0
        ≡ ok u
      → (v.is_active ≡ true)
        × (valid ≡ true)
        × ((replacement ≡ none × (u ≡ v))
            ⊎ ((h : String) × (replacement ≡ some h)
                × ((repository.update_password_hash v.username h b.users).0 ≡ ok u)))
  unfolding Service.accept
  accept_ok v u valid none b h =
      (ground (arith, h), ground (arith, h), inl (refl, ground (arith, h)))
  accept_ok v u valid (some new) b h =
      (ground (arith, h), ground (arith, h), inr (new, refl, ground (arith, h)))

  -- A user is accepted only with the right credentials.
  pub authenticate_user-IsAuthentic :
      (u : StoredUser)
      → (Service.authenticate_user hasher repository jwt token_id now settings dummy_password_hash
          username password a).0
        ≡ ok u
      → IsAuthentic u
  unfolding Service.authenticate_user Service.check_credentials verify unknown_if_invalid
  authenticate_user-IsAuthentic u h = elim (Result-cases looked_up.0) [
    | inl (none, e) ↦ ground (arith, h, e)
    | inl (some v, e) ↦
        let counted : Accounts S = record {
          users = looked_up.1;
          verifications = a.verifications + 1;
        } in
        elim (Result-cases (verified v)) [
          | inr (x, f) ↦ ground (arith, h, e, f)
          | inl ((valid, replacement), f) ↦
              let (active, right, stored) =
                accept_ok v u valid replacement counted (ground (arith, h, e, f)) in
              record {
                found = v;
                is_found = e;
                is_active = active;
                replacement = replacement;
                is_verified = f ∙ ap (λ b. ok (b, replacement)) right;
                stored = stored;
              }
        ]
    | inr (x, e) ↦ ground (arith, h, e)
  ]

  -- A token is issued only with the right credentials, for the name of the user that was accepted.
  pub authenticate_and_create_result-IsAuthentic :
      (r : AuthenticationResult)
      → (Service.authenticate_and_create_result hasher repository jwt token_id now settings
          dummy_password_hash username password a).0
        ≡ ok r
      → (u : StoredUser) × (token : jwt.Token) × IsAuthentic u
        × (create_access_token jwt token_id now u.username settings ≡ ok token)
        × (r ≡ record { access_token = jwt.text_of token; user = to_public_user u })
  unfolding Service.authenticate_and_create_result
  authenticate_and_create_result-IsAuthentic r h =
      elim (Result-cases
        (Service.authenticate_user hasher repository jwt token_id now settings dummy_password_hash
          username password a).0) [
            | inr (x, e) ↦ ground (arith, h, e)
            | inl (u, e) ↦
                elim (Result-cases (create_access_token jwt token_id now u.username settings)) [
                  | inr (x, f) ↦ ground (arith, h, e, f)
                  | inl (token, f) ↦
                      (u, token, authenticate_user-IsAuthentic u e, f, ground (arith, h, e, f))
                ]
          ]
