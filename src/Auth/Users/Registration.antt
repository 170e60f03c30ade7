-- ===== src/Auth/Users/Registration.antt =====
-- A registered user can log in with the password of the registration, and names are kept apart.
use secure_api_gateway.Prelude.{
  ℕ, ◌≡◌, inl, inr, true, none, some, String, arith, Option-cases, ◌∙◌, ap,
}
use secure_api_gateway.Prelude.Dict.{Dict, get, put, get-put}
use package.text.Mathlib.TextEquality.{eq_iff}
use secure_api_gateway.Http.{ok, Result-cases}
use secure_api_gateway.Auth.{UserPublic, UserRegistration}
use secure_api_gateway.Auth.Tokens.{AuthSettings, Jwt}
use secure_api_gateway.Auth.Service.{
  StoredUser, to_public_user, Hasher, hash_password, validate_password, UserRepository, Accounts,
  on_repository, verify, unknown_if_invalid,
}
use secure_api_gateway.Auth.Service
use secure_api_gateway.Auth.Users.{normalize_username, is_username, MemoryUsers, memory_users}
use secure_api_gateway.Auth.Users

module _ (normalize : String → String) (new_id : ℕ → String) where
  created :
      (username hashed_password : String) (m : MemoryUsers) (u : StoredUser)
      → (Users.create_user normalize new_id username hashed_password m).0 ≡ ok u
      → (name : String) × (normalize_username normalize username ≡ ok name)
        × (get name m.by_username ≡ none)
        × (u.hashed_password ≡ hashed_password)
        × (u.is_active ≡ true)
        × ((Users.create_user normalize new_id username hashed_password m).1.by_username
            ≡ put name u m.by_username)
  unfolding Users.create_user Users.add_user Users.store_new
  created username hashed_password m u h =
      elim (Result-cases (normalize_username normalize username)) [
        | inr (x, e) ↦ ground (arith, h, e)
        | inl (name, e) ↦ elim (Option-cases (get name m.by_username)) [
          | inr (v, f) ↦ ground (arith, h, e, f)
          | inl f ↦ (
            name,
            e,
            f,
            ground (arith, h, e, f),
            ground (arith, h, e, f),
            ground (arith, h, e, f),
          )
        ]
      ]

  found_after :
      (username name : String) (u : StoredUser) (d : Dict StoredUser) (m : MemoryUsers)
      → normalize_username normalize username ≡ ok name
      → m.by_username ≡ put name u d
      → (Users.get_by_username normalize new_id username m).0 ≡ ok (some u)
  unfolding Users.get_by_username
  found_after username name u d m normal filed =
      ground (arith, normal, filed, get-put name name u d, eq_iff name name)

  module _ (hasher : Hasher) (jwt : Jwt) (token_id : String) (now : ℕ) (settings : AuthSettings)
      (dummy : String) where
    abbrev users : UserRepository MemoryUsers
    users = memory_users normalize new_id

    registered :
        (registration : UserRegistration) (user : UserPublic) (a : Accounts MemoryUsers)
        → (Service.register_user hasher users jwt token_id now settings dummy registration a).0
          ≡ ok user
        → (u : StoredUser) × (user ≡ to_public_user u)
          × (hash_password hasher registration.password ≡ ok (hasher.hash registration.password))
          × ((users.create_user registration.username (hasher.hash registration.password) a.users).0
              ≡ ok u)
          × ((Service.register_user hasher users jwt token_id now settings dummy registration
                a).1.users
              ≡ (users.create_user registration.username
                  (hasher.hash registration.password)
                  a.users).1)
    unfolding Service.register_user hash_password
    registered registration user a h =
        elim (Result-cases (validate_password registration.password)) [
          | inr (x, e) ↦ ground (arith, h, e)
          | inl (v, e) ↦
              elim (Result-cases
                (users.create_user registration.username (hasher.hash registration.password)
                  a.users).0) [
                    | inr (x, f) ↦ ground (arith, h, e, f)
                    | inl (u, f) ↦
                        (u, ground (arith, h, e, f), ground (arith, e), f, ground (arith, e, f))
                  ]
        ]

    accepted :
        (username password : String) (u : StoredUser) (a : Accounts MemoryUsers)
        → (users.get_by_username username a.users).0 ≡ ok (some u)
        → u.is_active ≡ true
        → hasher.verify_and_update password u.hashed_password ≡ ok (true, none)
        → (Service.authenticate_user hasher users jwt token_id now settings dummy username password
            a).0
          ≡ ok u
    unfolding Service.authenticate_user Service.check_credentials Service.accept verify
    accepted username password u a found active verified = ground (arith, found, active, verified)

    -- A user that was registered is authenticated with the password of the registration, as that
    -- user, if the hasher verifies what it hashed and finds it up to date.
    pub register-authenticate :
        (registration : UserRegistration) (user : UserPublic) (a : Accounts MemoryUsers)
        → hasher.verify_and_update registration.password (hasher.hash registration.password)
          ≡ ok (true, none)
        → let (r, after) =
            Service.register_user hasher users jwt token_id now settings dummy registration a in
          r ≡ ok user
          → (u : StoredUser) × ((Service.authenticate_user hasher users jwt token_id now settings
                dummy registration.username registration.password after).0
              ≡ ok u)
            × (user ≡ to_public_user u)
    register-authenticate registration user a verified h =
        let (u, public, hashed, made, state) = registered registration user a h in
        let (name, normal, free, its_hash, active, filed) =
          created registration.username (hasher.hash registration.password) a.users u made in
        let found =
          found_after registration.username name u a.users.by_username
            (Service.register_user hasher users jwt token_id now settings dummy registration
              a).1.users
            normal (ap (λ (m : MemoryUsers). m.by_username) state ∙ filed) in
        (
          u,
          accepted registration.username registration.password u
              (Service.register_user hasher users jwt token_id now settings dummy registration a).1
              found active
              (ap (hasher.verify_and_update registration.password) its_hash ∙ verified),
          public,
        )
