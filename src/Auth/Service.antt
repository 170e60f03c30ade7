-- ===== src/Auth/Service.antt =====
-- AuthenticationService of gateway/app/auth/service.py, with what it uses of passwords.py and
-- models.py, over a repository of users. Argon2 (pwdlib) is a parameter; its verifications are
-- counted, since the source makes one for an unknown user too.
pub mod Credentials
use secure_api_gateway.Prelude.{
  ℕ, ◌+◌, Bool, true, false, not, ◌||◌, Option, none, some, String, ltb, if◌then◌else◌,
}
use secure_api_gateway.Prelude.Lists.{length}
use secure_api_gateway.Prelude.Texts.{text, strip_string, is_empty}
use secure_api_gateway.Http.{
  Result, ok, raised, Exn, authentication_error, username_policy_error, password_policy_error,
  Action, pure, raise, lift, try_except, ◌>>=◌, ◌>>◌,
}
use secure_api_gateway.Auth.{
  UserPublic, AuthenticationResult, UserRegistration, AuthenticationService,
}
use secure_api_gateway.Auth.Tokens.{AuthSettings, Jwt, create_access_token}

pub record StoredUser : Type 0 where
  pub id : String
  pub username : String
  pub hashed_password : String
  pub is_active : Bool

unfoldable pub to_public_user : StoredUser → UserPublic
to_public_user u = record { id = u.id; username = u.username; is_active = u.is_active }

-- PASSWORD_HASHER: hash and verify_and_update, where `verify` is the test of the latter. It raises an
-- exception for a hash that it does not know.
pub record Hasher : Type 0 where
  pub hash : String → String
  pub verify_and_update : String → String → Result (Bool × Option String)

unfoldable pub validate_password : String → Result (Unit {0})
validate_password password =
    let n = length (text password) in
    if ltb n 12
    then raised password_policy_error
    else if ltb 128 n
    then raised password_policy_error
    else if is_empty (strip_string password)
    then raised password_policy_error
    else ok tt

unfoldable pub hash_password : Hasher → String → Result String
unfolding validate_password
hash_password hasher password = elim (validate_password password) [
  | ok u ↦ ok (hasher.hash password)
  | raised e ↦ raised e
]

-- UserRepository, without the count of its users, which nothing here uses.
pub record UserRepository (S : Type 0) : Type 0 where
  pub create_user : String → String → Action S StoredUser
  pub get_by_username : String → Action S (Option StoredUser)
  pub update_password_hash : String → String → Action S StoredUser

-- The users, and how many verifications of a password were made.
pub record Accounts (S : Type 0) : Type 0 where
  pub users : S
  pub verifications : ℕ

module _ {S : Type 0} where
  abbrev pub on_repository : {A : Type 0} → Action S A → Action (Accounts S) A
  on_repository m a = let r = m a.users in (r.0, record a { users = r.1 })

  unfoldable pub verify : Hasher → String → String → Action (Accounts S) (Bool × Option String)
  verify hasher password hashed_password a = (
    hasher.verify_and_update password hashed_password,
    record a { verifications = a.verifications + 1 },
  )

  -- `except UsernamePolicyError: stored_user = None`
  unfoldable pub unknown_if_invalid : Exn → Action (Accounts S) (Option StoredUser)
  unknown_if_invalid username_policy_error = pure none
  unknown_if_invalid e = raise e

  module _ (hasher : Hasher) (repository : UserRepository S) (jwt : Jwt) (token_id : String)
      (now : ℕ) (settings : AuthSettings) (dummy_password_hash : String) where
    unfoldable pub register_user : UserRegistration → Action (Accounts S) UserPublic
    unfolding hash_password to_public_user
    register_user registration = do
      hashed_password ← lift (hash_password hasher registration.password)
      stored_user ← on_repository (repository.create_user registration.username hashed_password)
      pure (to_public_user stored_user)

    -- The user that was found, once the password was verified.
    unfoldable pub accept : StoredUser → Bool × Option String → Action (Accounts S) StoredUser
    accept u (is_valid, replacement_hash) =
        if not is_valid || not u.is_active
        then raise authentication_error
        else elim replacement_hash [
          | none ↦ pure u
          | some h ↦ on_repository (repository.update_password_hash u.username h)
        ]

    unfoldable pub check_credentials : String → Option StoredUser → Action (Accounts S) StoredUser
    unfolding verify accept
    check_credentials password none =
        verify hasher password dummy_password_hash >> raise authentication_error
    check_credentials password (some u) = verify hasher password u.hashed_password >>= accept u

    unfoldable pub authenticate_user : String → String → Action (Accounts S) StoredUser
    unfolding unknown_if_invalid check_credentials
    authenticate_user username password =
        try_except (on_repository (repository.get_by_username username)) unknown_if_invalid
        >>= check_credentials password

    unfoldable pub authenticate_and_create_result :
        String → String → Action (Accounts S) AuthenticationResult
    unfolding authenticate_user to_public_user
    authenticate_and_create_result username password = do
      stored_user ← authenticate_user username password
      token ← lift (create_access_token jwt token_id now stored_user.username settings)
      pure (record { access_token = jwt.text_of token; user = to_public_user stored_user })

    -- What the routes use.
    abbrev pub service : AuthenticationService (Accounts S)
    service = record {
      register_user = register_user;
      authenticate_and_create_result = authenticate_and_create_result;
    }
