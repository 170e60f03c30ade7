-- ===== src/Auth/Users/Examples.antt =====
-- Tests of registration and authentication, and their theorems at concrete inputs.
use secure_api_gateway.Prelude.{
  ◌≤◌, ◌<◌, ◌/◌, ◌*◌, arith, ℕ, ◌+◌, ◌≡◌, true, false, none, some, String, [], ◌∷◌, refl,
}
use secure_api_gateway.Prelude.Dict.{get, put}
use secure_api_gateway.Prelude.Lists.{length}
use secure_api_gateway.Prelude.Texts.{
  text, is_lower, is_digit, strip_string, lstrip_string, rstrip_string, keep_before, is_space,
  is_empty,
}
use secure_api_gateway.Http.{ok, raised, authentication_error, username_policy_error}
use secure_api_gateway.Auth.{UserPublic, UserRegistration, AuthenticationResult}
use secure_api_gateway.Auth.Tokens.{
  second, AuthSettings, Payload, claims_of, Jwt, create_access_token,
}
use secure_api_gateway.Auth.Service.{
  StoredUser, to_public_user, Hasher, validate_password, hash_password, Accounts, verify,
  unknown_if_invalid, accept, check_credentials, register_user, authenticate_user,
  authenticate_and_create_result,
}
use secure_api_gateway.Auth.Service.Credentials.{unknown, wrong_credentials_alike}
use secure_api_gateway.Auth.Users.{
  is_word, name_rest, is_username, normalize_username, MemoryUsers, memory_users, store_new,
  add_user, create_user, get_by_username,
}
use secure_api_gateway.Auth.Users.Registration.{register-authenticate}
use package.text.Mathlib.Text.{◌==◌ as str_eq}

abbrev same : String → String
same s = s

abbrev new_id : ℕ → String
new_id n = "user-1"

-- A hash that is the password.
abbrev hasher : Hasher
hasher = record {
  hash = λ password. password;
  verify_and_update = λ password hashed. ok (str_eq password hashed, none);
}

open_own :
    (p : Payload) (secret algorithm : String) (t : Payload) (now : ℕ)
    → some p ≡ some t
    → algorithm ≡ "HS256"
    → 32 ≤ length (text secret)
    → is_empty p.aud ≡ false
    → is_empty p.iss ≡ false
    → p.iat / second * second ≤ now
    → now < p.exp / second * second
    → some (claims_of t) ≡ some (claims_of p)
open_own p secret algorithm t now e _ _ _ _ _ _ = ground (arith, e)

-- Tokens that are the payloads.
abbrev open_jwt : Jwt
open_jwt = record {
  Token = Payload;
  is_blank = λ t. false;
  text_of = λ t. t.sub;
  encode = λ p secret algorithm. some p;
  decode = λ p secret algorithm audience issuer now. some (claims_of p);
  encode_not_blank = λ p secret algorithm t e. refl;
  decode-encode = open_own;
}

abbrev settings : AuthSettings
settings = record {
  secret_key = "a secret of thirty-two characters";
  algorithm = "HS256";
  access_token_minutes = 15;
  issuer = "secure-api-gateway";
  audience = "secure-api-clients";
}

abbrev nobody : Accounts MemoryUsers
nobody = record { users = record { by_username = []; created = 0 }; verifications = 0 }

abbrev registration : UserRegistration
registration = record { username = "alice-1"; password = "correct horse battery" }

abbrev stored : StoredUser
stored = record {
  id = "user-1";
  username = "alice-1";
  hashed_password = "correct horse battery";
  is_active = true;
}

abbrev alice : UserPublic
alice = record { id = "user-1"; username = "alice-1"; is_active = true }

abbrev somebody : Accounts MemoryUsers
somebody = record {
  users = record { by_username = ("alice-1", stored) ∷ []; created = 1 };
  verifications = 0;
}

short_name : normalize_username same "al" ≡ raised username_policy_error
unfolding normalize_username
short_name = refl

alice_registered :
    register_user hasher
      (memory_users same new_id)
      open_jwt
      "token-1"
      0
      settings
      "dummy"
      registration
      nobody
    ≡ (ok alice, somebody)
unfolding register_user hash_password validate_password to_public_user create_user add_user
    store_new normalize_username is_username name_rest is_word is_lower is_digit get put
    strip_string lstrip_string rstrip_string keep_before is_space is_empty
alice_registered = refl

alice_registered_result :
    (register_user hasher
      (memory_users same new_id)
      open_jwt
      "token-1"
      0
      settings
      "dummy"
      registration
      nobody).0
    ≡ ok alice
alice_registered_result = rw alice_registered refl

register-authenticate_example :
    (u : StoredUser) × ((authenticate_user hasher
        (memory_users same new_id)
        open_jwt
        "token-1"
        0
        settings
        "dummy"
        "alice-1"
        "correct horse battery"
        (register_user hasher
          (memory_users same new_id)
          open_jwt
          "token-1"
          0
          settings
          "dummy"
          registration
          nobody).1).0
      ≡ ok u)
    × (alice ≡ to_public_user u)
register-authenticate_example =
    register-authenticate same new_id hasher open_jwt "token-1" 0 settings "dummy" registration
      alice nobody refl alice_registered_result

bob_unknown : (get_by_username same new_id "bob" somebody.users).0 ≡ ok none
unfolding get_by_username normalize_username is_username name_rest is_word is_lower is_digit get
bob_unknown = refl

wrong_credentials_alike_example :
    authenticate_user hasher
      (memory_users same new_id)
      open_jwt
      "token-1"
      0
      settings
      "dummy"
      "bob"
      "correct horse battery"
      somebody
    ≡ (
      raised authentication_error,
      record {
        users = (get_by_username same new_id "bob" somebody.users).1;
        verifications = 0 + 1;
      },
    )
wrong_credentials_alike_example =
    wrong_credentials_alike hasher (memory_users same new_id) open_jwt "token-1" 0 settings "dummy"
      "bob" "correct horse battery" somebody
      (unknown (str_eq "correct horse battery" "dummy", none) bob_unknown refl)

alice_result :
    (authenticate_and_create_result hasher
      (memory_users same new_id)
      open_jwt
      "token-1"
      0
      settings
      "dummy"
      "alice-1"
      "correct horse battery"
      somebody).0
    ≡ ok (record { access_token = "alice-1"; user = alice })
unfolding authenticate_and_create_result authenticate_user check_credentials accept verify
    unknown_if_invalid to_public_user get_by_username normalize_username is_username name_rest
    is_word is_lower is_digit get create_access_token strip_string lstrip_string rstrip_string
    keep_before is_space is_empty
alice_result = refl

abbrev login : AuthenticationResult
login = record { access_token = "alice-1"; user = alice }
