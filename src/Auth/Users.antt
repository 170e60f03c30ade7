-- ===== src/Auth/Users.antt =====
-- The names of users, normalize_username of gateway/app/auth/models.py, and class
-- InMemoryUserRepository of gateway/app/auth/repository.py. Each method runs under the lock, so it is
-- one step. Unicode normalization (NFKC, strip, casefold) and the choice of identifiers are
-- parameters.
pub mod Registration
mod Examples
use secure_api_gateway.Prelude.{
  ℕ, ◌+◌, Bool, true, false, not, ◌&&◌, ◌||◌, Option, none, some, String, List, [], ◌∷◌, ltb, ◌==◌,
  if◌then◌else◌,
}
use secure_api_gateway.Prelude.Dict.{Dict, get, put}
use secure_api_gateway.Prelude.Lists.{length}
use secure_api_gateway.Prelude.Texts.{Text, text, strip_string, is_empty, is_lower, is_digit}
use secure_api_gateway.Http.{
  Result, ok, raised, Exn, username_policy_error, user_already_exists_error, user_not_found_error,
  value_error, Action, pure, raise, lift, when, ◌>>=◌, ◌>>◌,
}
use secure_api_gateway.Auth.Service.{StoredUser, UserRepository}

unfoldable pub is_word : ℕ → Bool
unfolding is_lower is_digit
is_word c = is_lower c || is_digit c

-- The rest of a name that USERNAME_PATTERN matches, after its first character.
unfoldable pub name_rest : Text → Bool
unfolding is_word
name_rest [] = false
name_rest (c ∷ []) = is_word c
name_rest (c ∷ d ∷ s) = (is_word c || c == b'.' || c == b'_' || c == b'-') && name_rest (d ∷ s)

unfoldable pub is_username : Text → Bool
unfolding name_rest is_word
is_username [] = false
is_username (c ∷ s) = is_word c && name_rest s

unfoldable pub normalize_username : (String → String) → String → Result String
unfolding is_username
normalize_username normalize username =
    let normalized = normalize username in
    let n = length (text normalized) in
    if ltb n 3
    then raised username_policy_error
    else if ltb 64 n
    then raised username_policy_error
    else if not (is_username (text normalized))
    then raised username_policy_error
    else ok normalized

-- The users by name, and how many were created.
pub record MemoryUsers : Type 0 where
  pub by_username : Dict StoredUser
  pub created : ℕ

module _ (normalize : String → String) (new_id : ℕ → String) where
  unfoldable pub store_new : String → String → MemoryUsers → Result StoredUser × MemoryUsers
  store_new name hashed_password m =
      let user : StoredUser = record {
        id = new_id m.created;
        username = name;
        hashed_password = hashed_password;
        is_active = true;
      } in
      (ok user, record { by_username = put name user m.by_username; created = m.created + 1 })

  unfoldable pub add_user : String → String → Action MemoryUsers StoredUser
  unfolding store_new
  add_user name hashed_password m = elim (get name m.by_username) [
    | some u ↦ (raised user_already_exists_error, m)
    | none ↦ store_new name hashed_password m
  ]

  unfoldable pub create_user : String → String → Action MemoryUsers StoredUser
  unfolding add_user
  create_user username hashed_password = do
    name ← lift (normalize_username normalize username)
    _ ← when (is_empty (strip_string hashed_password)) (raise value_error)
    add_user name hashed_password

  unfoldable pub get_by_username : String → Action MemoryUsers (Option StoredUser)
  get_by_username username = do
    name ← lift (normalize_username normalize username)
    (λ m. (ok (get name m.by_username), m))

  unfoldable pub store_hash :
      String → String → StoredUser → MemoryUsers → Result StoredUser × MemoryUsers
  store_hash name hashed_password u m =
      let updated = record u { hashed_password = hashed_password } in
      (ok updated, record m { by_username = put name updated m.by_username })

  unfoldable pub replace_hash : String → String → Action MemoryUsers StoredUser
  unfolding store_hash
  replace_hash name hashed_password m = elim (get name m.by_username) [
    | none ↦ (raised user_not_found_error, m)
    | some u ↦ store_hash name hashed_password u m
  ]

  unfoldable pub update_password_hash : String → String → Action MemoryUsers StoredUser
  unfolding replace_hash
  update_password_hash username hashed_password = do
    name ← lift (normalize_username normalize username)
    _ ← when (is_empty (strip_string hashed_password)) (raise value_error)
    replace_hash name hashed_password

  abbrev pub memory_users : UserRepository MemoryUsers
  memory_users = record {
    create_user = create_user;
    get_by_username = get_by_username;
    update_password_hash = update_password_hash;
  }
