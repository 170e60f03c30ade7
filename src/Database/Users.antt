-- ===== src/Database/Users.antt =====
-- Class PostgreSQLUserRepository of gateway/app/database/user_repository.py, over the sessions of
-- Database. The statements on the table of users are an interface whose laws are their documented
-- effects and the constraints of the schema. A new record is written when its session commits. Times
-- are left out, and the choice of identifiers is a parameter.
pub mod Creation
pub mod Created
pub mod Registered
pub mod Memory
mod Examples
use secure_api_gateway.Prelude.{
  ℕ, ◌≡◌, Bool, true, false, ◌||◌, Option, none, some, String, List, [], ◌∷◌, if◌then◌else◌, ◌==◌,
}
use secure_api_gateway.Prelude.Sorting.{has}
use secure_api_gateway.Prelude.Texts.{strip_string, is_empty}
use secure_api_gateway.Http.{
  DriverError, IntegrityError, Exn, database_error, integrity_error, user_already_exists_error,
  user_not_found_error, user_repository_backend_error, value_error, Action, pure, raise, lift,
  try_except, when, ◌>>=◌, ◌>>◌,
}
use secure_api_gateway.Auth.Service.{StoredUser, UserRepository}
use secure_api_gateway.Auth.Users.{normalize_username}
use secure_api_gateway.Database.{
  Postgres, Database, Session, execute, commit, rollback_quietly, in_session,
}
use secure_api_gateway.Database.Roles.{scalar_one_or_none}
use text.Mathlib.Text.{◌==◌ as str_eq}

abbrev pub default_role_id : String
default_role_id = "10000000-0000-0000-0000-000000000001"

abbrev unique_violation_sqlstate : String
unique_violation_sqlstate = "23505"

-- `getattr(candidate, "sqlstate", None) or getattr(candidate, "pgcode", None)`
unfoldable pub sqlstate_of : DriverError → Option String
sqlstate_of candidate = elim candidate.sqlstate [
  | none ↦ candidate.pgcode
  | some s ↦ if is_empty s then candidate.pgcode else some s
]

unfoldable pub is_violation : Option DriverError → Bool
unfolding sqlstate_of
is_violation none = false
is_violation (some candidate) = elim (sqlstate_of candidate) [
  | none ↦ false
  | some s ↦ str_eq s unique_violation_sqlstate
]

unfoldable pub is_unique_violation : IntegrityError → Bool
unfolding is_violation
is_unique_violation e = is_violation e.orig || is_violation e.cause || is_violation e.context

-- The statements on the table of users. `users_named` selects by name. `insert_user` inserts a user
-- and gives it a role, or reports what constraint that violates; `update_hash` is an UPDATE of one
-- user, with the number of the rows it changes.
pub record UserQueries (pg : Postgres) : Type 0 where
  pub users_named : String → pg.Store → List StoredUser
  pub count_users : pg.Store → ℕ
  pub insert_user : StoredUser → String → pg.Store → Option IntegrityError × pg.Store
  pub update_hash : String → String → pg.Store → ℕ × pg.Store
  pub insert-unique :
      (u : StoredUser) (r : String) (s : pg.Store)
      → (insert_user u r s).0 ≡ none
      → users_named u.username s ≡ []
  pub insert-violation :
      (u : StoredUser) (r : String) (s : pg.Store) (e : IntegrityError)
      → (insert_user u r s).0 ≡ some e
      → is_unique_violation e ≡ true
      → has u.id (pg.tables s).users ≡ false
      → (v : StoredUser) × (vs : List StoredUser) × (users_named u.username s ≡ v ∷ vs)
  pub insert-named :
      (u : StoredUser) (r name : String) (s : pg.Store)
      → (insert_user u r s).0 ≡ none
      → users_named name (insert_user u r s).1
        ≡ (if str_eq name u.username then u ∷ users_named name s else users_named name s)
  pub insert-role :
      (u : StoredUser) (r : String) (s : pg.Store)
      → (insert_user u r s).0 ≡ none
      → (pg.tables (insert_user u r s).1).user_roles ≡ (u.id, r) ∷ (pg.tables s).user_roles
  pub insert-others :
      (u : StoredUser) (r : String) (s : pg.Store)
      → (insert_user u r s).0 ≡ none
      → let t = pg.tables s in
        let t' = pg.tables (insert_user u r s).1 in
        (t'.roles ≡ t.roles)
        × (t'.permissions ≡ t.permissions)
        × (t'.role_permissions ≡ t.role_permissions)
  pub update-named :
      (id hash name : String) (s : pg.Store) (u : StoredUser)
      → users_named name s ≡ u ∷ []
      → users_named name (update_hash id hash s).1
        ≡ (if str_eq u.id id then record u { hashed_password = hash } else u) ∷ []
  pub update-tables :
      (id hash : String) (s : pg.Store) → pg.tables (update_hash id hash s).1 ≡ pg.tables s

-- backend_error, for the exceptions that the `except` clauses name; the others pass.
unfoldable pub backend_error : {S A : Type 0} → Exn → Action S A
backend_error database_error = raise user_repository_backend_error
backend_error (integrity_error e) = raise user_repository_backend_error
backend_error e = raise e

module _ (pg : Postgres) (queries : UserQueries pg) where
  open queries use {users_named, count_users, insert_user, update_hash}

  -- The `try` around the commit of a new user.
  unfoldable pub creation_failed : Exn → Action (Session pg) (Unit {0})
  unfolding rollback_quietly is_unique_violation
  creation_failed (integrity_error e) =
      rollback_quietly
      >> raise (
          if is_unique_violation e
          then user_already_exists_error
          else user_repository_backend_error)
  creation_failed database_error = rollback_quietly >> raise user_repository_backend_error
  creation_failed e = raise e

  -- The `try` around the commit of a new hash.
  unfoldable pub update_failed : Exn → Action (Session pg) (Unit {0})
  unfolding rollback_quietly
  update_failed (integrity_error e) = rollback_quietly >> raise user_repository_backend_error
  update_failed database_error = rollback_quietly >> raise user_repository_backend_error
  update_failed e = raise e

  unfoldable pub flushed : Option IntegrityError → Action (Session pg) (Unit {0})
  flushed none = commit
  flushed (some e) = raise (integrity_error e)

  -- session.commit with the new records of a user and its role
  unfoldable pub commit_new : StoredUser → Action (Session pg) (Unit {0})
  unfolding flushed
  commit_new u = execute (insert_user u default_role_id) >>= flushed

  -- session.commit with a changed hash: an UPDATE that finds no row is a StaleDataError
  unfoldable pub commit_hash : String → String → Action (Session pg) (Unit {0})
  commit_hash id hash = do
    rowcount ← execute (update_hash id hash)
    _ ← when (rowcount == 0) (raise database_error)
    commit

  unfoldable pub select_user : String → Action (Session pg) (Option StoredUser)
  unfolding scalar_one_or_none
  select_user name = do
    rows ← execute (λ s. (users_named name s, s))
    lift (scalar_one_or_none rows)

  unfoldable pub change_hash : String → Option StoredUser → Action (Session pg) StoredUser
  unfolding commit_hash update_failed
  change_hash hash none = raise user_not_found_error
  change_hash hash (some u) = do
    _ ← try_except (commit_hash u.id hash) update_failed
    pure (record u { hashed_password = hash })

  unfoldable pub add_new : StoredUser → Action (Database pg) StoredUser
  unfolding commit_new creation_failed backend_error
  add_new u = do
    _ ← try_except (in_session (try_except (commit_new u) creation_failed)) backend_error
    pure u

  module _ (normalize : String → String) (new_id : String) where
    unfoldable pub create_user : String → String → Action (Database pg) StoredUser
    unfolding normalize_username add_new
    create_user username hashed_password = do
      name ← lift (normalize_username normalize username)
      _ ← when (is_empty (strip_string hashed_password)) (raise value_error)
      let user : StoredUser = record {
        id = new_id;
        username = name;
        hashed_password = hashed_password;
        is_active = true;
      }
      add_new user

    unfoldable pub get_by_username : String → Action (Database pg) (Option StoredUser)
    unfolding normalize_username select_user
    get_by_username username = do
      name ← lift (normalize_username normalize username)
      try_except (in_session (select_user name)) backend_error

    unfoldable pub update_password_hash : String → String → Action (Database pg) StoredUser
    unfolding normalize_username select_user change_hash
    update_password_hash username hashed_password = do
      name ← lift (normalize_username normalize username)
      _ ← when (is_empty (strip_string hashed_password)) (raise value_error)
      try_except (in_session (select_user name >>= change_hash hashed_password)) backend_error

    unfoldable pub count : Action (Database pg) ℕ
    count = try_except (in_session (execute {pg = pg} (λ s. (count_users s, s)))) backend_error

    abbrev pub postgres_users : UserRepository (Database pg)
    postgres_users = record {
      create_user = create_user;
      get_by_username = get_by_username;
      update_password_hash = update_password_hash;
    }
