-- ===== src/Database/Roles.antt =====
-- Class PostgreSQLAuthorizationRepository of gateway/app/database/authorization_repository.py. Each
-- SELECT is a function of the tables; the order of its rows is left out, since a frozenset is made of
-- them.
pub mod Lookups
pub mod Outcome
pub mod Assigned
pub mod Queries
pub mod Granted
use secure_api_gateway.Prelude.{
  ℕ, Bool, true, false, not, ◌&&◌, Option, none, some, String, List, [], ◌∷◌, ◌++◌, ◌==◌,
  if◌then◌else◌,
}
use secure_api_gateway.Prelude.Lists.{any}
use secure_api_gateway.Prelude.Sorting.{has}
use secure_api_gateway.Http.{
  Result, ok, raised, database_error, role_not_found_error, user_authorization_not_found_error,
  Action, pure, raise, lift, try_except, when, ◌>>=◌,
}
use secure_api_gateway.Authorization.{AuthorizationRepository, normalize_permission_code}
use secure_api_gateway.Authorization.RoleNames.{normalize_role_name}
use secure_api_gateway.Database.{
  Tables, Postgres, Database, Session, frozenset, execute, select, commit, in_session, translated,
  commit_failed,
}
use text.Mathlib.Text.{◌==◌ as str_eq}

-- The rows that `f` gives for each row of a table.
unfoldable pub rows_of : {A : Type 0} → (A → List String) → List A → List String
rows_of f [] = []
rows_of f (a ∷ rows) = f a ++ rows_of f rows

-- A row, where a condition holds.
abbrev pub where_row : Bool → String → List String
where_row condition value = if condition then value ∷ [] else []

unfoldable pub select_role_names : String → Tables → List String
unfolding rows_of
select_role_names user_id t =
    rows_of
      (λ (role_id, name).
        rows_of (λ (user, role). where_row (str_eq role role_id && str_eq user user_id) name)
          t.user_roles)
      t.roles

unfoldable pub select_permission_codes : String → Tables → List String
unfolding rows_of
select_permission_codes user_id t =
    rows_of
      (λ (user, role).
        rows_of
          (λ (role', permission).
            rows_of
              (λ (permission_id, code).
                where_row
                  (str_eq role' role && str_eq permission_id permission && str_eq user user_id)
                  code)
              t.permissions)
          t.role_permissions)
      t.user_roles

unfoldable pub permission_exists : String → String → Tables → Bool
permission_exists user_id permission_code t =
    any
      (λ (user, role).
        str_eq user user_id
        && any
            (λ (role', permission).
              str_eq role' role
              && any
                  (λ (permission_id, code).
                    str_eq permission_id permission && str_eq code permission_code)
                  t.permissions)
            t.role_permissions)
      t.user_roles

-- result.scalar_one_or_none()
unfoldable pub scalar_one_or_none : {A : Type 0} → List A → Result (Option A)
scalar_one_or_none [] = ok none
scalar_one_or_none (x ∷ []) = ok (some x)
scalar_one_or_none (x ∷ y ∷ xs) = raised database_error

unfoldable pub select_role_ids : String → Tables → List String
unfolding rows_of
select_role_ids name t = rows_of (λ (id, n). where_row (str_eq n name) id) t.roles

unfoldable pub select_user_ids : String → Tables → List String
unfolding rows_of
select_user_ids user_id t = rows_of (λ id. where_row (str_eq id user_id) id) t.users

unfoldable pub known_role : {S : Type 0} → Option String → Action S String
known_role none = raise role_not_found_error
known_role (some role_id) = pure role_id

unfoldable pub known_user : {S : Type 0} → Option String → Action S (Unit {0})
known_user none = raise user_authorization_not_found_error
known_user (some id) = pure tt

module _ (pg : Postgres) (normalize : String → String) where
  unfoldable pub get_role_names_for_user : String → Action (Database pg) (List String)
  unfolding select_role_names
  get_role_names_for_user user_id =
      try_except (in_session (select {pg = pg} (λ t. frozenset (select_role_names user_id t))))
        translated

  unfoldable pub get_permission_codes_for_user : String → Action (Database pg) (List String)
  unfolding select_permission_codes
  get_permission_codes_for_user user_id =
      try_except
        (in_session (select {pg = pg} (λ t. frozenset (select_permission_codes user_id t))))
        translated

  unfoldable pub has_permission : String → String → Action (Database pg) Bool
  unfolding permission_exists normalize_permission_code
  has_permission user_id permission_code = do
    normalized_permission ← lift (normalize_permission_code normalize permission_code)
    try_except (in_session (select {pg = pg} (permission_exists user_id normalized_permission)))
        translated

  -- _get_role_id
  unfoldable pub get_role_id : String → Action (Session pg) String
  unfolding scalar_one_or_none known_role select_role_ids normalize_role_name
  get_role_id role_name = do
    normalized_role ← lift (normalize_role_name normalize role_name)
    rows ← select (select_role_ids normalized_role)
    role_id ← lift (scalar_one_or_none rows)
    known_role role_id

  -- _require_user
  unfoldable pub require_user : String → Action (Session pg) (Unit {0})
  unfolding scalar_one_or_none known_user select_user_ids
  require_user user_id = do
    rows ← select (select_user_ids user_id)
    id ← lift (scalar_one_or_none rows)
    known_user id

  -- What assign_role and remove_role do within their session, but for the statement.
  unfoldable pub change_roles :
      (String → String → pg.Store → ℕ × pg.Store) → String → String → Action (Session pg) Bool
  unfolding get_role_id require_user commit_failed
  change_roles statement user_id role_name = do
    role_id ← get_role_id role_name
    _ ← require_user user_id
    rowcount ← execute (statement user_id role_id)
    _ ← try_except commit commit_failed
    pure (not (rowcount == 0))

  unfoldable pub assign_role : String → String → Action (Database pg) Bool
  unfolding change_roles
  assign_role user_id role_name =
      try_except (in_session (change_roles pg.insert_user_role user_id role_name)) translated

  unfoldable pub remove_role : String → String → Action (Database pg) Bool
  unfolding change_roles
  remove_role user_id role_name =
      try_except (in_session (change_roles pg.delete_user_role user_id role_name)) translated

  abbrev pub postgres_repository : AuthorizationRepository (Database pg)
  postgres_repository = record {
    get_role_names_for_user = get_role_names_for_user;
    get_permission_codes_for_user = get_permission_codes_for_user;
    has_permission = has_permission;
    assign_role = assign_role;
    remove_role = remove_role;
  }
