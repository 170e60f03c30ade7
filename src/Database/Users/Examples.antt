-- ===== src/Database/Users/Examples.antt =====
-- The repository of users at concrete tables.
use secure_api_gateway.Prelude.{◌≡◌, ◌⊎◌, ◌↔◌, true, some, String, [], ◌∷◌, refl, ap}
use secure_api_gateway.Prelude.Texts.{is_lower, is_digit, is_empty, strip_string, keep_before}
use secure_api_gateway.Http.{
  Exn, ok, raised, user_repository_backend_error, user_already_exists_error,
}
use secure_api_gateway.Auth.Service.{StoredUser}
use secure_api_gateway.Auth.Users.{normalize_username, is_username, name_rest, is_word}
use secure_api_gateway.Authorization.{normalize_permission_code, code_from}
use secure_api_gateway.Database.{
  Tables, Database, works, statement_with, execute, select, commit_with, commit, in_session,
  ignored, rollback_with, rollback_quietly,
}
use secure_api_gateway.Database.Roles.{permission_exists, has_permission}
use secure_api_gateway.Database.Roles.Queries.{grants}
use secure_api_gateway.Database.Users.{
  default_role_id, sqlstate_of, is_violation, is_unique_violation, creation_failed, flushed,
  commit_new, add_new, create_user, get_by_username, backend_error,
}
use secure_api_gateway.Database.Users.Created.{
  IsCreated, IsReported, IsTaken, WasCreated, new_user, create_user-IsCreated,
}
use secure_api_gateway.Database.Users.Registered.{create-get, create-permissions}
use secure_api_gateway.Database.Users.Memory.{memory, queries, insert_user}

abbrev same : String → String
same name = name

-- No user yet, and the default role, which may read the status.
abbrev tables : Tables
tables = record {
  users = [];
  roles = (default_role_id, "user") ∷ [];
  permissions = ("permission-1", "proxy:status:read") ∷ [];
  user_roles = [];
  role_permissions = (default_role_id, "permission-1") ∷ [];
}

abbrev alice : StoredUser
alice = record { id = "user-1"; username = "alice"; hashed_password = "hashed"; is_active = true }

abbrev empty : Database memory
empty = record { store = (tables, []); faults = works ∷ [] }

abbrev registered : Database memory
registered = record {
  store = (
    record tables { users = "user-1" ∷ []; user_roles = ("user-1", default_role_id) ∷ [] },
    alice ∷ [],
  );
  faults = [];
}

creates : create_user memory queries same "user-1" "alice" "hashed" empty ≡ (ok alice, registered)
unfolding create_user normalize_username is_username name_rest is_word is_lower is_digit is_empty
    add_new commit_new flushed in_session execute statement_with commit commit_with insert_user
    strip_string keep_before
creates = refl

-- The same name again.
creates_again :
    create_user memory queries same "user-2" "alice" "hashed" registered
    ≡ (raised user_already_exists_error, registered)
unfolding create_user normalize_username is_username name_rest is_word is_lower is_digit is_empty
    add_new commit_new flushed in_session execute statement_with commit commit_with insert_user
    creation_failed rollback_quietly rollback_with ignored is_unique_violation is_violation
    sqlstate_of backend_error strip_string keep_before
creates_again = refl

alice_normal : normalize_username same "alice" ≡ ok "alice"
unfolding normalize_username is_username name_rest is_word is_lower is_digit
alice_normal = refl

create_user-IsCreated_example :
    let (r, d') = create_user memory queries same "user-1" "alice" "hashed" empty in
    ((u : StoredUser) × (r ≡ ok u)
      × (normalize_username same "alice" ≡ ok u.username)
      × (u ≡ new_user memory queries same "user-1" "alice" "hashed" u.username)
      × IsCreated memory queries u empty.store d'.store)
    ⊎ ((x : Exn) × (r ≡ raised x)
        × IsReported (IsTaken memory queries same "user-1" "alice" "hashed" empty.store) x
        × ((d'.store ≡ empty.store)
            ⊎ ((x ≡ user_repository_backend_error)
                × WasCreated memory queries same "user-1" "alice" "hashed" empty.store d'.store)))
create_user-IsCreated_example =
    create_user-IsCreated memory queries same "user-1" "alice" "hashed" empty refl

create-get_example :
    (get_by_username memory queries same "user-1" "alice"
        (create_user memory queries same "user-1" "alice" "hashed" empty).1).0
      ≡ ok (some alice)
    ⊎ ((get_by_username memory queries same "user-1" "alice"
          (create_user memory queries same "user-1" "alice" "hashed" empty).1).0
        ≡ raised user_repository_backend_error)
create-get_example =
    create-get memory queries same "user-1" "alice" "hashed" alice empty "alice" refl
      (ap (λ r. r.0) creates) alice_normal

read_normal : normalize_permission_code same "proxy:status:read" ≡ ok "proxy:status:read"
unfolding normalize_permission_code code_from is_lower is_digit
read_normal = refl

may_read : (has_permission memory same "user-1" "proxy:status:read" registered).0 ≡ ok true
unfolding has_permission normalize_permission_code code_from is_lower is_digit in_session select
    execute statement_with permission_exists
may_read = refl

may_read_created :
    (has_permission memory same "user-1" "proxy:status:read"
      (create_user memory queries same "user-1" "alice" "hashed" empty).1).0
    ≡ ok true
may_read_created = rw creates may_read

create-permissions_example : true ≡ true ↔ (
    (◌≡◌ {A = String} "user-1" "user-1"
      × (grants tables default_role_id "proxy:status:read" ≡ true))
    ⊎ (permission_exists "user-1" "proxy:status:read" tables ≡ true))
create-permissions_example =
    create-permissions memory queries same "user-1" "alice" "hashed" alice empty "user-1"
      "proxy:status:read" "proxy:status:read" true refl (ap (λ r. r.0) creates) read_normal
      may_read_created
