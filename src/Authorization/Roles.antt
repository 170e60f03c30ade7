-- ===== src/Authorization/Roles.antt =====
-- The roles of a user, for those who may manage them: the operations on roles of AuthorizationService
-- (gateway/app/authorization/service.py) and the handlers of gateway/app/authorization/router.py.
pub mod Changes
pub mod Handlers
pub mod Reading
mod Examples
use secure_api_gateway.Prelude.{
  ℕ, Bool, true, false, Option, none, some, String, List, [], ◌∷◌, if◌then◌else◌,
}
use secure_api_gateway.Prelude.Texts.{text}
use secure_api_gateway.Prelude.Sorting.{sorted}
use secure_api_gateway.Http.{
  Exn, http, user_repository_backend_error, username_policy_error, role_not_found_error,
  role_name_policy_error, authorization_repository_backend_error, Action, pure, raise, lift,
  try_except, ◌>>=◌, ◌>>◌,
}
use secure_api_gateway.Audit.{
  Request, AuditEventType, authentication_backend_unavailable, authorization_backend_unavailable,
  role_list_read, role_assigned, role_removed, success, unavailable, Details,
}
use secure_api_gateway.World.{Services, World, on_users, on_roles, about}
use secure_api_gateway.Auth.{UserPublic}
use secure_api_gateway.Auth.Service.{StoredUser, UserRepository}
use secure_api_gateway.Auth.Router.{authentication_database_unavailable}
use secure_api_gateway.Authorization.{
  AuthorizationRepository, authorization_unavailable_response, event, permission_dependency,
}
use secure_api_gateway.Authorization.RoleNames.{normalize_role_name}

module _ {Roles : Type 0} (normalize : String → String)
    (repository : AuthorizationRepository Roles) where
  -- AuthorizationService.assign_role
  unfoldable pub assign_role : String → String → Action Roles Bool
  unfolding normalize_role_name
  assign_role user_id role_name = do
    normalized_role ← lift (normalize_role_name normalize role_name)
    repository.assign_role user_id normalized_role

  -- AuthorizationService.remove_role
  unfoldable pub remove_role : String → String → Action Roles Bool
  unfolding normalize_role_name
  remove_role user_id role_name = do
    normalized_role ← lift (normalize_role_name normalize role_name)
    repository.remove_role user_id normalized_role

pub record UserRolesResponse : Type 0 where
  pub user_id : String
  pub username : String
  pub roles : List String

pub record RoleMutationResponse : Type 0 where
  pub user_id : String
  pub username : String
  pub role : String
  pub changed : Bool

unfoldable pub user_not_found : Exn
user_not_found = http (record { status_code = 404; detail = "User not found."; headers = [] })

unfoldable pub role_not_found : Exn
role_not_found = http (record { status_code = 404; detail = "Role not found."; headers = [] })

unfoldable pub found : {S : Type 0} → Option StoredUser → Action S StoredUser
found none = raise user_not_found
found (some user) = pure user

-- The `except` clauses for a role name that is not one.
unfoldable pub not_a_role : {S A : Type 0} → Exn → Action S A
not_a_role role_not_found_error = raise role_not_found
not_a_role role_name_policy_error = raise role_not_found
not_a_role e = raise e

-- The fields of the events about a user whose roles are read or changed.
abbrev pub about_target : Request → String → String → StoredUser → ℕ → String → Details
about_target request actor_id permission_code target status_code reason_code =
    record (about request status_code reason_code) {
      actor_user_id = some actor_id;
      target_user_id = some target.id;
      permission_code = some (text permission_code);
    }

abbrev pub about_role : Request → String → String → StoredUser → String → ℕ → String → Details
about_role request actor_id permission_code target role_name status_code reason_code =
    record (about_target request actor_id permission_code target status_code reason_code) {
      role_name = some (text role_name);
    }

module _ {s : Services} (parse_uuid : String → Option String) (request : Request) where
  -- The `except` clauses of get_target_user.
  unfoldable pub lookup_failed : String → String → Exn → Action (World s) (Option StoredUser)
  unfolding event
  lookup_failed actor_id permission_code user_repository_backend_error =
      event parse_uuid request authentication_backend_unavailable unavailable
        (record (about request 503 "authorization_target_lookup_unavailable") {
          actor_user_id = some actor_id;
          permission_code = some (text permission_code);
        })
      >> raise authentication_database_unavailable
  lookup_failed actor_id permission_code username_policy_error = raise user_not_found
  lookup_failed actor_id permission_code e = raise e

  unfoldable pub get_target_user :
      UserRepository s.Users → String → String → String → Action (World s) StoredUser
  unfolding found
  get_target_user repository username actor_id permission_code = do
    user ←
        try_except (on_users (repository.get_by_username username))
          (lookup_failed actor_id permission_code)
    found user

  -- An `except AuthorizationRepositoryBackendError` clause, with the fields of its event.
  unfoldable pub repository_failed : {A : Type 0} → Details → Exn → Action (World s) A
  unfolding event
  repository_failed d authorization_repository_backend_error =
      event parse_uuid request authorization_backend_unavailable unavailable d
      >> raise authorization_unavailable_response
  repository_failed d e = raise e

  -- The `except` clauses around a change of roles. What the second clause names is not what the
  -- first one raises.
  unfoldable pub change_failed : Details → Exn → Action (World s) Bool
  unfolding not_a_role repository_failed
  change_failed d authorization_repository_backend_error =
      repository_failed d authorization_repository_backend_error
  change_failed d e = not_a_role e

  module _ (normalize : String → String) (users : UserRepository s.Users) where
    -- The body that assign_user_role and remove_user_role share but for the call and its events.
    -- The `try` of the source is two here: normalization raises nothing that the clause about the
    -- repository names.
    module _ (event_type : AuditEventType) (failed_reason changed_reason unchanged_reason : String)
        (change : String → String → Action s.Roles Bool) where
      unfoldable pub change_user_role :
          String → String → UserPublic → Action (World s) RoleMutationResponse
      unfolding change_failed event
      change_user_role username role_name actor = do
        target ← get_target_user users username actor.id "authorization:roles:manage"
        normalized_role ← try_except (lift (normalize_role_name normalize role_name)) not_a_role
        changed ← try_except (on_roles (change target.id normalized_role)) (
            change_failed (
              about_role request actor.id "authorization:roles:manage" target normalized_role 503
                failed_reason))
        _ ← event parse_uuid request event_type success (
            about_role request actor.id "authorization:roles:manage" target normalized_role 200
              (if changed then changed_reason else unchanged_reason))
        pure (record {
          user_id = target.id;
          username = target.username;
          role = normalized_role;
          changed = changed;
        })

    module _ (repository : AuthorizationRepository s.Roles) where
      unfoldable pub assign_user_role :
          String → String → UserPublic → Action (World s) RoleMutationResponse
      unfolding permission_dependency assign_role
      assign_user_role username role_name current_user = do
        actor ←
            permission_dependency parse_uuid request normalize repository
              "authorization:roles:manage" current_user
        change_user_role role_assigned "role_assignment_repository_unavailable" "role_assigned"
            "role_already_assigned" (assign_role normalize repository) username role_name actor

      unfoldable pub remove_user_role :
          String → String → UserPublic → Action (World s) RoleMutationResponse
      unfolding permission_dependency remove_role
      remove_user_role username role_name current_user = do
        actor ←
            permission_dependency parse_uuid request normalize repository
              "authorization:roles:manage" current_user
        change_user_role role_removed "role_removal_repository_unavailable" "role_removed"
            "role_not_assigned" (remove_role normalize repository) username role_name actor

      -- The body of read_user_roles, for the actor of its dependency.
      unfoldable pub list_roles : String → UserPublic → Action (World s) UserRolesResponse
      unfolding event
      list_roles username actor = do
        target ← get_target_user users username actor.id "authorization:roles:read"
        roles ← try_except (on_roles (repository.get_role_names_for_user target.id)) (
            repository_failed (
              about_target request actor.id "authorization:roles:read" target 503
                "role_list_repository_unavailable"))
        _ ←
            event parse_uuid request role_list_read success
              (about_target request actor.id "authorization:roles:read" target 200 "roles_read")
        pure (record { user_id = target.id; username = target.username; roles = sorted roles })

      unfoldable pub read_user_roles : String → UserPublic → Action (World s) UserRolesResponse
      unfolding permission_dependency
      read_user_roles username current_user = do
        actor ←
            permission_dependency parse_uuid request normalize repository "authorization:roles:read"
              current_user
        list_roles username actor
