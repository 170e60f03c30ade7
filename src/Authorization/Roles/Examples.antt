-- ===== src/Authorization/Roles/Examples.antt =====
-- The handlers of roles at concrete requests.
use secure_api_gateway.Prelude.{ℕ, suc, ◌≡◌, Bool, true, some, String, [], ◌∷◌, refl, inr}
use secure_api_gateway.Prelude.Texts.{is_lower, is_digit}
use secure_api_gateway.Redis.Memory.{vacant}
use secure_api_gateway.Http.{ok}
use secure_api_gateway.Audit.{role_assigned, success}
use secure_api_gateway.Audit.Recording.{newest, KeepsContract}
use secure_api_gateway.Audit.Trusted.{event_about, IsCode}
use secure_api_gateway.World.{World}
use secure_api_gateway.Auth.{UserPublic}
use secure_api_gateway.Auth.Service.{StoredUser, UserRepository}
use secure_api_gateway.Authorization.{
  AuthorizationRepository, normalize_permission_code, code_from, permission_dependency,
  require_permission, has_permission,
}
use secure_api_gateway.Authorization.RoleNames.{is_role_name, is_role_char, normalize_role_name}
use secure_api_gateway.Authorization.Roles.{
  assign_role, change_user_role, assign_user_role, RoleMutationResponse,
}
use secure_api_gateway.Authorization.Roles.Changes.{manage, change_details, lookup_codes}
use secure_api_gateway.Authorization.Roles.Handlers.{
  role_of, answered, roles_after, change_user_role-answered, assign_user_role-authorized,
}
use secure_api_gateway.Fixtures.{parse_uuid, post_request, trusted_post, services, world_of}

abbrev same : String → String
same name = name

abbrev stored : StoredUser
stored = record { id = "user-2"; username = "operator"; hashed_password = "h"; is_active = true }

abbrev users : UserRepository ℕ
users = record {
  create_user = λ username hashed n. (ok stored, n);
  get_by_username = λ username n. (ok (some stored), n);
  update_password_hash = λ username hashed n. (ok stored, n);
}

abbrev repository : AuthorizationRepository ℕ
repository = record {
  get_role_names_for_user = λ user_id n. (ok ("user" ∷ "auditor" ∷ []), n);
  get_permission_codes_for_user = λ user_id n. (ok [], n);
  has_permission = λ user_id code n. (ok true, n);
  assign_role = λ user_id role n. (ok true, suc n);
  remove_role = λ user_id role n. (ok true, n);
}

abbrev admin : UserPublic
admin = record { id = "user-1"; username = "admin"; is_active = true }

abbrev world : World services
world = world_of vacant

auditor_named : normalize_role_name same "auditor" ≡ ok "auditor"
unfolding normalize_role_name is_role_name is_role_char is_lower is_digit
auditor_named = refl

abbrev outcome : RoleMutationResponse
outcome = record { user_id = "user-2"; username = "operator"; role = "auditor"; changed = true }

-- The reasons of the events of an assignment are codes.
assignment_codes :
    IsCode "role_assignment_repository_unavailable"
    × IsCode "role_assigned"
    × IsCode "role_already_assigned"
assignment_codes = (lookup_codes.5, lookup_codes.6, lookup_codes.7)

abbrev contract : KeepsContract world.trail
contract = (inr refl, tt)

change_user_role-answered_example :
    let (r, w') =
      change_user_role parse_uuid post_request same users role_assigned
        "role_assignment_repository_unavailable" "role_assigned" "role_already_assigned"
        (assign_role same repository)
        "operator"
        "auditor"
        admin
        world in
    (r
      ≡ answered
          (ok stored)
          (role_of (normalize_role_name same "auditor"))
          (λ target role. (assign_role same repository target.id role 0).0))
    × (w'.roles
        ≡ roles_after
            (ok stored)
            (normalize_role_name same "auditor")
            (λ target role. (assign_role same repository target.id role 0).1)
            0)
    × ((target : StoredUser) (role : String) (changed : Bool)
        → ok stored ≡ ok target
        → normalize_role_name same "auditor" ≡ ok role
        → (assign_role same repository target.id role 0).0 ≡ ok changed
        → newest w'.trail.log
          ≡ some (
              event_about role_assigned success "request-1" (
                change_details post_request "role_assigned" "role_already_assigned" target role
                  "user-1" changed)))
change_user_role-answered_example =
    change_user_role-answered parse_uuid post_request trusted_post same users role_assigned
      "role_assignment_repository_unavailable" "role_assigned" "role_already_assigned"
      (assign_role same repository) "operator" "auditor" admin world contract assignment_codes.0
      assignment_codes.1 assignment_codes.2

assigned_there :
    (change_user_role parse_uuid post_request same users role_assigned
      "role_assignment_repository_unavailable" "role_assigned" "role_already_assigned"
      (assign_role same repository)
      "operator"
      "auditor"
      admin
      world).0
    ≡ ok outcome
unfolding assign_role normalize_role_name is_role_name is_role_char is_lower is_digit
assigned_there =
    (change_user_role-answered parse_uuid post_request trusted_post same users role_assigned
      "role_assignment_repository_unavailable" "role_assigned" "role_already_assigned"
      (assign_role same repository) "operator" "auditor" admin world contract assignment_codes.0
      assignment_codes.1 assignment_codes.2).0

assigned_once :
    (assign_user_role parse_uuid post_request same users repository "operator" "auditor" admin
      world).0
    ≡ ok outcome
unfolding assign_user_role permission_dependency require_permission has_permission
    normalize_permission_code code_from is_lower is_digit
assigned_once = assigned_there

assign_user_role-authorized_example :
    (granted : String) × (normalize_permission_code same manage ≡ ok granted)
    × ((repository.has_permission "user-1" granted 0).0 ≡ ok true)
assign_user_role-authorized_example =
    assign_user_role-authorized parse_uuid post_request same users repository "operator" "auditor"
      admin outcome world assigned_once
