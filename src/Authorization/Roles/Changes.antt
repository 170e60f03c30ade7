-- ===== src/Authorization/Roles/Changes.antt =====
-- What the handlers that change the roles of a user answer, and what they record.
use secure_api_gateway.Prelude.{
  ℕ, ◌≡◌, inl, inr, Bool, true, false, Option, none, some, String, if◌then◌else◌, arith, refl,
}
use secure_api_gateway.Prelude.Texts.{
  text, is_stripped, starts_with_space, ends_with_space, is_space,
}
use secure_api_gateway.Http.{
  user_repository_backend_error, username_policy_error, role_not_found_error,
  role_name_policy_error, authorization_repository_backend_error, Result, Result-cases, ok, raised,
  Action, pure, try_except, ◌>>=◌,
}
use secure_api_gateway.Audit.{
  Request, AuditEventType, authentication_backend_unavailable, authorization_backend_unavailable,
  success, unavailable, status_code_valid, optional_code_valid, Details, trusted_event,
}
use secure_api_gateway.Audit.Recording.{KeepsContract, record-made, newest}
use secure_api_gateway.Audit.Trusted.{
  IsTrusted, others_valid, made_about, event_about, IsCode, none_valid,
}
use secure_api_gateway.World.{Services, World, on_roles, about}
use secure_api_gateway.Auth.Service.{StoredUser, UserRepository}
use secure_api_gateway.Auth.Router.{authentication_database_unavailable}
use secure_api_gateway.Authorization.{authorization_unavailable_response, event}
use secure_api_gateway.Authorization.Roles.{
  RoleMutationResponse, user_not_found, role_not_found, found, not_a_role, about_role,
  lookup_failed, get_target_user, repository_failed, change_failed,
}

abbrev pub manage : String
manage = "authorization:roles:manage"

-- What the lookup of the target comes to.
abbrev pub target_of : Result (Option StoredUser) → Result StoredUser
target_of (ok none) = raised user_not_found
target_of (ok (some user)) = ok user
target_of (raised user_repository_backend_error) = raised authentication_database_unavailable
target_of (raised username_policy_error) = raised user_not_found
target_of (raised e) = raised e

-- What an answer of the repository comes to, for a user and the normal form of a role's name.
abbrev pub changed_of : StoredUser → String → Result Bool → Result RoleMutationResponse
changed_of target role (ok changed) =
    ok (record { user_id = target.id; username = target.username; role = role; changed = changed })
changed_of target role (raised authorization_repository_backend_error) =
    raised authorization_unavailable_response
changed_of target role (raised role_not_found_error) = raised role_not_found
changed_of target role (raised role_name_policy_error) = raised role_not_found
changed_of target role (raised e) = raised e

-- The permission of an event is a code, if there is one.
pub lookup_codes :
    IsCode "authorization_target_lookup_unavailable"
    × IsCode manage
    × IsCode "authorization:roles:read"
    × IsCode "role_list_repository_unavailable"
    × IsCode "roles_read"
    × IsCode "role_assignment_repository_unavailable"
    × IsCode "role_assigned"
    × IsCode "role_already_assigned"
unfolding optional_code_valid is_stripped starts_with_space ends_with_space is_space
lookup_codes = (refl, refl, refl, refl, refl, refl, refl, refl)

-- The fields of the event of a change that the repository made.
abbrev pub change_details :
    Request → String → String → StoredUser → String → String → Bool → Details
change_details request changed_reason unchanged_reason target role actor_id changed =
    about_role request actor_id manage target role 200
      (if changed then changed_reason else unchanged_reason)

described :
    (request : Request) (target : StoredUser) (role actor_id reason : String) (status : ℕ)
    → status_code_valid (some status) ≡ true
    → IsCode role
    → IsCode reason
    → others_valid (about_role request actor_id manage target role status reason) ≡ true
unfolding others_valid
described request target role actor_id reason status h c d =
    ground (arith, none_valid 160, h, c, d, lookup_codes.1)

made_change :
    {parse_uuid : String → Option String} {request : Request}
    (trusted : IsTrusted parse_uuid request) (event_type : AuditEventType)
    (changed_reason unchanged_reason : String) (target : StoredUser) (role actor_id : String)
    (changed : Bool)
    → IsCode role
    → IsCode changed_reason
    → IsCode unchanged_reason
    → let d = change_details request changed_reason unchanged_reason target role actor_id changed in
      trusted_event parse_uuid request event_type success d
      ≡ ok (event_about event_type success trusted.uuid d)
unfolding status_code_valid
made_change {parse_uuid} {request} trusted event_type cr ur target role actor_id true code d e =
    made_about trusted event_type success (change_details request cr ur target role actor_id true)
      refl (described request target role actor_id cr 200 refl code d)
made_change {parse_uuid} {request} trusted event_type cr ur target role actor_id false code d e =
    made_about trusted event_type success (change_details request cr ur target role actor_id false)
      refl (described request target role actor_id ur 200 refl code e)

module _ {s : Services} (parse_uuid : String → Option String) (request : Request)
    (trusted : IsTrusted parse_uuid request) (users : UserRepository s.Users) where
  -- The target is looked up as its repository answers; nothing but the users and the trail changes.
  pub target_found :
      (username actor_id permission : String) (w : World s)
      → KeepsContract w.trail
      → IsCode permission
      → let (r, w') = get_target_user parse_uuid request users username actor_id permission w in
        (r ≡ target_of (users.get_by_username username w.users).0)
        × KeepsContract w'.trail
        × (w'.roles ≡ w.roles)
  unfolding get_target_user lookup_failed found event others_valid status_code_valid
  target_found username actor_id permission w h c =
      let d = record (about request 503 "authorization_target_lookup_unavailable") {
        actor_user_id = some actor_id;
        permission_code = some (text permission);
      } in
      let m =
        made_about trusted authentication_backend_unavailable unavailable d refl
          (ground (arith, none_valid 160, c, lookup_codes.0)) in
      ground (
        arith,
        m,
        h,
        record-made parse_uuid request authentication_backend_unavailable unavailable d w.trail h,
      )

  module _ (normalize : String → String) (event_type : AuditEventType)
      (failed_reason changed_reason unchanged_reason : String)
      (change : String → String → Action s.Roles Bool) where
    -- The change of the roles itself, once the user and the role are known.
    abbrev pub changing : StoredUser → String → String → Action (World s) RoleMutationResponse
    changing target role actor_id = do
      changed ← try_except (on_roles (change target.id role)) (
          change_failed parse_uuid request
            (about_role request actor_id manage target role 503 failed_reason))
      _ ←
          event parse_uuid request event_type success
            (change_details request changed_reason unchanged_reason target role actor_id changed)
      pure (record {
        user_id = target.id;
        username = target.username;
        role = role;
        changed = changed;
      })

    pub changing_answer :
        (target : StoredUser) (role actor_id : String) (w : World s)
        → KeepsContract w.trail
        → IsCode failed_reason
        → IsCode changed_reason
        → IsCode unchanged_reason
        → IsCode role
        → let (r, w') = changing target role actor_id w in
          (r ≡ changed_of target role (change target.id role w.roles).0)
          × (w'.roles ≡ (change target.id role w.roles).1)
          × ((changed : Bool)
              → (change target.id role w.roles).0 ≡ ok changed
              → newest w'.trail.log
                ≡ some (
                    event_about event_type success trusted.uuid (
                      change_details request changed_reason unchanged_reason target role actor_id
                        changed)))
    unfolding change_failed repository_failed not_a_role event status_code_valid
    changing_answer target role actor_id w h c d e code =
        let failed = about_role request actor_id manage target role 503 failed_reason in
        let m₁ =
          made_about trusted authorization_backend_unavailable unavailable failed refl
            (described request target role actor_id failed_reason 503 refl code c) in
        let r₁ =
          record-made parse_uuid request authorization_backend_unavailable unavailable failed
            w.trail h in
        let done : Bool → Details = λ changed.
          change_details request changed_reason unchanged_reason target role actor_id changed in
        elim (Result-cases (change target.id role w.roles).0) [
          | inl (changed, a) ↦
              let r₂ = record-made parse_uuid request event_type success (done changed) w.trail h in
              let m₂ =
                made_change trusted event_type changed_reason unchanged_reason target role actor_id
                  changed code d e in
              let line = r₂.2 _ m₂ in
              (
                ground (arith, a, m₂, r₂.0),
                ground (arith, a, m₂, r₂.0),
                λ changed' a'. ground (arith, a, a', line, m₂, r₂.0),
              )
          | inr (x, a) ↦ ground (arith, a, m₁, r₁.0)
        ]
