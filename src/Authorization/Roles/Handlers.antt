-- ===== src/Authorization/Roles/Handlers.antt =====
-- The handlers that change the roles of a user, as a whole.
use secure_api_gateway.Prelude.{
  ◌≡◌, inl, inr, Bool, true, Option, some, String, arith, refl, sym, ◌∙◌,
}
use secure_api_gateway.Http.{
  role_not_found_error, role_name_policy_error, Result, Result-cases, ok, raised, Action, bind-ok,
  ◌>>=◌,
}
use secure_api_gateway.Audit.{Request, AuditEventType, success, role_assigned, role_removed}
use secure_api_gateway.Audit.Recording.{KeepsContract, newest}
use secure_api_gateway.Audit.Trusted.{IsTrusted, event_about, IsCode}
use secure_api_gateway.World.{Services, World}
use secure_api_gateway.Auth.{UserPublic}
use secure_api_gateway.Auth.Service.{StoredUser, UserRepository}
use secure_api_gateway.Authorization.{
  AuthorizationRepository, normalize_permission_code, permission_dependency,
}
use secure_api_gateway.Authorization.Enforcement.{only_granted_pass}
use secure_api_gateway.Authorization.RoleNames.{normalize_role_name, role-IsCode}
use secure_api_gateway.Authorization.Roles.{
  RoleMutationResponse, role_not_found, not_a_role, get_target_user, change_user_role, assign_role,
  assign_user_role, remove_role, remove_user_role,
}
use secure_api_gateway.Authorization.Roles.Changes.{
  manage, target_of, changed_of, lookup_codes, target_found, changing_answer, change_details,
}

-- What the normalization of the role's name comes to.
abbrev pub role_of : Result String → Result String
role_of (raised role_not_found_error) = raised role_not_found
role_of (raised role_name_policy_error) = raised role_not_found
role_of r = r

-- What the answers of the repositories come to.
abbrev pub answered :
    Result StoredUser
    → Result String
    → (StoredUser → String → Result Bool)
    → Result RoleMutationResponse
answered (raised e) role changed = raised e
answered (ok target) (raised e) changed = raised e
answered (ok target) (ok role) changed = changed_of target role (changed target role)

-- The roles after a request: only one whose user and role are known reaches the repository.
abbrev pub roles_after :
    {Roles : Type 0}
    → Result StoredUser
    → Result String
    → (StoredUser → String → Roles)
    → Roles
    → Roles
roles_after (ok target) (ok role) changed before = changed target role
roles_after (ok target) (raised e) changed before = before
roles_after (raised e) role changed before = before

module _ {s : Services} (parse_uuid : String → Option String) (request : Request)
    (trusted : IsTrusted parse_uuid request) (normalize : String → String)
    (users : UserRepository s.Users) (event_type : AuditEventType)
    (failed_reason changed_reason unchanged_reason : String)
    (change : String → String → Action s.Roles Bool) where
  -- A trusted request to change a role is answered as the user repository, the policy for names and
  -- the role repository answer: 404 for an unknown user, a bad name or an unknown role, 503 when a
  -- backend fails, whether the role changed when the repository says so, and otherwise the
  -- exception that a repository raised. Whatever the answer, the roles are left as the role
  -- repository leaves them if it was called, for a known user and a name that has a normal form,
  -- and unchanged if not. A change that it reports is the newest line of the log; the audit
  -- repository keeps its contract and the reasons are codes.
  pub change_user_role-answered :
      (username role_name : String) (actor : UserPublic) (w : World s)
      → KeepsContract w.trail
      → IsCode failed_reason
      → IsCode changed_reason
      → IsCode unchanged_reason
      → let (r, w') =
          change_user_role parse_uuid request normalize users event_type failed_reason
            changed_reason unchanged_reason change username role_name actor w in
        (r
          ≡ answered
              (target_of (users.get_by_username username w.users).0)
              (role_of (normalize_role_name normalize role_name))
              (λ target role. (change target.id role w.roles).0))
        × (w'.roles
            ≡ roles_after
                (target_of (users.get_by_username username w.users).0)
                (normalize_role_name normalize role_name)
                (λ target role. (change target.id role w.roles).1)
                w.roles)
        × ((target : StoredUser) (role : String) (changed : Bool)
            → target_of (users.get_by_username username w.users).0 ≡ ok target
            → normalize_role_name normalize role_name ≡ ok role
            → (change target.id role w.roles).0 ≡ ok changed
            → newest w'.trail.log
              ≡ some (
                  event_about event_type success trusted.uuid (
                    change_details request changed_reason unchanged_reason target role actor.id
                      changed)))
  unfolding change_user_role not_a_role
  change_user_role-answered username role_name actor w h c d e =
      let (found, kept, same) =
        target_found parse_uuid request trusted users username actor.id manage w h lookup_codes.1 in
      let looked = get_target_user parse_uuid request users username actor.id manage w in
      elim (Result-cases looked.0) [
        | inr (x, a) ↦
            let t = sym found ∙ a in
            (
              rw (a, ◌>>=◌, t) refl,
              rw (a, ◌>>=◌, t) same,
              λ target role changed t' b' c'. ground (arith, t, t'),
            )
        | inl (target, a) ↦ elim (Result-cases (normalize_role_name normalize role_name)) [
          | inr (x, b) ↦ (
            ground (arith, a, b, sym found ∙ a),
            ground (arith, a, b, sym found ∙ a, same),
            λ target' role changed t' b' c'. ground (arith, b, b'),
          )
          | inl (role, b) ↦
              let (r, roles, line) =
                changing_answer parse_uuid request trusted users normalize event_type failed_reason
                  changed_reason unchanged_reason change target role actor.id looked.1 kept c d e
                  (role-IsCode normalize role_name role b) in
              let t = sym found ∙ a in
              (
                ground (arith, a, b, t, r, same),
                ground (arith, a, b, t, roles, same),
                λ target' role' changed t' b' c'.
                    ground (arith, a, b, t, t', b', c', same, line changed),
              )
        ]
      ]

module _ {s : Services} (parse_uuid : String → Option String) (request : Request)
    (normalize : String → String) (users : UserRepository s.Users)
    (repository : AuthorizationRepository s.Roles) where
  -- A request to assign a role succeeds only if the repository grants its user the permission to
  -- manage roles, whatever fails on the way.
  pub assign_user_role-authorized :
      (username role_name : String) (current_user : UserPublic) (response : RoleMutationResponse)
      (w : World s)
      → (assign_user_role parse_uuid request normalize users repository username role_name
          current_user w).0
        ≡ ok response
      → (granted : String) × (normalize_permission_code normalize manage ≡ ok granted)
        × ((repository.has_permission current_user.id granted w.roles).0 ≡ ok true)
  unfolding assign_user_role
  assign_user_role-authorized username role_name current_user response w h =
      let (actor, e, _, _) =
        bind-ok (permission_dependency parse_uuid request normalize repository manage current_user)
          (λ actor.
            change_user_role parse_uuid request normalize users role_assigned
              "role_assignment_repository_unavailable" "role_assigned" "role_already_assigned"
              (assign_role normalize repository) username role_name actor)
          w response h in
      let (_, granted, normal, answer) =
        only_granted_pass parse_uuid request normalize repository manage current_user actor w e in
      (granted, normal, answer)

  -- So it is for a request to remove a role.
  pub remove_user_role-authorized :
      (username role_name : String) (current_user : UserPublic) (response : RoleMutationResponse)
      (w : World s)
      → (remove_user_role parse_uuid request normalize users repository username role_name
          current_user w).0
        ≡ ok response
      → (granted : String) × (normalize_permission_code normalize manage ≡ ok granted)
        × ((repository.has_permission current_user.id granted w.roles).0 ≡ ok true)
  unfolding remove_user_role
  remove_user_role-authorized username role_name current_user response w h =
      let (actor, e, _, _) =
        bind-ok (permission_dependency parse_uuid request normalize repository manage current_user)
          (λ actor.
            change_user_role parse_uuid request normalize users role_removed
              "role_removal_repository_unavailable" "role_removed" "role_not_assigned"
              (remove_role normalize repository) username role_name actor)
          w response h in
      let (_, granted, normal, answer) =
        only_granted_pass parse_uuid request normalize repository manage current_user actor w e in
      (granted, normal, answer)
