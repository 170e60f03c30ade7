-- ===== src/Authorization/Roles/Reading.antt =====
-- What the handler that lists the roles of a user answers.
use secure_api_gateway.Prelude.{
  ℕ, ◌≡◌, inl, inr, true, Option, some, String, List, arith, refl, sym, ◌∙◌,
}
use secure_api_gateway.Prelude.Sorting.{sorted}
use secure_api_gateway.Http.{
  authorization_repository_backend_error, Result, Result-cases, ok, raised,
}
use secure_api_gateway.Audit.{
  Request, authorization_backend_unavailable, unavailable, success, role_list_read,
  status_code_valid,
}
use secure_api_gateway.Audit.Recording.{KeepsContract, record-made}
use secure_api_gateway.Audit.Trusted.{IsTrusted, others_valid, made_about, IsCode, none_valid}
use secure_api_gateway.World.{Services, World}
use secure_api_gateway.Auth.{UserPublic}
use secure_api_gateway.Auth.Service.{StoredUser, UserRepository}
use secure_api_gateway.Authorization.{
  AuthorizationRepository, authorization_unavailable_response, event,
}
use secure_api_gateway.Authorization.Roles.{
  UserRolesResponse, about_target, get_target_user, repository_failed, list_roles,
}
use secure_api_gateway.Authorization.Roles.Changes.{target_of, lookup_codes, target_found}

-- What an answer of the repository comes to: the roles in order.
abbrev pub listed_of : StoredUser → Result (List String) → Result UserRolesResponse
listed_of target (ok roles) =
    ok (record { user_id = target.id; username = target.username; roles = sorted roles })
listed_of target (raised authorization_repository_backend_error) =
    raised authorization_unavailable_response
listed_of target (raised e) = raised e

abbrev pub listing :
    Result StoredUser → (StoredUser → Result (List String)) → Result UserRolesResponse
listing (raised e) roles = raised e
listing (ok target) roles = listed_of target (roles target)

described :
    (request : Request) (target : StoredUser) (actor_id reason : String) (status : ℕ)
    → status_code_valid (some status) ≡ true
    → IsCode reason
    → others_valid (about_target request actor_id "authorization:roles:read" target status reason)
      ≡ true
unfolding others_valid
described request target actor_id reason status h d =
    ground (arith, none_valid 160, h, d, lookup_codes.2)

module _ {s : Services} (parse_uuid : String → Option String) (request : Request)
    (trusted : IsTrusted parse_uuid request) (normalize : String → String)
    (users : UserRepository s.Users) (repository : AuthorizationRepository s.Roles) where
  -- A trusted request for the roles of a user is answered as the user repository and the role
  -- repository answer: 404 for an unknown user, 503 when a backend fails, and otherwise the roles
  -- of the user; the audit repository keeps its contract.
  pub list_roles-listing :
      (username : String) (actor : UserPublic) (w : World s)
      → KeepsContract w.trail
      → (list_roles parse_uuid request normalize users repository username actor w).0
        ≡ listing
            (target_of (users.get_by_username username w.users).0)
            (λ target. (repository.get_role_names_for_user target.id w.roles).0)
  unfolding list_roles repository_failed event status_code_valid
  list_roles-listing username actor w h =
      let read : String = "authorization:roles:read" in
      let (found, kept, same) =
        target_found parse_uuid request trusted users username actor.id read w h lookup_codes.2 in
      let looked = get_target_user parse_uuid request users username actor.id read w in
      elim (Result-cases looked.0) [
        | inr (x, a) ↦ ground (arith, a, sym found ∙ a)
        | inl (target, a) ↦
            let failed =
              about_target request actor.id read target 503 "role_list_repository_unavailable" in
            let done = about_target request actor.id read target 200 "roles_read" in
            let m₁ = made_about trusted authorization_backend_unavailable unavailable failed refl (
              described request target actor.id "role_list_repository_unavailable" 503 refl
                lookup_codes.3) in
            let m₂ =
              made_about trusted role_list_read success done refl
                (described request target actor.id "roles_read" 200 refl lookup_codes.4) in
            let r₁ =
              record-made parse_uuid request authorization_backend_unavailable unavailable failed
                looked.1.trail kept in
            let r₂ =
              record-made parse_uuid request role_list_read success done looked.1.trail kept in
            ground (arith, a, sym found ∙ a, same, m₁, m₂, r₁.0, r₂.0)
      ]
