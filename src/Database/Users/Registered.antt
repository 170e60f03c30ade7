-- ===== src/Database/Users/Registered.antt =====
-- What a lookup and the authorization make of a user that was created.
use secure_api_gateway.Prelude.{
  ◌≡◌, ◌⊎◌, ◌↔◌, inl, inr, Bool, true, false, some, String, [], ◌∷◌, arith, refl, ◌∙◌, ap, subst,
}
use secure_api_gateway.Prelude.Sorting.{has}
use secure_api_gateway.Http.{ok, raised, user_repository_backend_error, try_except, ◌>>=◌}
use secure_api_gateway.Auth.Service.{StoredUser}
use secure_api_gateway.Auth.Users.{normalize_username}
use secure_api_gateway.Authorization.{normalize_permission_code}
use secure_api_gateway.Database.{
  Tables, has_pair, SameButAssignments, Postgres, Database, Session, in_session,
}
use secure_api_gateway.Database.Sessions.{execute-cases}
use secure_api_gateway.Database.Roles.{permission_exists, has_permission, scalar_one_or_none}
use secure_api_gateway.Database.Roles.Assigned.{IsAssigned}
use secure_api_gateway.Database.Roles.Queries.{grants, assigned-exists}
use secure_api_gateway.Database.Roles.Granted.{permission_answer}
use secure_api_gateway.Database.Users.{
  UserQueries, default_role_id, backend_error, create_user, get_by_username, select_user,
}
use secure_api_gateway.Database.Users.Created.{IsCreated, create_user-IsCreated}
use text.Mathlib.TextEquality.{eq_iff}

module _ (pg : Postgres) (queries : UserQueries pg) where
  open queries use {users_named}

  -- A lookup by a name that one user has finds that user, or reports that the backend failed.
  lookup_found :
      (name : String) (u : StoredUser) (d : Database pg)
      → users_named name d.store ≡ u ∷ []
      → let r = (try_except (in_session (select_user pg queries name)) backend_error d).0 in
        (r ≡ ok (some u)) ⊎ (r ≡ raised user_repository_backend_error)
  unfolding in_session select_user scalar_one_or_none backend_error
  lookup_found name u d h =
      let begun : Session pg = record {
        committed = d.store;
        working = d.store;
        faults = d.faults;
      } in
      let (_, answer) = execute-cases (λ s. (users_named name s, s)) begun in
      elim answer [
        | inl (e, _) ↦ rw (try_except, ◌>>=◌, e, h) (inl refl)
        | inr e ↦ rw (try_except, ◌>>=◌, e) (inr refl)
      ]

  -- What was assigned, as far as the authorization reads it.
  IsCreated-exists :
      (u : StoredUser) (before after : pg.Store) (v code : String)
      → IsCreated pg queries u before after
      → permission_exists v code (pg.tables after) ≡ true ↔ (
          ((v ≡ u.id) × (grants (pg.tables before) default_role_id code ≡ true))
          ⊎ (permission_exists v code (pg.tables before) ≡ true))
  unfolding permission_exists
  IsCreated-exists u before after v code c =
      let t : Tables = record (pg.tables before) { users = (pg.tables after).users } in
      let others : SameButAssignments t (pg.tables after) = record {
        users = refl;
        roles = c.roles;
        permissions = c.permissions;
        role_permissions = c.role_permissions;
      } in
      let assigned : IsAssigned u.id default_role_id t (pg.tables after) = record {
        others = others;
        pairs = λ w q. ap (has_pair w q) c.assigned;
      } in
      assigned-exists u.id default_role_id v code t (pg.tables after) assigned

  module _ (normalize : String → String) (new_id username hash : String) (u : StoredUser)
      (d : Database pg) where
    abbrev after : Database pg
    after = (create_user pg queries normalize new_id username hash d).1

    returned :
        has new_id (pg.tables d.store).users ≡ false
        → (create_user pg queries normalize new_id username hash d).0 ≡ ok u
        → IsCreated pg queries u d.store after.store
    returned fresh h =
        elim (create_user-IsCreated pg queries normalize new_id username hash d fresh) [
          | inr (x, e, _, _) ↦ ground (arith, h, e)
          | inl (v, e, _, _, created) ↦
              let same : v ≡ u = ground (arith, h, e) in
              subst (λ w. IsCreated pg queries w d.store after.store) same created
        ]

    -- After a creation that returned a user, a lookup by any spelling of its name finds that user,
    -- unless the backend fails. The identifier is that of no user before.
    pub create-get :
        (spelling : String)
        → has new_id (pg.tables d.store).users ≡ false
        → (create_user pg queries normalize new_id username hash d).0 ≡ ok u
        → normalize_username normalize spelling ≡ ok u.username
        → (get_by_username pg queries normalize new_id spelling
              (create_user pg queries normalize new_id username hash d).1).0
            ≡ ok (some u)
          ⊎ ((get_by_username pg queries normalize new_id spelling
                (create_user pg queries normalize new_id username hash d).1).0
              ≡ raised user_repository_backend_error)
    unfolding get_by_username
    create-get spelling fresh h n =
        let created = returned fresh h in
        let only : users_named u.username after.store ≡ u ∷ [] =
          created.named u.username ∙ ground (arith, eq_iff u.username u.username) in
        let found = lookup_found u.username u after only in rw (n, ◌>>=◌) found

    -- After a creation that returned a user, a user has a permission, as far as has_permission
    -- answers, exactly if the default role grants it and the user is the new one, or the user had
    -- the permission before. The identifier is that of no user before.
    pub create-permissions :
        (v code normal : String) (answer : Bool)
        → has new_id (pg.tables d.store).users ≡ false
        → (create_user pg queries normalize new_id username hash d).0 ≡ ok u
        → normalize_permission_code normalize code ≡ ok normal
        → (has_permission pg normalize v code
            (create_user pg queries normalize new_id username hash d).1).0
          ≡ ok answer
        → answer ≡ true ↔ (
            ((v ≡ u.id) × (grants (pg.tables d.store) default_role_id normal ≡ true))
            ⊎ (permission_exists v normal (pg.tables d.store) ≡ true))
    create-permissions v code normal answer fresh h n k =
        let told = permission_answer pg normalize v code normal answer after n k in
        rw told (IsCreated-exists u d.store after.store v normal (returned fresh h))
