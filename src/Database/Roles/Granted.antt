-- ===== src/Database/Roles/Granted.antt =====
-- What users may do after their roles change.
use secure_api_gateway.Prelude.{
  ◌≡◌, ◌≢◌, ◌⊎◌, ◌↔◌, inl, inr, Bool, true, String, List, arith, refl, ap, sym, ◌∙◌,
}
use secure_api_gateway.Prelude.Sorting.{has}
use secure_api_gateway.Http.{ok, raised, try_except, authorization_repository_backend_error}
use secure_api_gateway.Authorization.{normalize_permission_code}
use secure_api_gateway.Database.{
  Tables, has_pair, Postgres, Database, Session, frozenset, select, in_session, translated,
}
use secure_api_gateway.Database.Sessions.{select-cases}
use secure_api_gateway.Database.Roles.{
  permission_exists, select_permission_codes, has_permission, get_permission_codes_for_user,
  assign_role, remove_role,
}
use secure_api_gateway.Database.Roles.Lookups.{IsTarget}
use secure_api_gateway.Database.Roles.Assigned.{assign_role-IsAssigned, remove_role-IsRemoved}
use secure_api_gateway.Database.Roles.Queries.{
  grants, has-frozenset, select_permission_codes-exists, assigned-exists, removed-exists,
}

module _ (pg : Postgres) (normalize : String → String) where
  -- A query answers what its statement selects, or reports that the backend failed; it changes
  -- nothing.
  pub query_cases :
      {A : Type 0} (f : Tables → A) (d : Database pg)
      → let (r, d') = try_except (in_session (select {pg = pg} f)) translated d in
        (d'.store ≡ d.store)
        × ((r ≡ ok (f (pg.tables d.store))) ⊎ (r ≡ raised authorization_repository_backend_error))
  unfolding in_session translated
  query_cases f d =
      let begun : Session pg = record {
        committed = d.store;
        working = d.store;
        faults = d.faults;
      } in
      let (same, _, answer) = select-cases f begun in
      elim answer [
        | inl e ↦ rw (try_except, e) (same, inl refl)
        | inr e ↦ rw (try_except, e) (same, inr refl)
      ]

  -- has_permission answers for the normal form of the code.
  pub permission_answer :
      (user_id code normal : String) (answer : Bool) (d : Database pg)
      → normalize_permission_code normalize code ≡ ok normal
      → (has_permission pg normalize user_id code d).0 ≡ ok answer
      → answer ≡ permission_exists user_id normal (pg.tables d.store)
  unfolding has_permission
  permission_answer user_id code normal answer d n h =
      ground (arith, n, h, query_cases (permission_exists user_id normal) d)

  -- What has_permission answers is whether the code is among those that
  -- get_permission_codes_for_user returned before it, as far as no fault kept either from
  -- answering and the code has a normal form.
  pub has_permission-codes :
      (user_id code normal : String) (codes : List String) (answer : Bool) (d : Database pg)
      → normalize_permission_code normalize code ≡ ok normal
      → (get_permission_codes_for_user pg normalize user_id d).0 ≡ ok codes
      → (has_permission pg normalize user_id code
          (get_permission_codes_for_user pg normalize user_id d).1).0
        ≡ ok answer
      → answer ≡ has normal codes
  unfolding get_permission_codes_for_user
  has_permission-codes user_id code normal codes answer d n h k =
      let listed : Tables → List String = λ t. frozenset (select_permission_codes user_id t) in
      let (same, answered) = query_cases listed d in
      let after = (get_permission_codes_for_user pg normalize user_id d).1 in
      let told = permission_answer user_id code normal answer after n k in
      let answers : codes ≡ listed (pg.tables d.store) = ground (arith, answered, h) in
      told
      ∙ ap (λ s. permission_exists user_id normal (pg.tables s)) same
      ∙ sym (
          ap (has normal) answers
          ∙ has-frozenset normal (select_permission_codes user_id (pg.tables d.store))
          ∙ select_permission_codes-exists user_id normal (pg.tables d.store))

  -- After an assignment that returned, a user has a permission, as far as has_permission answers,
  -- exactly if the role grants it and the user is the one it was assigned to, or the user had the
  -- permission before.
  pub assign_role-grants :
      (user_id name v code normal : String) (changed answer : Bool) (d : Database pg)
      → (assign_role pg normalize user_id name d).0 ≡ ok changed
      → normalize_permission_code normalize code ≡ ok normal
      → (has_permission pg normalize v code (assign_role pg normalize user_id name d).1).0
        ≡ ok answer
      → (role_id : String) × IsTarget normalize user_id name role_id (pg.tables d.store)
        × (answer ≡ true ↔ (
            ((v ≡ user_id) × (grants (pg.tables d.store) role_id normal ≡ true))
            ⊎ (permission_exists v normal (pg.tables d.store) ≡ true)))
  assign_role-grants user_id name v code normal changed answer d h n k =
      elim (assign_role-IsAssigned pg normalize user_id name d) [
        | inr (e, h', _, _) ↦ ground (arith, h, h')
        | inl (role_id, target, _, assigned) ↦
            let d' = (assign_role pg normalize user_id name d).1 in
            let told = permission_answer v code normal answer d' n k in
            (
              role_id,
              target,
              rw told (
                  assigned-exists user_id role_id v normal (pg.tables d.store) (pg.tables d'.store)
                    assigned),
            )
      ]

  -- After a removal that returned, the user has a permission, as far as has_permission answers,
  -- exactly if another role of the user grants it.
  pub remove_role-revokes :
      (user_id name code normal : String) (changed answer : Bool) (d : Database pg)
      → (remove_role pg normalize user_id name d).0 ≡ ok changed
      → normalize_permission_code normalize code ≡ ok normal
      → (has_permission pg normalize user_id code (remove_role pg normalize user_id name d).1).0
        ≡ ok answer
      → (role_id : String) × IsTarget normalize user_id name role_id (pg.tables d.store)
        × (answer ≡ true ↔ (
            (role : String) × (role ≢ role_id)
            × (has_pair user_id role (pg.tables d.store).user_roles ≡ true)
            × (grants (pg.tables d.store) role normal ≡ true)))
  remove_role-revokes user_id name code normal changed answer d h n k =
      elim (remove_role-IsRemoved pg normalize user_id name d) [
        | inr (e, h', _, _) ↦ ground (arith, h, h')
        | inl (role_id, target, _, removed) ↦
            let d' = (remove_role pg normalize user_id name d).1 in
            let told = permission_answer user_id code normal answer d' n k in
            (
              role_id,
              target,
              rw told (
                  removed-exists user_id role_id normal (pg.tables d.store) (pg.tables d'.store)
                    removed),
            )
      ]
