-- ===== src/Database/Users/Created.antt =====
-- What create_user promises, and what other repositories make of a user that it created.
use secure_api_gateway.Prelude.{
  ◌≡◌, ◌⊎◌, inl, inr, true, false, String, List, [], ◌∷◌, arith, refl, if◌then◌else◌, Bool-cases,
  sym, ◌∙◌, ap, subst,
}
use secure_api_gateway.Prelude.Sorting.{has}
use secure_api_gateway.Prelude.Texts.{strip_string, is_empty}
use secure_api_gateway.Http.{
  Exn, Result, Result-cases, ok, raised, user_already_exists_error, user_repository_backend_error,
  username_policy_error, value_error,
}
use secure_api_gateway.Auth.Service.{StoredUser}
use secure_api_gateway.Auth.Users.{normalize_username}
use secure_api_gateway.Database.{Postgres, Database}
use secure_api_gateway.Database.Users.{UserQueries, default_role_id, create_user, add_new}
use secure_api_gateway.Database.Users.Creation.{IsFailure, taken, backend, Inserted, new_cases}
use text.Mathlib.Text.{◌==◌ as str_eq}
use text.Mathlib.TextEquality.{eq_iff}

-- Nothing but the new user and its role was added.
pub record IsCreated (pg : Postgres) (queries : UserQueries pg) (u : StoredUser)
    (before after : pg.Store) : Type 0 where
  pub free : queries.users_named u.username before ≡ []
  pub named :
      (name : String)
      → queries.users_named name after
        ≡ (if str_eq name u.username then u ∷ [] else queries.users_named name before)
  pub assigned :
      (pg.tables after).user_roles ≡ (u.id, default_role_id) ∷ (pg.tables before).user_roles
  pub roles : (pg.tables after).roles ≡ (pg.tables before).roles
  pub permissions : (pg.tables after).permissions ≡ (pg.tables before).permissions
  pub role_permissions : (pg.tables after).role_permissions ≡ (pg.tables before).role_permissions

-- The exceptions of a creation, each with what it tells.
pub data IsReported (taken_name : Type 0) : Exn → Type 0 where
  bad_name : IsReported taken_name username_policy_error
  no_hash : IsReported taken_name value_error
  already_registered : taken_name → IsReported taken_name user_already_exists_error
  unavailable : IsReported taken_name user_repository_backend_error

module _ (pg : Postgres) (queries : UserQueries pg) where
  open queries use {
    insert_user, users_named, insert-unique, insert-violation, insert-named, insert-role,
    insert-others,
  }

  Inserted-IsCreated :
      (u : StoredUser) (before after : pg.Store)
      → Inserted pg queries u before after
      → IsCreated pg queries u before after
  Inserted-IsCreated u before after (none_violated, e) =
      let free = insert-unique u default_role_id before none_violated in
      let (same₁, same₂, same₃) = insert-others u default_role_id before none_violated in
      rw e (record {
        free = free;
        named = λ name.
            insert-named u default_role_id name before none_violated
            ∙ ground (arith, free, eq_iff name u.username, ap (λ n. users_named n before));
        assigned = insert-role u default_role_id before none_violated;
        roles = same₁;
        permissions = same₂;
        role_permissions = same₃;
      })

  name_only :
      (normalize : String → String) (username : String) (x : Exn)
      → normalize_username normalize username ≡ raised x
      → x ≡ username_policy_error
  unfolding normalize_username
  name_only normalize username x h = ground (arith, h)

  module _ (normalize : String → String) (new_id username hash : String) where
    -- The record of the new user, with its name in normal form.
    abbrev pub new_user : String → StoredUser
    new_user name = record {
      id = new_id;
      username = name;
      hashed_password = hash;
      is_active = true;
    }

    -- The name has a normal form, under which there is a user already.
    abbrev pub IsTaken : pg.Store → Type 0
    IsTaken before =
        (name : String) × (normalize_username normalize username ≡ ok name)
        × (v : StoredUser) × (vs : List StoredUser) × (users_named name before ≡ v ∷ vs)

    -- The user was created under the normal form of its name.
    abbrev pub WasCreated : pg.Store → pg.Store → Type 0
    WasCreated before after =
        (name : String) × (normalize_username normalize username ≡ ok name)
        × IsCreated pg queries (new_user name) before after

    abbrev create : Database pg → Result StoredUser × Database pg
    create = create_user pg queries normalize new_id username hash

    reported :
        (name : String) (x : Exn) (w : pg.Store)
        → normalize_username normalize username ≡ ok name
        → has new_id (pg.tables w).users ≡ false
        → IsFailure (insert_user (new_user name) default_role_id w).0 x
        → IsReported (IsTaken w) x
    reported name x w n fresh (taken e s unique) =
        let (v, vs, held) = insert-violation (new_user name) default_role_id w e s unique fresh in
        already_registered (name, n, v, vs, held)
    reported name x w n fresh backend = unavailable

    -- What a creation promises of its result.
    abbrev Promised : pg.Store → Result StoredUser → pg.Store → Type 0
    Promised before r after =
        ((u : StoredUser) × (r ≡ ok u)
          × (normalize_username normalize username ≡ ok u.username)
          × (u ≡ new_user u.username)
          × IsCreated pg queries u before after)
        ⊎ ((x : Exn) × (r ≡ raised x)
            × IsReported (IsTaken before) x
            × ((after ≡ before) ⊎ ((x ≡ user_repository_backend_error) × WasCreated before after)))

    added_cases :
        (name : String) (d : Database pg)
        → normalize_username normalize username ≡ ok name
        → has new_id (pg.tables d.store).users ≡ false
        → let (r, d') = add_new pg queries (new_user name) d in Promised d.store r d'.store
    added_cases name d n fresh = elim (new_cases pg queries (new_user name) d) [
      | inl (e, done) ↦
          inl (new_user name, e, n, refl, Inserted-IsCreated (new_user name) d.store _ done)
      | inr (x, e, failure, inl kept) ↦
          inr (x, e, reported name x d.store n fresh failure, inl kept)
      | inr (x, e, failure, inr (b, done)) ↦ inr (
        x,
        e,
        reported name x d.store n fresh failure,
        inr (b, (name, n, Inserted-IsCreated (new_user name) d.store _ done)),
      )
    ]

    create_cases :
        (d : Database pg)
        → ((x : Exn) × (create d ≡ (raised x, d)) × IsReported (IsTaken d.store) x)
          ⊎ ((name : String) × (normalize_username normalize username ≡ ok name)
              × (create d ≡ add_new pg queries (new_user name) d))
    unfolding create_user
    create_cases d = elim (Result-cases (normalize_username normalize username)) [
      | inr (x, n) ↦
          let refused : IsReported (IsTaken d.store) x =
            subst (IsReported (IsTaken d.store)) (sym (name_only normalize username x n))
              bad_name in
          inl (x, ground (arith, n), refused)
      | inl (name, n) ↦ elim (Bool-cases (is_empty (strip_string hash))) [
        | inl e ↦ inl (value_error, ground (arith, n, e), no_hash)
        | inr e ↦ inr (name, n, ground (arith, n, e))
      ]
    ]

    -- Whatever faults there are, a creation that returns made a user of that name, with the
    -- default role, where there was none, and changed nothing else. One that raises reports a bad
    -- name, an empty hash, that there is a user of that name already, or the failure of the
    -- backend; it changed nothing, unless the backend failed after it had made the user. The
    -- identifier is that of no user before.
    pub create_user-IsCreated :
        (d : Database pg)
        → has new_id (pg.tables d.store).users ≡ false
        → let (r, d') = create_user pg queries normalize new_id username hash d in
          ((u : StoredUser) × (r ≡ ok u)
            × (normalize_username normalize username ≡ ok u.username)
            × (u ≡ new_user u.username)
            × IsCreated pg queries u d.store d'.store)
          ⊎ ((x : Exn) × (r ≡ raised x)
              × IsReported (IsTaken d.store) x
              × ((d'.store ≡ d.store)
                  ⊎ ((x ≡ user_repository_backend_error) × WasCreated d.store d'.store)))
    create_user-IsCreated d fresh = elim (create_cases d) [
      | inl (x, e, refused) ↦
          subst (λ p. Promised d.store p.0 p.1.store) (sym e) (inr (x, refl, refused, inl refl))
      | inr (name, n, e) ↦
          subst (λ p. Promised d.store p.0 p.1.store) (sym e) (added_cases name d n fresh)
    ]
