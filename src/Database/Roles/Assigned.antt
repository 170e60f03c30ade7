-- ===== src/Database/Roles/Assigned.antt =====
-- What assigning and removing a role do to the assignments.
use secure_api_gateway.Prelude.{
  ℕ, ◌≡◌, ◌⊎◌, inl, inr, Bool, not, ◌&&◌, ◌||◌, String, ◌==◌, arith, ap, ◌∙◌, subst, sym,
}
use secure_api_gateway.Http.{Exn, ok, raised, try_except, authorization_repository_backend_error}
use secure_api_gateway.Database.{
  Tables, has_pair, SameButAssignments, Postgres, Database, in_session, translated,
}
use secure_api_gateway.Database.Roles.{change_roles, assign_role, remove_role}
use secure_api_gateway.Database.Roles.Lookups.{IsTarget}
use secure_api_gateway.Database.Roles.Outcome.{IsReported, operation_cases}
use text.Mathlib.Text.{◌==◌ as str_eq}

-- The second state has the assignment besides those of the first, and differs in nothing else.
pub record IsAssigned (user_id role_id : String) (t u : Tables) : Type 0 where
  pub others : SameButAssignments t u
  pub pairs :
      (v q : String)
      → has_pair v q u.user_roles
        ≡ ((str_eq v user_id && str_eq q role_id) || has_pair v q t.user_roles)

-- The second state has the assignments of the first but this one, and differs in nothing else.
pub record IsRemoved (user_id role_id : String) (t u : Tables) : Type 0 where
  pub others : SameButAssignments t u
  pub pairs :
      (v q : String)
      → has_pair v q u.user_roles
        ≡ (not (str_eq v user_id && str_eq q role_id) && has_pair v q t.user_roles)

module _ (pg : Postgres) where
  insert_assigns :
      (user_id role_id : String) (s : pg.Store)
      → IsAssigned user_id role_id
          (pg.tables s)
          (pg.tables (pg.insert_user_role user_id role_id s).1)
  insert_assigns user_id role_id s = record {
    others = pg.insert-others user_id role_id s;
    pairs = λ v q. pg.insert-pairs user_id role_id v q s;
  }

  delete_removes :
      (user_id role_id : String) (s : pg.Store)
      → IsRemoved user_id role_id
          (pg.tables s)
          (pg.tables (pg.delete_user_role user_id role_id s).1)
  delete_removes user_id role_id s = record {
    others = pg.delete-others user_id role_id s;
    pairs = λ v q. pg.delete-pairs user_id role_id v q s;
  }

  module _ (normalize : String → String) (user_id name : String) (d : Database pg) where
    abbrev before : Tables
    before = pg.tables d.store

    -- The outcome of an operation whose statement has the effect E and counts the rows so.
    changed_cases :
        (statement : String → String → pg.Store → ℕ × pg.Store)
        (E : String → Tables → Tables → Type 0)
        → ((role_id : String) (s : pg.Store)
            → E role_id (pg.tables s) (pg.tables (statement user_id role_id s).1))
        → (changed : String → Bool)
        → ((role_id : String) → not ((statement user_id role_id d.store).0 == 0) ≡ changed role_id)
        → let (r, d') =
            try_except
              (in_session (change_roles pg normalize statement user_id name))
              translated
              d in
          ((role_id : String) × IsTarget normalize user_id name role_id before
            × (r ≡ ok (changed role_id))
            × E role_id before (pg.tables d'.store))
          ⊎ ((e : Exn) × (r ≡ raised e)
              × IsReported normalize user_id name before e
              × ((d'.store ≡ d.store)
                  ⊎ ((e ≡ authorization_repository_backend_error)
                      × ((role_id : String) × IsTarget normalize user_id name role_id before
                          × E role_id before (pg.tables d'.store)))))
    changed_cases statement E effect changed count =
        elim (operation_cases pg normalize statement user_id name d) [
          | inl (role_id, target, h, done) ↦ inl (
            role_id,
            target,
            h ∙ ap ok (count role_id),
            subst (λ s. E role_id before (pg.tables s)) (sym done) (effect role_id d.store),
          )
          | inr (e, h, reported, inl same) ↦ inr (e, h, reported, inl same)
          | inr (e, h, reported, inr (failed, (role_id, target, done))) ↦ inr (
            e,
            h,
            reported,
            inr (
              failed,
              (
                role_id,
                target,
                subst (λ s. E role_id before (pg.tables s)) (sym done) (effect role_id d.store),
              ),
            ),
          )
        ]

    -- Whatever faults there are, an assignment that returns found the role of that name and the
    -- user, made the user have the role and changed no other row, and returned whether the user
    -- did not have it. One that raises reports that the name has no normal form, that no role has
    -- it, that there is no such user, or that the backend failed; it changed nothing, unless it
    -- reports that the backend failed, and then it changed nothing or made the assignment.
    pub assign_role-IsAssigned :
        let (r, d') = assign_role pg normalize user_id name d in
        ((role_id : String) × IsTarget normalize user_id name role_id before
          × (r ≡ ok (not (has_pair user_id role_id before.user_roles)))
          × IsAssigned user_id role_id before (pg.tables d'.store))
        ⊎ ((e : Exn) × (r ≡ raised e)
            × IsReported normalize user_id name before e
            × ((d'.store ≡ d.store)
                ⊎ ((e ≡ authorization_repository_backend_error)
                    × ((role_id : String) × IsTarget normalize user_id name role_id before
                        × IsAssigned user_id role_id before (pg.tables d'.store)))))
    unfolding assign_role
    assign_role-IsAssigned =
        changed_cases pg.insert_user_role (λ role_id. IsAssigned user_id role_id)
          (λ role_id s. insert_assigns user_id role_id s)
          (λ role_id. not (has_pair user_id role_id before.user_roles))
          (λ role_id. ground (arith, pg.insert-count user_id role_id d.store))

    -- Whatever faults there are, a removal that returns found the role of that name and the user,
    -- took the role from the user and changed no other row, and returned whether the user had it.
    -- One that raises reports that the name has no normal form, that no role has it, that there is
    -- no such user, or that the backend failed; it changed nothing, unless it reports that the
    -- backend failed, and then it changed nothing or removed the assignment.
    pub remove_role-IsRemoved :
        let (r, d') = remove_role pg normalize user_id name d in
        ((role_id : String) × IsTarget normalize user_id name role_id before
          × (r ≡ ok (has_pair user_id role_id before.user_roles))
          × IsRemoved user_id role_id before (pg.tables d'.store))
        ⊎ ((e : Exn) × (r ≡ raised e)
            × IsReported normalize user_id name before e
            × ((d'.store ≡ d.store)
                ⊎ ((e ≡ authorization_repository_backend_error)
                    × ((role_id : String) × IsTarget normalize user_id name role_id before
                        × IsRemoved user_id role_id before (pg.tables d'.store)))))
    unfolding remove_role
    remove_role-IsRemoved =
        changed_cases pg.delete_user_role (λ role_id. IsRemoved user_id role_id)
          (λ role_id s. delete_removes user_id role_id s)
          (λ role_id. has_pair user_id role_id before.user_roles)
          (λ role_id. ground (arith, pg.delete-count user_id role_id d.store))
