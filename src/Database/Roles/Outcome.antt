-- ===== src/Database/Roles/Outcome.antt =====
-- What a change of roles comes to, whatever faults there are.
use secure_api_gateway.Prelude.{
  ℕ, ◌≡◌, ◌⊎◌, inl, inr, Bool, not, String, ◌==◌, refl, subst, ap, ◌∙◌, [],
}
use secure_api_gateway.Http.{
  Exn, Result, ok, raised, database_error, role_not_found_error, user_authorization_not_found_error,
  role_name_policy_error, authorization_repository_backend_error, Action, pure, try_except, ◌>>=◌,
}
use secure_api_gateway.Authorization.RoleNames.{normalize_role_name}
use secure_api_gateway.Database.{
  Tables, Postgres, Database, Session, execute, commit, in_session, translated, commit_failed,
}
use secure_api_gateway.Database.Sessions.{execute-cases, commit-cases}
use secure_api_gateway.Database.Roles.{
  get_role_id, require_user, change_roles, select_role_ids, select_user_ids,
}
use secure_api_gateway.Database.Roles.Lookups.{
  IsRefusal, bad_name, no_role, no_user, failed, IsRole, IsUser, IsTarget, IsRole-cases,
  IsUser-cases,
}

-- The exceptions of a change of roles, each with its cause: those that the protocol documents, and
-- that of the policy for names.
pub data IsReported (normalize : String → String) (user_id name : String) (t : Tables)
    : Exn → Type 0 where
  name_reported :
      normalize_role_name normalize name ≡ raised role_name_policy_error
      → IsReported normalize user_id name t role_name_policy_error
  role_reported :
      (role : String)
      → normalize_role_name normalize name ≡ ok role
      → select_role_ids role t ≡ []
      → IsReported normalize user_id name t role_not_found_error
  user_reported :
      select_user_ids user_id t ≡ []
      → IsReported normalize user_id name t user_authorization_not_found_error
  backend_reported : IsReported normalize user_id name t authorization_repository_backend_error

-- What became of a change: the statement was made durable, or an exception was raised; then
-- nothing was made durable, or only the answer of the commit was lost.
module _ (pg : Postgres) (normalize : String → String)
    (statement : String → String → pg.Store → ℕ × pg.Store) (user_id name : String)
    (w c : pg.Store) where
  abbrev pub Made : Result Bool → pg.Store → Type 0
  Made r after =
      (role_id : String) × IsTarget normalize user_id name role_id (pg.tables w)
      × (r ≡ ok (not ((statement user_id role_id w).0 == 0)))
      × (after ≡ (statement user_id role_id w).1)

  abbrev pub Lost : Exn → pg.Store → Type 0
  Lost e after =
      (e ≡ authorization_repository_backend_error)
      × ((role_id : String) × IsTarget normalize user_id name role_id (pg.tables w)
          × (after ≡ (statement user_id role_id w).1))

  abbrev Refusal : Exn → Type 0
  Refusal = IsRefusal normalize user_id name (pg.tables w)

  abbrev Outcome : Result Bool → pg.Store → Type 0
  Outcome r after =
      Made r after
      ⊎ ((e : Exn) × (r ≡ raised e)
          × (Refusal e ⊎ (e ≡ authorization_repository_backend_error))
          × ((after ≡ c) ⊎ Lost e after))

  abbrev finish : ℕ → Action (Session pg) Bool
  finish rowcount = try_except commit commit_failed >>= λ _. pure (not (rowcount == 0))

  committed_cases :
      (role_id : String) (st : Session pg)
      → IsTarget normalize user_id name role_id (pg.tables w)
      → st.working ≡ (statement user_id role_id w).1
      → st.committed ≡ c
      → let (r, st') = finish (statement user_id role_id w).0 st in Outcome r st'.committed
  committed_cases role_id st target hw hc = elim (commit-cases st) [
    | inl (e, done) ↦ rw (e, ◌>>=◌) (inl (role_id, target, refl, done ∙ hw))
    | inr (e, inl kept) ↦
        rw (e, ◌>>=◌)
          (inr (authorization_repository_backend_error, refl, inr refl, inl (kept ∙ hc)))
    | inr (e, inr done) ↦
        rw (e, ◌>>=◌)
          (inr (
            authorization_repository_backend_error,
            refl,
            inr refl,
            inr (refl, (role_id, target, done ∙ hw)),
          ))
  ]

  executed_cases :
      (role_id : String) (st : Session pg)
      → IsTarget normalize user_id name role_id (pg.tables w)
      → st.working ≡ w
      → st.committed ≡ c
      → let (r, st') = (execute (statement user_id role_id) >>= finish) st in
        Outcome r st'.committed
  executed_cases role_id st target hw hc =
      let (same, answer) = execute-cases (statement user_id role_id) st in
      elim answer [
        | inl (e, kept) ↦
            rw (e ∙ ap (λ s. ok (statement user_id role_id s).0) hw, ◌>>=◌)
              (committed_cases role_id (execute (statement user_id role_id) st).1 target
                (kept ∙ ap (λ s. (statement user_id role_id s).1) hw) (same ∙ hc))
        | inr e ↦ rw (e, ◌>>=◌) (inr (database_error, refl, inl failed, inl (same ∙ hc)))
      ]

  known_cases :
      (role_id : String) (st : Session pg)
      → IsRole normalize name role_id (pg.tables w)
      → st.working ≡ w
      → st.committed ≡ c
      → let (r, st') =
          (require_user pg normalize user_id >>= λ _.
          execute (statement user_id role_id) >>= finish)
            st in
        Outcome r st'.committed
  known_cases role_id st is_role hw hc =
      let ((same, kept), answer) = IsUser-cases normalize user_id name st in
      elim answer [
        | inr (e, h, refusal) ↦
            let here : Refusal e =
              subst (λ s. IsRefusal normalize user_id name (pg.tables s) e) hw refusal in
            rw (h, ◌>>=◌) (inr (e, refl, inl here, inl (same ∙ hc)))
        | inl (h, is_user) ↦
            rw (h, ◌>>=◌)
              (executed_cases role_id (require_user pg normalize user_id st).1
                (record {
                  is_role = is_role;
                  is_user = subst (λ s. IsUser user_id (pg.tables s)) hw is_user;
                })
                (kept ∙ hw) (same ∙ hc))
      ]

  -- The whole session.
  change_cases :
      (st : Session pg)
      → st.working ≡ w
      → st.committed ≡ c
      → let (r, st') = change_roles pg normalize statement user_id name st in
        Outcome r st'.committed
  unfolding change_roles
  change_cases st hw hc =
      let ((same, kept), answer) = IsRole-cases normalize user_id name st in
      elim answer [
        | inr (e, h, refusal) ↦
            let here : Refusal e =
              subst (λ s. IsRefusal normalize user_id name (pg.tables s) e) hw refusal in
            rw (h, ◌>>=◌) (inr (e, refl, inl here, inl (same ∙ hc)))
        | inl (role_id, h, is_role) ↦
            rw (h, ◌>>=◌)
              (known_cases role_id (get_role_id pg normalize name st).1
                (subst (λ s. IsRole normalize name role_id (pg.tables s)) hw is_role) (kept ∙ hw)
                (same ∙ hc))
      ]

  translate_cases :
      (e : Exn)
      → Refusal e ⊎ (e ≡ authorization_repository_backend_error)
      → (d : Database pg)
      → let (r, d') = translated {A = Bool} e d in
        (d' ≡ d)
        × ((e' : Exn) × (r ≡ raised e')
            × IsReported normalize user_id name (pg.tables w) e'
            × (e ≡ authorization_repository_backend_error
                → e' ≡ authorization_repository_backend_error))
  unfolding translated
  translate_cases e (inr h) d =
      rw h (refl, (authorization_repository_backend_error, refl, backend_reported, λ _. refl))
  translate_cases e (inl (bad_name n)) d =
      (refl, (role_name_policy_error, refl, name_reported n, λ h. h))
  translate_cases e (inl (no_role role n none_found)) d =
      (refl, (role_not_found_error, refl, role_reported role n none_found, λ h. h))
  translate_cases e (inl (no_user none_found)) d =
      (refl, (user_authorization_not_found_error, refl, user_reported none_found, λ h. h))
  translate_cases e (inl failed) d =
      (refl, (authorization_repository_backend_error, refl, backend_reported, λ _. refl))

-- The operation of the repository.
module _ (pg : Postgres) (normalize : String → String)
    (statement : String → String → pg.Store → ℕ × pg.Store) (user_id name : String) where
  pub operation_cases :
      (d : Database pg)
      → let (r, d') =
          try_except (in_session (change_roles pg normalize statement user_id name)) translated d in
        Made pg normalize statement user_id name d.store d.store r d'.store
        ⊎ ((e : Exn) × (r ≡ raised e)
            × IsReported normalize user_id name (pg.tables d.store) e
            × ((d'.store ≡ d.store)
                ⊎ Lost pg normalize statement user_id name d.store d.store e d'.store))
  unfolding in_session
  operation_cases d =
      let begun : Session pg = record {
        committed = d.store;
        working = d.store;
        faults = d.faults;
      } in
      let ended = change_roles pg normalize statement user_id name begun in
      elim (change_cases pg normalize statement user_id name d.store d.store begun refl refl) [
        | inl (role_id, target, h, done) ↦ rw (try_except, h) (inl (role_id, target, refl, done))
        | inr (e, h, refusal, kept) ↦
            let after : Database pg = record {
              store = ended.1.committed;
              faults = ended.1.faults;
            } in
            let (same, (e', r, reported, backend)) =
              translate_cases pg normalize statement user_id name d.store d.store e refusal after in
            rw (try_except, h, r, same)
              (inr (
                e',
                refl,
                reported,
                elim kept [ inl k ↦ inl k | inr (b, lost) ↦ inr (backend b, lost) ],
              ))
      ]
