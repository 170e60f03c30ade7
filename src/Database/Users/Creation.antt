-- ===== src/Database/Users/Creation.antt =====
-- What the creation of a user comes to, whatever faults there are.
use secure_api_gateway.Prelude.{
  ◌≡◌, ◌⊎◌, inl, inr, true, Option, none, some, refl, Bool-cases, sym, ◌∙◌, ap, subst,
}
use secure_api_gateway.Http.{
  IntegrityError, Exn, Result, ok, raised, database_error, integrity_error,
  user_already_exists_error, user_repository_backend_error, try_except, ◌>>=◌, pure,
}
use secure_api_gateway.Auth.Service.{StoredUser}
use secure_api_gateway.Database.{
  Postgres, Database, Session, execute, commit, rollback_quietly, in_session,
}
use secure_api_gateway.Database.Sessions.{execute-cases, commit_cases, rollback_quiet}
use secure_api_gateway.Database.Users.{
  UserQueries, default_role_id, is_unique_violation, backend_error, creation_failed, flushed,
  commit_new, add_new,
}

-- What a failed creation raises: that the row violates a unique constraint, or that the backend
-- failed.
pub data IsFailure (violation : Option IntegrityError) : Exn → Type 0 where
  taken :
      (e : IntegrityError)
      → violation ≡ some e
      → is_unique_violation e ≡ true
      → IsFailure violation user_already_exists_error
  backend : IsFailure violation user_repository_backend_error

option_cases : {A : Type 0} (o : Option A) → (o ≡ none) ⊎ ((a : A) × (o ≡ some a))
option_cases none = inl refl
option_cases (some a) = inr (a, refl)

module _ (pg : Postgres) (queries : UserQueries pg) where
  open queries use {insert_user, users_named}

  -- What became of a user: it was inserted, or an exception was raised; then nothing was made
  -- durable, or only the answer of the commit was lost.
  abbrev pub Inserted : StoredUser → pg.Store → pg.Store → Type 0
  Inserted u w after =
      ((insert_user u default_role_id w).0 ≡ none) × (after ≡ (insert_user u default_role_id w).1)

  abbrev pub Outcome : {A : Type 0} → StoredUser → pg.Store → A → Result A → pg.Store → Type 0
  Outcome u w a r after =
      ((r ≡ ok a) × Inserted u w after)
      ⊎ ((e : Exn) × (r ≡ raised e)
          × IsFailure (insert_user u default_role_id w).0 e
          × ((after ≡ w) ⊎ ((e ≡ user_repository_backend_error) × Inserted u w after)))

  failed_new :
      (u : StoredUser) (w : pg.Store) (st : Session pg)
      → (st.committed ≡ w) ⊎ Inserted u w st.committed
      → let (r, st') = creation_failed pg queries database_error st in
        Outcome u w tt r st'.committed
  unfolding creation_failed
  failed_new u w st h =
      let (same, e) = rollback_quiet st in
      let kept : ((rollback_quietly st).1.committed ≡ w)
          ⊎ ((user_repository_backend_error ≡ user_repository_backend_error)
              × Inserted u w (rollback_quietly st).1.committed) =
        elim h [ inl k ↦ inl (same ∙ k) | inr (s, k) ↦ inr (refl, (s, same ∙ k)) ] in
      rw (e, ◌>>=◌) (inr (user_repository_backend_error, refl, backend, kept))

  violated :
      (u : StoredUser) (w : pg.Store) (v : IntegrityError) (st : Session pg)
      → (insert_user u default_role_id w).0 ≡ some v
      → st.committed ≡ w
      → let (r, st') = creation_failed pg queries (integrity_error v) st in
        Outcome u w tt r st'.committed
  unfolding creation_failed
  violated u w v st s h =
      let (same, e) = rollback_quiet st in
      elim (Bool-cases (is_unique_violation v)) [
        | inl unique ↦
            rw (e, ◌>>=◌, unique)
              (inr (user_already_exists_error, refl, taken v s unique, inl (same ∙ h)))
        | inr other ↦
            rw (e, ◌>>=◌, other)
              (inr (user_repository_backend_error, refl, backend, inl (same ∙ h)))
      ]

  committed_new :
      (u : StoredUser) (w : pg.Store) (st : Session pg)
      → (insert_user u default_role_id w).0 ≡ none
      → st.working ≡ (insert_user u default_role_id w).1
      → st.committed ≡ w
      → let (r, st') = try_except commit (creation_failed pg queries) st in
        Outcome u w tt r st'.committed
  unfolding commit creation_failed
  committed_new u w st s hw h = elim (commit_cases st.faults st) [
    | inl (e, done) ↦ rw (e, try_except) (inl (refl, (s, done ∙ hw)))
    | inr (e, inl kept) ↦ rw (e, try_except) (failed_new u w (commit st).1 (inl (kept ∙ h)))
    | inr (e, inr done) ↦ rw (e, try_except) (failed_new u w (commit st).1 (inr (s, done ∙ hw)))
  ]

  flushed_new :
      (u : StoredUser) (w : pg.Store) (violation : Option IntegrityError) (st : Session pg)
      → (insert_user u default_role_id w).0 ≡ violation
      → st.working ≡ (insert_user u default_role_id w).1
      → st.committed ≡ w
      → let (r, st') = try_except (flushed pg queries violation) (creation_failed pg queries) st in
        Outcome u w tt r st'.committed
  unfolding flushed
  flushed_new u w none st s hw h = committed_new u w st s hw h
  flushed_new u w (some v) st s hw h = violated u w v st s h

  executed_new :
      (u : StoredUser) (st : Session pg)
      → let (r, st') = execute (insert_user u default_role_id) st in
        ((commit_new pg queries u st
            ≡ flushed pg queries (insert_user u default_role_id st.working).0 st')
          × (st'.working ≡ (insert_user u default_role_id st.working).1)
          × (st'.committed ≡ st.committed))
        ⊎ ((commit_new pg queries u st ≡ (raised database_error, st'))
            × (st'.committed ≡ st.committed))
  unfolding commit_new
  executed_new u st =
      let (same, answer) = execute-cases (insert_user u default_role_id) st in
      elim answer [
        | inl (e, kept) ↦ rw (e, ◌>>=◌) (inl (refl, kept, same))
        | inr e ↦ rw (e, ◌>>=◌) (inr (refl, same))
      ]

  -- What a `try` around the commit makes of its outcome.
  abbrev recovered : Result (Unit {0}) × Session pg → Result (Unit {0}) × Session pg
  recovered p = elim p.0 [ ok a ↦ (ok a, p.1) | raised e ↦ creation_failed pg queries e p.1 ]

  session_new :
      (u : StoredUser) (w : pg.Store) (st : Session pg)
      → st.working ≡ w
      → st.committed ≡ w
      → let (r, st') = try_except (commit_new pg queries u) (creation_failed pg queries) st in
        Outcome u w tt r st'.committed
  session_new u w st hw h =
      let st₁ = (execute (insert_user u default_role_id) st).1 in
      elim (executed_new u st) [
        | inl (e, kept, same) ↦
            subst (λ p. Outcome u w tt (recovered p).0 (recovered p).1.committed) (sym e)
              (flushed_new u w (insert_user u default_role_id st.working).0 st₁
                (ap (λ s. (insert_user u default_role_id s).0) (sym hw))
                (kept ∙ ap (λ s. (insert_user u default_role_id s).1) hw) (same ∙ h))
        | inr (e, same) ↦
            subst (λ p. Outcome u w tt (recovered p).0 (recovered p).1.committed) (sym e)
              (failed_new u w st₁ (inl (same ∙ h)))
      ]

  -- What the repository makes of the outcome of its session.
  abbrev ended : StoredUser → Result (Unit {0}) → Session pg → Result StoredUser × Database pg
  ended u r st =
      (try_except (λ d. (r, d)) backend_error >>= λ _. pure u)
        (record { store = st.committed; faults = st.faults })

  ended_failure :
      (u : StoredUser) (violation : Option IntegrityError) (x : Exn) (st : Session pg)
      → IsFailure violation x
      → ended u (raised x) st ≡ (raised x, record { store = st.committed; faults = st.faults })
  unfolding backend_error
  ended_failure u violation x st (taken v s unique) = refl
  ended_failure u violation x st backend = refl

  ended_cases :
      (u : StoredUser) (w : pg.Store) (r : Result (Unit {0})) (st : Session pg)
      → Outcome u w tt r st.committed
      → Outcome u w u (ended u r st).0 (ended u r st).1.store
  ended_cases u w r st (inl (e, done)) =
      subst (λ r. Outcome u w u (ended u r st).0 (ended u r st).1.store) (sym e) (inl (refl, done))
  ended_cases u w r st (inr (x, e, failure, kept)) =
      subst (λ p. Outcome u w u p.0 p.1.store)
        (sym (
          ap (λ r. ended u r st) e
          ∙ ended_failure u (insert_user u default_role_id w).0 x st failure))
        (inr (x, refl, failure, kept))

  pub new_cases :
      (u : StoredUser) (d : Database pg)
      → let (r, d') = add_new pg queries u d in Outcome u d.store u r d'.store
  unfolding in_session add_new
  new_cases u d =
      let begun : Session pg = record {
        committed = d.store;
        working = d.store;
        faults = d.faults;
      } in
      let (r, st) = try_except (commit_new pg queries u) (creation_failed pg queries) begun in
      ended_cases u d.store r st (session_new u d.store begun refl refl)
