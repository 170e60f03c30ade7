-- ===== src/Database/Events.antt =====
-- Class PostgreSQLAuditRepository of gateway/app/database/audit_repository.py, over the sessions of
-- Database. The INSERT of an event is an interface: it adds the row, or violates a constraint.
use secure_api_gateway.Prelude.{
  ◌≡◌, ◌⊎◌, inl, inr, Option, none, some, List, ◌∷◌, arith, refl, sym, ◌∙◌, ap, subst,
}
use secure_api_gateway.Http.{
  IntegrityError, Result, ok, raised, Exn, database_error, integrity_error,
  audit_repository_backend_error, Action, raise, try_except, ◌>>=◌, ◌>>◌,
}
use secure_api_gateway.Audit.{SecurityAuditEvent}
use secure_api_gateway.Database.{
  Postgres, Database, Session, execute, commit, rollback_quietly, in_session,
}
use secure_api_gateway.Database.Sessions.{execute-cases, commit_cases, rollback_quiet}

pub record EventQueries (pg : Postgres) : Type 0 where
  pub events : pg.Store → List SecurityAuditEvent
  pub insert_event : SecurityAuditEvent → pg.Store → Option IntegrityError × pg.Store
  pub insert-events :
      (e : SecurityAuditEvent) (s : pg.Store)
      → (insert_event e s).0 ≡ none
      → events (insert_event e s).1 ≡ e ∷ events s

-- backend_error, for the exceptions that the `except` clauses name; the others pass.
unfoldable pub backend_error : {S A : Type 0} → Exn → Action S A
backend_error database_error = raise audit_repository_backend_error
backend_error (integrity_error e) = raise audit_repository_backend_error
backend_error e = raise e

module _ (pg : Postgres) (queries : EventQueries pg) where
  open queries use {events, insert_event, insert-events}

  -- The `try` around the commit.
  unfoldable pub append_failed : Exn → Action (Session pg) (Unit {0})
  unfolding rollback_quietly
  append_failed (integrity_error e) = rollback_quietly >> raise audit_repository_backend_error
  append_failed database_error = rollback_quietly >> raise audit_repository_backend_error
  append_failed e = raise e

  unfoldable pub written : Option IntegrityError → Action (Session pg) (Unit {0})
  written none = commit
  written (some e) = raise (integrity_error e)

  -- session.commit with the new record
  unfoldable pub commit_event : SecurityAuditEvent → Action (Session pg) (Unit {0})
  unfolding written
  commit_event event = execute (insert_event event) >>= written

  unfoldable pub append_event : SecurityAuditEvent → Action (Database pg) (Unit {0})
  unfolding commit_event append_failed backend_error
  append_event event =
      try_except (in_session (try_except (commit_event event) append_failed)) backend_error

  data IsBackend : Exn → Type 0 where
    database : IsBackend database_error
    integrity : (e : IntegrityError) → IsBackend (integrity_error e)

  -- Whether the event was stored, by what is durable before and after.
  abbrev pub Stored : SecurityAuditEvent → pg.Store → pg.Store → Type 0
  Stored event before after = events after ≡ event ∷ events before

  abbrev Outcome : SecurityAuditEvent → pg.Store → Result (Unit {0}) → pg.Store → Type 0
  Outcome event w r after =
      ((r ≡ ok tt) × Stored event w after)
      ⊎ ((x : Exn) × (r ≡ raised x) × IsBackend x × ((after ≡ w) ⊎ Stored event w after))

  written_cases :
      (event : SecurityAuditEvent) (w : pg.Store) (violation : Option IntegrityError)
      (st : Session pg)
      → (insert_event event w).0 ≡ violation
      → st.working ≡ (insert_event event w).1
      → st.committed ≡ w
      → let (r, st') = written violation st in Outcome event w r st'.committed
  unfolding written commit
  written_cases event w (some v) st s hw h = inr (integrity_error v, refl, integrity v, inl h)
  written_cases event w none st s hw h =
      let stored = ap events hw ∙ insert-events event w s in
      elim (commit_cases st.faults st) [
        | inl (e, done) ↦ inl (e, ap events done ∙ stored)
        | inr (e, inl kept) ↦ inr (database_error, e, database, inl (kept ∙ h))
        | inr (e, inr done) ↦ inr (database_error, e, database, inr (ap events done ∙ stored))
      ]

  commit_event-cases :
      (event : SecurityAuditEvent) (w : pg.Store) (st : Session pg)
      → st.working ≡ w
      → st.committed ≡ w
      → let (r, st') = commit_event event st in Outcome event w r st'.committed
  unfolding commit_event
  commit_event-cases event w st hw h =
      let (same, answer) = execute-cases (insert_event event) st in
      let st₁ = (execute (insert_event event) st).1 in
      elim answer [
        | inr e ↦ rw (e, ◌>>=◌) (inr (database_error, refl, database, inl (same ∙ h)))
        | inl (e, kept) ↦
            rw (e, ◌>>=◌)
              (written_cases event w (insert_event event st.working).0 st₁
                (ap (λ s. (insert_event event s).0) (sym hw))
                (kept ∙ ap (λ s. (insert_event event s).1) hw) (same ∙ h))
      ]

  failed_runs :
      (x : Exn) (st : Session pg)
      → IsBackend x
      → let (r, st') = append_failed x st in
        (r ≡ raised audit_repository_backend_error) × (st'.committed ≡ st.committed)
  unfolding append_failed
  failed_runs x st database = ground (arith, rollback_quiet st)
  failed_runs x st (integrity v) = ground (arith, rollback_quiet st)

  abbrev Promised : SecurityAuditEvent → pg.Store → Result (Unit {0}) → pg.Store → Type 0
  Promised event w r after =
      ((r ≡ ok tt) × Stored event w after)
      ⊎ ((r ≡ raised audit_repository_backend_error) × ((after ≡ w) ⊎ Stored event w after))

  -- What the `try` around the commit makes of its outcome, and what the one around the session.
  abbrev recovered : Result (Unit {0}) → Session pg → Result (Unit {0}) × Session pg
  recovered r = try_except (λ st. (r, st)) append_failed

  abbrev ended : Result (Unit {0}) → Session pg → Result (Unit {0}) × Database pg
  ended r st =
      try_except (λ d. (r, d)) backend_error (record { store = st.committed; faults = st.faults })

  recovered_cases :
      (event : SecurityAuditEvent) (w : pg.Store) (r : Result (Unit {0})) (st : Session pg)
      → Outcome event w r st.committed
      → let (r', st') = recovered r st in Promised event w r' st'.committed
  recovered_cases event w r st (inl (e, stored)) =
      subst (λ r. Promised event w (recovered r st).0 (recovered r st).1.committed) (sym e)
        (inl (refl, stored))
  recovered_cases event w r st (inr (x, e, b, kept)) =
      let (told, same) = failed_runs x st b in
      subst (λ r. Promised event w (recovered r st).0 (recovered r st).1.committed) (sym e)
        (inr
          (told, elim kept [ inl k ↦ inl (same ∙ k) | inr stored ↦ inr (ap events same ∙ stored) ]))

  ended_cases :
      (event : SecurityAuditEvent) (w : pg.Store) (r : Result (Unit {0})) (st : Session pg)
      → Promised event w r st.committed
      → let (r', d) = ended r st in Promised event w r' d.store
  unfolding backend_error
  ended_cases event w r st (inl (e, stored)) =
      subst (λ r. Promised event w (ended r st).0 (ended r st).1.store) (sym e) (inl (refl, stored))
  ended_cases event w r st (inr (e, kept)) =
      subst (λ r. Promised event w (ended r st).0 (ended r st).1.store) (sym e) (inr (refl, kept))

  -- Whatever faults there are, appending an event that returns has stored it before the events that
  -- there were. It raises no exception but that of the audit repository, and then it stored nothing,
  -- or the event and its answer was lost.
  pub append_event-stores :
      (event : SecurityAuditEvent) (d : Database pg)
      → let (r, d') = append_event event d in
        ((r ≡ ok tt) × (events d'.store ≡ event ∷ events d.store))
        ⊎ ((r ≡ raised audit_repository_backend_error)
            × ((d'.store ≡ d.store) ⊎ (events d'.store ≡ event ∷ events d.store)))
  unfolding append_event in_session
  append_event-stores event d =
      let begun : Session pg = record {
        committed = d.store;
        working = d.store;
        faults = d.faults;
      } in
      let (r, st) = commit_event event begun in
      let (r', st') = recovered r st in
      ended_cases event d.store r' st'
        (recovered_cases event d.store r st (commit_event-cases event d.store begun refl refl))
