-- ===== src/Database/Sessions.antt =====
-- What the steps of a session come to, whatever faults there are.
use secure_api_gateway.Prelude.{◌≡◌, ◌⊎◌, inl, inr, arith, refl, List, [], ◌∷◌}
use secure_api_gateway.Http.{
  ok, raised, database_error, authorization_repository_backend_error, try_except,
}
use secure_api_gateway.Database.{
  Tables, Postgres, Session, Fault, works, fails, answer_lost, statement_with, execute, select,
  commit_with, commit, rollback_with, ignored, rollback_quietly, commit_failed,
}

module _ {pg : Postgres} where
  -- The session after a step made nothing durable.
  abbrev pub SameCommitted : Session pg → Session pg → Type 0
  SameCommitted st st' = st'.committed ≡ st.committed

  statement_cases :
      {A : Type 0} (faults : List Fault) (f : pg.Store → A × pg.Store) (st : Session pg)
      → let (r, st') = statement_with faults f st in
        SameCommitted st st'
        × (((r ≡ ok (f st.working).0) × (st'.working ≡ (f st.working).1))
            ⊎ ((r ≡ raised database_error)
                × ((st'.working ≡ st.working) ⊎ (st'.working ≡ (f st.working).1))))
  unfolding statement_with
  statement_cases [] f st = (refl, inl (refl, refl))
  statement_cases (works ∷ rest) f st = (refl, inl (refl, refl))
  statement_cases (fails ∷ rest) f st = (refl, inr (refl, inl refl))
  statement_cases (answer_lost ∷ rest) f st = (refl, inr (refl, inr refl))

  pub execute-cases :
      {A : Type 0} (f : pg.Store → A × pg.Store) (st : Session pg)
      → let (r, st') = execute f st in
        SameCommitted st st'
        × (((r ≡ ok (f st.working).0) × (st'.working ≡ (f st.working).1))
            ⊎ (r ≡ raised database_error))
  unfolding execute
  execute-cases f st =
      let (same, outcome) = statement_cases st.faults f st in
      (same, elim outcome [ inl done ↦ inl done | inr (failed, _) ↦ inr failed ])

  pub select-cases :
      {A : Type 0} (f : Tables → A) (st : Session pg)
      → let (r, st') = select f st in
        SameCommitted st st'
        × (st'.working ≡ st.working)
        × ((r ≡ ok (f (pg.tables st.working))) ⊎ (r ≡ raised database_error))
  unfolding select execute
  select-cases f st =
      let (same, outcome) = statement_cases st.faults (λ s. (f (pg.tables s), s)) st in
      elim outcome [
        | inl (done, kept) ↦ (same, kept, inl done)
        | inr (failed, inl kept) ↦ (same, kept, inr failed)
        | inr (failed, inr kept) ↦ (same, kept, inr failed)
      ]

  pub commit_cases :
      (faults : List Fault) (st : Session pg)
      → let (r, st') = commit_with faults st in
        ((r ≡ ok tt) × (st'.committed ≡ st.working))
        ⊎ ((r ≡ raised database_error)
            × ((st'.committed ≡ st.committed) ⊎ (st'.committed ≡ st.working)))
  unfolding commit_with
  commit_cases [] st = inl (refl, refl)
  commit_cases (works ∷ rest) st = inl (refl, refl)
  commit_cases (fails ∷ rest) st = inr (refl, inl refl)
  commit_cases (answer_lost ∷ rest) st = inr (refl, inr refl)

  rollback_cases :
      (faults : List Fault) (st : Session pg)
      → let (r, st') = rollback_with faults st in
        SameCommitted st st' × ((r ≡ ok tt) ⊎ (r ≡ raised database_error))
  unfolding rollback_with
  rollback_cases [] st = (refl, inl refl)
  rollback_cases (works ∷ rest) st = (refl, inl refl)
  rollback_cases (fails ∷ rest) st = (refl, inr refl)
  rollback_cases (answer_lost ∷ rest) st = (refl, inr refl)

  pub rollback_quiet :
      (st : Session pg) → let (r, st') = rollback_quietly st in SameCommitted st st' × (r ≡ ok tt)
  unfolding rollback_quietly ignored
  rollback_quiet st = ground (arith, rollback_cases st.faults st)

  -- The `try` around a commit either makes the transaction durable, or raises the error of the
  -- repository, and then the transaction is lost, or only its answer.
  pub commit-cases :
      (st : Session pg)
      → let (r, st') = try_except commit commit_failed st in
        ((r ≡ ok tt) × (st'.committed ≡ st.working))
        ⊎ ((r ≡ raised authorization_repository_backend_error)
            × ((st'.committed ≡ st.committed) ⊎ (st'.committed ≡ st.working)))
  unfolding commit commit_failed
  commit-cases st =
      let tried = commit_with st.faults st in
      ground (arith, commit_cases st.faults st, rollback_quiet tried.1)
