-- ===== src/Database.antt =====
-- What the repositories of gateway/app/database use of PostgreSQL through SQLAlchemy: tables, a session
-- that reads and changes them in a transaction, and its failures. PostgreSQL is not part of the
-- repository, so it is an interface whose laws are the documented effects of the two statements that
-- change rows of user_roles; a SELECT reads the rows of the transaction. Users and Events add interfaces
-- of their own for their tables.
pub mod Memory
pub mod Sessions
pub mod Roles
pub mod Users
pub mod Events
mod Examples
use secure_api_gateway.Prelude.{
  ℕ, ◌≡◌, Bool, true, false, not, ◌&&◌, ◌||◌, String, List, [], ◌∷◌, if◌then◌else◌,
}
use secure_api_gateway.Prelude.Lists.{any}
use secure_api_gateway.Prelude.Sorting.{has}
use secure_api_gateway.Http.{
  Result, ok, raised, Exn, database_error, integrity_error, authorization_repository_backend_error,
  Action, raise, try_except, ◌>>◌,
}
use text.Mathlib.Text.{◌==◌ as str_eq}

-- The columns that the authorization reads: the identifiers of users, roles with their names,
-- permissions with their codes, and the pairs of user_roles and role_permissions.
pub record Tables : Type 0 where
  pub users : List String
  pub roles : List (String × String)
  pub permissions : List (String × String)
  pub user_roles : List (String × String)
  pub role_permissions : List (String × String)

-- Whether a table of pairs has the pair.
abbrev pub has_pair : String → String → List (String × String) → Bool
has_pair a b = any (λ (c, d). str_eq a c && str_eq b d)

-- Two states that differ in the rows of user_roles only.
pub record SameButAssignments (t u : Tables) : Type 0 where
  pub users : u.users ≡ t.users
  pub roles : u.roles ≡ t.roles
  pub permissions : u.permissions ≡ t.permissions
  pub role_permissions : u.role_permissions ≡ t.role_permissions

pub record Postgres : Type 1 where
  pub Store : Type 0
  pub tables : Store → Tables
  -- INSERT INTO user_roles … ON CONFLICT DO NOTHING, and DELETE FROM user_roles, with the number of
  -- the rows they change
  pub insert_user_role : String → String → Store → ℕ × Store
  pub delete_user_role : String → String → Store → ℕ × Store
  pub insert-others :
      (u r : String) (s : Store) → SameButAssignments (tables s) (tables (insert_user_role u r s).1)
  pub insert-pairs :
      (u r v q : String) (s : Store)
      → has_pair v q (tables (insert_user_role u r s).1).user_roles
        ≡ ((str_eq v u && str_eq q r) || has_pair v q (tables s).user_roles)
  pub insert-count :
      (u r : String) (s : Store)
      → (insert_user_role u r s).0 ≡ (if has_pair u r (tables s).user_roles then 0 else 1)
  pub delete-others :
      (u r : String) (s : Store) → SameButAssignments (tables s) (tables (delete_user_role u r s).1)
  pub delete-pairs :
      (u r v q : String) (s : Store)
      → has_pair v q (tables (delete_user_role u r s).1).user_roles
        ≡ (not (str_eq v u && str_eq q r) && has_pair v q (tables s).user_roles)
  pub delete-count :
      (u r : String) (s : Store)
      → (delete_user_role u r s).0 ≡ (if has_pair u r (tables s).user_roles then 1 else 0)

-- What becomes of a statement or a commit: it works, fails, or takes effect but its answer is lost.
pub data Fault : Type 0 where
  works fails answer_lost : Fault

-- The durable state, and the faults to come: there are none after the last that is listed.
pub record Database (pg : Postgres) : Type 0 where
  pub store : pg.Store
  pub faults : List Fault

-- The durable state, and what the transaction made of it.
pub record Session (pg : Postgres) : Type 0 where
  pub committed : pg.Store
  pub working : pg.Store
  pub faults : List Fault

-- A frozenset of texts.
unfoldable pub frozenset : List String → List String
frozenset [] = []
frozenset (x ∷ xs) = let rest = frozenset xs in if has x rest then rest else x ∷ rest

module _ {pg : Postgres} where
  unfoldable pub statement_with :
      {A : Type 0} → List Fault → (pg.Store → A × pg.Store) → Action (Session pg) A
  statement_with [] f st =
      let r = f st.working in (ok r.0, record st { working = r.1; faults = [] })
  statement_with (works ∷ rest) f st =
      let r = f st.working in (ok r.0, record st { working = r.1; faults = rest })
  statement_with (fails ∷ rest) f st = (raised database_error, record st { faults = rest })
  statement_with (answer_lost ∷ rest) f st =
      (raised database_error, record st { working = (f st.working).1; faults = rest })

  -- session.execute of a statement that changes rows
  unfoldable pub execute : {A : Type 0} → (pg.Store → A × pg.Store) → Action (Session pg) A
  unfolding statement_with
  execute f st = statement_with st.faults f st

  -- session.execute of a SELECT
  unfoldable pub select : {A : Type 0} → (Tables → A) → Action (Session pg) A
  unfolding execute
  select f = execute (λ s. (f (pg.tables s), s))

  unfoldable pub commit_with : List Fault → Action (Session pg) (Unit {0})
  commit_with [] st = (ok tt, record st { committed = st.working; faults = [] })
  commit_with (works ∷ rest) st = (ok tt, record st { committed = st.working; faults = rest })
  commit_with (fails ∷ rest) st = (raised database_error, record st { faults = rest })
  commit_with (answer_lost ∷ rest) st =
      (raised database_error, record st { committed = st.working; faults = rest })

  unfoldable pub commit : Action (Session pg) (Unit {0})
  unfolding commit_with
  commit st = commit_with st.faults st

  unfoldable pub rollback_with : List Fault → Action (Session pg) (Unit {0})
  rollback_with [] st = (ok tt, record st { working = st.committed; faults = [] })
  rollback_with (works ∷ rest) st = (ok tt, record st { working = st.committed; faults = rest })
  rollback_with (_ ∷ rest) st =
      (raised database_error, record st { working = st.committed; faults = rest })

  unfoldable pub ignored : Exn → Action (Session pg) (Unit {0})
  ignored database_error st = (ok tt, st)
  ignored (integrity_error e) st = (ok tt, st)
  ignored e st = (raised e, st)

  unfoldable pub rollback_quietly : Action (Session pg) (Unit {0})
  unfolding rollback_with ignored
  rollback_quietly = try_except (λ st. rollback_with st.faults st) ignored

  -- `async with self._session_factory() as session`: what was not committed is lost.
  unfoldable pub in_session : {A : Type 0} → Action (Session pg) A → Action (Database pg) A
  in_session m d =
      let r = m (record { committed = d.store; working = d.store; faults = d.faults }) in
      (r.0, record { store = r.1.committed; faults = r.1.faults })

-- backend_error, for the exceptions that the `except` clauses name; the others pass.
unfoldable pub translated : {S A : Type 0} → Exn → Action S A
translated database_error = raise authorization_repository_backend_error
translated (integrity_error e) = raise authorization_repository_backend_error
translated e = raise e

-- The `try` around a commit.
unfoldable pub commit_failed : {pg : Postgres} → Exn → Action (Session pg) (Unit {0})
unfolding rollback_quietly
commit_failed database_error = rollback_quietly >> raise authorization_repository_backend_error
commit_failed (integrity_error e) = rollback_quietly >> raise authorization_repository_backend_error
commit_failed e = raise e
