-- ===== src/Database/Roles/Lookups.antt =====
-- What _get_role_id and _require_user find, whatever faults there are.
use secure_api_gateway.Prelude.{
  ◌≡◌, ◌⊎◌, inl, inr, none, some, String, List, [], ◌∷◌, arith, refl, sym, subst, ap, ◌∙◌,
}
use secure_api_gateway.Http.{
  Exn, Result-cases, ok, raised, database_error, role_not_found_error,
  user_authorization_not_found_error, role_name_policy_error, ◌>>=◌,
}
use secure_api_gateway.Authorization.RoleNames.{normalize_role_name}
use secure_api_gateway.Database.{Tables, Postgres, Session, select}
use secure_api_gateway.Database.Sessions.{SameCommitted, select-cases}
use secure_api_gateway.Database.Roles.{
  scalar_one_or_none, select_role_ids, select_user_ids, known_role, known_user, get_role_id,
  require_user,
}

pub scalar_cases :
    {A : Type 0} (xs : List A)
    → ((xs ≡ []) × (scalar_one_or_none xs ≡ ok none))
      ⊎ ((x : A) × (xs ≡ x ∷ []) × (scalar_one_or_none xs ≡ ok (some x)))
      ⊎ (scalar_one_or_none xs ≡ raised database_error)
unfolding scalar_one_or_none
scalar_cases [] = inl (refl, refl)
scalar_cases (x ∷ []) = inr (inl (x, refl, refl))
scalar_cases (x ∷ y ∷ xs) = inr (inr refl)

-- The exceptions within a session that changes roles, each with its cause: the name has no normal
-- form, no role has that name, there is no such user, or the backend failed.
pub data IsRefusal (normalize : String → String) (user_id name : String) (t : Tables)
    : Exn → Type 0 where
  bad_name :
      normalize_role_name normalize name ≡ raised role_name_policy_error
      → IsRefusal normalize user_id name t role_name_policy_error
  no_role :
      (role : String)
      → normalize_role_name normalize name ≡ ok role
      → select_role_ids role t ≡ []
      → IsRefusal normalize user_id name t role_not_found_error
  no_user :
      select_user_ids user_id t ≡ []
      → IsRefusal normalize user_id name t user_authorization_not_found_error
  failed : IsRefusal normalize user_id name t database_error

-- A step that reads: it makes nothing durable, and leaves the transaction as it was.
abbrev pub Reads : {pg : Postgres} → Session pg → Session pg → Type 0
Reads st st' = SameCommitted st st' × (st'.working ≡ st.working)

policy_only :
    (normalize : String → String) (name : String) (e : Exn)
    → normalize_role_name normalize name ≡ raised e
    → e ≡ role_name_policy_error
unfolding normalize_role_name
policy_only normalize name e h = ground (arith, h)

-- The role that a name stands for.
pub record IsRole (normalize : String → String) (name role_id : String) (t : Tables) : Type 0 where
  pub role : String
  pub named : normalize_role_name normalize name ≡ ok role
  pub only : select_role_ids role t ≡ role_id ∷ []

-- The identifier is that of one user.
abbrev pub IsUser : String → Tables → Type 0
IsUser user_id t = (id : String) × (select_user_ids user_id t ≡ id ∷ [])

-- The name stands for the role, and the identifier is that of a user.
pub record IsTarget (normalize : String → String) (user_id name role_id : String) (t : Tables)
    : Type 0 where
  pub is_role : IsRole normalize name role_id t
  pub is_user : IsUser user_id t

module _ {pg : Postgres} (normalize : String → String) (user_id name : String) where
  role_id_cases :
      (role : String) (st : Session pg)
      → normalize_role_name normalize name ≡ ok role
      → let (r, st') = get_role_id pg normalize name st in
        Reads st st'
        × (((role_id : String) × (r ≡ ok role_id)
              × (select_role_ids role (pg.tables st.working) ≡ role_id ∷ []))
            ⊎ ((e : Exn) × (r ≡ raised e)
                × IsRefusal normalize user_id name (pg.tables st.working) e))
  unfolding get_role_id known_role select
  role_id_cases role st h =
      let (same, kept, answer) = select-cases (select_role_ids role) st in
      elim answer [
        | inr e ↦ rw (h, e) ((same, kept), inr (database_error, refl, failed))
        | inl e ↦ elim (scalar_cases (select_role_ids role (pg.tables st.working))) [
          | inl (none_found, s) ↦
              rw (h, e, s)
                ((same, kept), inr (role_not_found_error, refl, no_role role h none_found))
          | inr (inl (role_id, only, s)) ↦ rw (h, e, s) ((same, kept), inl (role_id, refl, only))
          | inr (inr s) ↦ rw (h, e, s) ((same, kept), inr (database_error, refl, failed))
        ]
      ]

  role_id_refused :
      (e : Exn) (st : Session pg)
      → normalize_role_name normalize name ≡ raised e
      → get_role_id pg normalize name st ≡ (raised e, st)
  unfolding get_role_id
  role_id_refused e st h = rw h refl

  pub IsUser-cases :
      (st : Session pg)
      → let (r, st') = require_user pg normalize user_id st in
        Reads st st'
        × (((r ≡ ok tt) × IsUser user_id (pg.tables st.working))
            ⊎ ((e : Exn) × (r ≡ raised e)
                × IsRefusal normalize user_id name (pg.tables st.working) e))
  unfolding require_user known_user select
  IsUser-cases st =
      let (same, kept, answer) = select-cases (select_user_ids user_id) st in
      elim answer [
        | inr e ↦ rw (e, ◌>>=◌) ((same, kept), inr (database_error, refl, failed))
        | inl e ↦ elim (scalar_cases (select_user_ids user_id (pg.tables st.working))) [
          | inl (none_found, s) ↦
              rw (e, ◌>>=◌, s)
                ((same, kept), inr (user_authorization_not_found_error, refl, no_user none_found))
          | inr (inl (id, only, s)) ↦ rw (e, ◌>>=◌, s) ((same, kept), inl (refl, (id, only)))
          | inr (inr s) ↦ rw (e, ◌>>=◌, s) ((same, kept), inr (database_error, refl, failed))
        ]
      ]

  pub IsRole-cases :
      (st : Session pg)
      → let (r, st') = get_role_id pg normalize name st in
        Reads st st'
        × (((role_id : String) × (r ≡ ok role_id)
              × IsRole normalize name role_id (pg.tables st.working))
            ⊎ ((e : Exn) × (r ≡ raised e)
                × IsRefusal normalize user_id name (pg.tables st.working) e))
  IsRole-cases st = elim (Result-cases (normalize_role_name normalize name)) [
    | inl (role, h) ↦
        let (reads, answer) = role_id_cases role st h in
        (
          reads,
          elim answer [
            | inl (role_id, e, only) ↦
                inl (role_id, e, record { role = role; named = h; only = only })
            | inr refused ↦ inr refused
          ],
        )
    | inr (e, h) ↦ rw (role_id_refused e st h) (
      (refl, refl),
      inr (
        e,
        refl,
        subst (IsRefusal normalize user_id name (pg.tables st.working))
            (sym (policy_only normalize name e h))
            (bad_name (h ∙ ap raised (policy_only normalize name e h))),
      ),
    )
  ]
