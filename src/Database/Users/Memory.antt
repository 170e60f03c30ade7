-- ===== src/Database/Users/Memory.antt =====
-- Tables in memory, with the columns of the users, that meet the laws of both interfaces.
use secure_api_gateway.Prelude.{
  ℕ, ◌≡◌, ◌⊎◌, Bool, true, false, ◌||◌, Option, none, some, String, List, [], ◌∷◌, if◌then◌else◌,
  arith, refl, Bool-cases, inl, inr, ap, ◌∙◌,
}
use secure_api_gateway.Prelude.Lists.{any, length}
use secure_api_gateway.Prelude.Sorting.{has}
use secure_api_gateway.Prelude.Texts.{is_empty}
use secure_api_gateway.Http.{IntegrityError}
use secure_api_gateway.Auth.Service.{StoredUser}
use secure_api_gateway.Database.{Tables, Postgres}
use secure_api_gateway.Database.Memory.{memory_beside}
use secure_api_gateway.Database.Users.{UserQueries, is_unique_violation, is_violation, sqlstate_of}
use text.Mathlib.Text.{◌==◌ as str_eq}
use text.Mathlib.TextEquality.{eq_iff}

abbrev pub Store : Type 0
Store = Tables × List StoredUser

abbrev pub memory : Postgres
memory = memory_beside (List StoredUser)

-- The errors of PostgreSQL for a row that is not unique, and for one that refers to nothing.
abbrev coded : String → IntegrityError
coded code = record {
  orig = some (record { sqlstate = some code; pgcode = none });
  cause = none;
  context = none;
}

unfoldable pub named : String → List StoredUser → List StoredUser
named name [] = []
named name (u ∷ us) = let rest = named name us in if str_eq u.username name then u ∷ rest else rest

unfoldable pub insert_user : StoredUser → String → Store → Option IntegrityError × Store
insert_user u r (t, us) =
    if any (λ v. str_eq v.username u.username) us || has u.id t.users
    then (some (coded "23505"), (t, us))
    else if any (λ (id, name). str_eq id r) t.roles
    then (
      none,
      (record t { users = u.id ∷ t.users; user_roles = (u.id, r) ∷ t.user_roles }, u ∷ us),
    )
    else (some (coded "23503"), (t, us))

abbrev pub with_hash : String → String → StoredUser → StoredUser
with_hash id hash u = if str_eq u.id id then record u { hashed_password = hash } else u

unfoldable pub rehash : String → String → List StoredUser → List StoredUser
rehash id hash [] = []
rehash id hash (u ∷ us) = with_hash id hash u ∷ rehash id hash us

unfoldable pub update_hash : String → String → Store → ℕ × Store
unfolding rehash
update_hash id hash (t, us) =
    (if any (λ u. str_eq u.id id) us then 1 else 0, (t, rehash id hash us))

pub named_none :
    (name : String) (us : List StoredUser)
    → any (λ v. str_eq v.username name) us ≡ false
    → named name us ≡ []
unfolding named
named_none name [] h = refl
named_none name (u ∷ us) h = ground (arith, h, named_none name us)

named_some :
    (name : String) (us : List StoredUser)
    → any (λ v. str_eq v.username name) us ≡ true
    → (v : StoredUser) × (vs : List StoredUser) × (named name us ≡ v ∷ vs)
unfolding named
named_some name [] h = ground (arith, h)
named_some name (u ∷ us) h = elim (Bool-cases (str_eq u.username name)) [
  | inl e ↦ (u, named name us, rw e refl)
  | inr e ↦ rw e (named_some name us (ground (arith, h, e)))
]

named-rehash :
    (id hash name : String) (us : List StoredUser)
    → named name (rehash id hash us) ≡ rehash id hash (named name us)
unfolding named rehash
named-rehash id hash name [] = refl
named-rehash id hash name (u ∷ us) = ground (arith, named-rehash id hash name us)

abbrev is_taken : StoredUser → Store → Bool
is_taken u (t, us) = any (λ v. str_eq v.username u.username) us || has u.id t.users

-- The tables with a new user.
abbrev with_user : StoredUser → String → Store → Store
with_user u r (t, us) =
    (record t { users = u.id ∷ t.users; user_roles = (u.id, r) ∷ t.user_roles }, u ∷ us)

insert_cases :
    (u : StoredUser) (r : String) (s : Store)
    → ((insert_user u r s ≡ (none, with_user u r s)) × (is_taken u s ≡ false))
      ⊎ ((insert_user u r s ≡ (some (coded "23505"), s)) × (is_taken u s ≡ true))
      ⊎ (insert_user u r s ≡ (some (coded "23503"), s))
unfolding insert_user
insert_cases u r (t, us) = elim (Bool-cases (is_taken u (t, us))) [
  | inl e ↦ inr (inl (rw e refl, e))
  | inr e ↦ elim (Bool-cases (any (λ (id, name). str_eq id r) t.roles)) [
    | inl f ↦ inl (rw (e, f) refl, e)
    | inr f ↦ inr (inr (rw (e, f) refl))
  ]
]

pub inserted :
    (u : StoredUser) (r : String) (s : Store)
    → (insert_user u r s).0 ≡ none
    → ((insert_user u r s).1 ≡ with_user u r s) × (is_taken u s ≡ false)
inserted u r s h = elim (insert_cases u r s) [
  | inl (e, free) ↦ (ap (λ p. p.1) e, free)
  | inr (inl (e, _)) ↦ ground (arith, h, e)
  | inr (inr e) ↦ ground (arith, h, e)
]

pub inserted_unique :
    (u : StoredUser) (r : String) (s : Store)
    → (insert_user u r s).0 ≡ none
    → named u.username s.1 ≡ []
inserted_unique u r (t, us) h =
    named_none u.username us (ground (arith, (inserted u r (t, us) h).1))

foreign_key : is_unique_violation (coded "23503") ≡ false
unfolding is_unique_violation is_violation sqlstate_of is_empty
foreign_key = refl

pub violated :
    (u : StoredUser) (r : String) (s : Store) (e : IntegrityError)
    → (insert_user u r s).0 ≡ some e
    → is_unique_violation e ≡ true
    → has u.id s.0.users ≡ false
    → (v : StoredUser) × (vs : List StoredUser) × (named u.username s.1 ≡ v ∷ vs)
violated u r (t, us) x h unique fresh = elim (insert_cases u r (t, us)) [
  | inl (e, free) ↦ ground (arith, h, e)
  | inr (inl (e, held)) ↦ named_some u.username us (ground (arith, held, fresh))
  | inr (inr e) ↦
      let same : x ≡ coded "23503" = ground (arith, h, e) in
      ground (arith, foreign_key, unique, ap is_unique_violation same)
]

pub named_inserted :
    (u : StoredUser) (r name : String) (s : Store)
    → (insert_user u r s).0 ≡ none
    → named name (insert_user u r s).1.1
      ≡ (if str_eq name u.username then u ∷ named name s.1 else named name s.1)
unfolding named
named_inserted u r name (t, us) h =
    rw ((inserted u r (t, us) h).0) (ground (arith, eq_iff name u.username, eq_iff u.username name))

pub rehashed :
    (id hash name : String) (s : Store) (u : StoredUser)
    → named name s.1 ≡ u ∷ []
    → named name (update_hash id hash s).1.1 ≡ with_hash id hash u ∷ []
unfolding update_hash rehash
rehashed id hash name (t, us) u h = named-rehash id hash name us ∙ ap (rehash id hash) h

pub update_kept : (id hash : String) (s : Store) → (update_hash id hash s).1.0 ≡ s.0
unfolding update_hash
update_kept id hash (t, us) = refl

abbrev pub queries : UserQueries memory
queries = record {
  users_named = λ name s. named name s.1;
  count_users = λ s. length s.1;
  insert_user = insert_user;
  update_hash = update_hash;
  insert-unique = inserted_unique;
  insert-violation = violated;
  insert-named = named_inserted;
  insert-role = λ u r s h. rw ((inserted u r s h).0) refl;
  insert-others = λ u r s h. rw ((inserted u r s h).0) (refl, refl, refl);
  update-named = rehashed;
  update-tables = update_kept;
}
