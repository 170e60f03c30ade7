-- ===== src/Database/Roles/Queries.antt =====
-- The statements on permissions: the list of codes and the test of one agree, and the test depends on
-- which assignments there are, not on how they are stored.
use secure_api_gateway.Prelude.{
  ◌≡◌, ◌⊎◌, ◌≢◌, ◌↔◌, inl, inr, Bool, true, ◌&&◌, ◌||◌, String, List, [], ◌∷◌, ◌++◌, arith, refl,
  subst, ◌∙◌, Bool-cases,
}
use secure_api_gateway.Prelude.Lists.{any, any_congr, any-and}
use secure_api_gateway.Prelude.Sorting.{has}
use secure_api_gateway.Database.{Tables, has_pair, frozenset}
use secure_api_gateway.Database.Roles.{
  rows_of, where_row, select_permission_codes, permission_exists,
}
use secure_api_gateway.Database.Roles.Assigned.{IsAssigned, IsRemoved}
use text.Mathlib.Text.{◌==◌ as str_eq}
use text.Mathlib.TextEquality.{eq_iff}

pub has-frozenset : (k : String) (xs : List String) → has k (frozenset xs) ≡ has k xs
unfolding frozenset
has-frozenset k [] = refl
has-frozenset k (x ∷ xs) = ground (arith, has-frozenset k xs, eq_iff k x)

has-append : (k : String) (xs ys : List String) → has k (xs ++ ys) ≡ (has k xs || has k ys)
has-append k [] ys = refl
has-append k (x ∷ xs) ys = ground (arith, has-append k xs ys)

has-rows_of :
    {A : Type 0} (k : String) (f : A → List String) (rows : List A)
    → has k (rows_of f rows) ≡ any (λ a. has k (f a)) rows
unfolding rows_of
has-rows_of k f [] = refl
has-rows_of k f (a ∷ rows) =
    ground (arith, has-append k (f a) (rows_of f rows), has-rows_of k f rows)

has-where_row :
    (k : String) (condition : Bool) (value : String)
    → has k (where_row condition value) ≡ (condition && str_eq value k)
has-where_row k condition value = ground (arith, eq_iff k value, eq_iff value k)

-- Whether a role has a permission of that code.
abbrev pub grants : Tables → String → String → Bool
grants t role_id code =
    any
      (λ (role, permission).
        str_eq role role_id && any (λ (id, c). str_eq id permission && str_eq c code) t.permissions)
      t.role_permissions

code_rows :
    (user_id code user role role' permission : String) (t : Tables)
    → has code (
        rows_of
          (λ (permission_id, c).
            where_row
              (str_eq role' role && str_eq permission_id permission && str_eq user user_id)
              c)
          t.permissions)
      ≡ (str_eq user user_id
          && (str_eq role' role
              && any (λ (id, c). str_eq id permission && str_eq c code) t.permissions))
code_rows user_id code user role role' permission t =
    has-rows_of code _ t.permissions
    ∙ any_congr _
        (λ (id, c).
          (str_eq user user_id && str_eq role' role) && (str_eq id permission && str_eq c code))
        t.permissions
        (λ (id, c). ground (
          arith,
          has-where_row code (str_eq role' role && str_eq id permission && str_eq user user_id) c,
        ))
    ∙ any-and (str_eq user user_id && str_eq role' role) _ t.permissions
    ∙ ground arith

-- The list of a user's codes has those that the test accepts.
pub select_permission_codes-exists :
    (user_id code : String) (t : Tables)
    → has code (select_permission_codes user_id t) ≡ permission_exists user_id code t
unfolding select_permission_codes permission_exists
select_permission_codes-exists user_id code t =
    has-rows_of code _ t.user_roles
    ∙ any_congr _ _ t.user_roles (λ (user, role).
      has-rows_of code _ t.role_permissions
      ∙ any_congr _ _ t.role_permissions
          (λ (role', permission). code_rows user_id code user role role' permission t)
      ∙ any-and (str_eq user user_id) _ t.role_permissions)

any_pair :
    (p : String → Bool) (user_id : String) (rows : List (String × String))
    → any (λ (user, role). str_eq user user_id && p role) rows ≡ true
    → (role : String) × (has_pair user_id role rows ≡ true) × (p role ≡ true)
any_pair p user_id [] h = ground (arith, h)
any_pair p user_id ((user, role) ∷ rows) h = elim (Bool-cases (str_eq user user_id && p role)) [
  | inl e ↦ (
    role,
    ground (arith, e, eq_iff user user_id, eq_iff user_id user, eq_iff role role),
    ground (arith, e),
  )
  | inr e ↦
      let (found, has_it, holds) = any_pair p user_id rows (ground (arith, h, e)) in
      (found, ground (arith, has_it), holds)
]

pair_any :
    (p : String → Bool) (user_id role : String) (rows : List (String × String))
    → has_pair user_id role rows ≡ true
    → p role ≡ true
    → any (λ (user, role'). str_eq user user_id && p role') rows ≡ true
pair_any p user_id role [] h holds = ground (arith, h)
pair_any p user_id role ((user, role') ∷ rows) h holds =
    elim (Bool-cases (str_eq user_id user && str_eq role role')) [
      | inl e ↦
          let same : role ≡ role' = ground (arith, e, eq_iff role role') in
          let holds' : p role' ≡ true = subst (λ r. p r ≡ true) same holds in
          ground (arith, e, holds', eq_iff user_id user, eq_iff user user_id)
      | inr e ↦ ground (arith, pair_any p user_id role rows (ground (arith, h, e)) holds)
    ]

-- A user has a permission exactly through a role that grants it.
pub exists-through :
    (user_id code : String) (t : Tables)
    → permission_exists user_id code t ≡ true ↔ (
        (role : String) × (has_pair user_id role t.user_roles ≡ true) × (grants t role code ≡ true))
unfolding permission_exists
exists-through user_id code t = (
  any_pair (λ role. grants t role code) user_id t.user_roles,
  λ (role, has_it, granted).
      pair_any (λ role'. grants t role' code) user_id role t.user_roles has_it granted,
)

-- What an assignment adds to the permissions.
pub assigned-exists :
    (user_id role_id v code : String) (t u : Tables)
    → IsAssigned user_id role_id t u
    → permission_exists v code u ≡ true
      ↔ (((v ≡ user_id) × (grants t role_id code ≡ true)) ⊎ (permission_exists v code t ≡ true))
assigned-exists user_id role_id v code t u h = (
  λ e.
      let (role, has_it, granted) = (exists-through v code u).0 e in
      let granted' = rw (h.others.permissions, h.others.role_permissions) at granted in
      elim (Bool-cases (str_eq v user_id && str_eq role role_id)) [
        | inl same ↦
            let (a, b) : (v ≡ user_id) × (role ≡ role_id) =
              ground (arith, same, eq_iff v user_id, eq_iff role role_id) in
            inl (a, subst (λ r. grants t r code ≡ true) b granted')
        | inr other ↦ inr (
            (exists-through v code t).1
              (role, ground (arith, h.pairs v role, has_it, other), granted'))
      ],
  λ e. elim e [
    | inl (a, granted) ↦ (exists-through v code u).1 (
      role_id,
      ground (arith, h.pairs v role_id, a, eq_iff v user_id, eq_iff role_id role_id),
      rw (h.others.permissions, h.others.role_permissions) granted,
    )
    | inr before ↦
        let (role, has_it, granted) = (exists-through v code t).0 before in
        (exists-through v code u).1 (
          role,
          ground (arith, h.pairs v role, has_it),
          rw (h.others.permissions, h.others.role_permissions) granted,
        )
  ],
)

-- What a removal leaves of the permissions: those through another role.
pub removed-exists :
    (user_id role_id code : String) (t u : Tables)
    → IsRemoved user_id role_id t u
    → permission_exists user_id code u ≡ true ↔ (
        (role : String) × (role ≢ role_id)
        × (has_pair user_id role t.user_roles ≡ true)
        × (grants t role code ≡ true))
removed-exists user_id role_id code t u h = (
  λ e.
      let (role, has_it, granted) = (exists-through user_id code u).0 e in
      (
        role,
        λ same. ground (
          arith,
          h.pairs user_id role,
          has_it,
          eq_iff user_id user_id,
          eq_iff role role_id,
          same,
        ),
        ground (arith, h.pairs user_id role, has_it),
        rw (h.others.permissions, h.others.role_permissions) at granted,
      ),
  λ (role, other, has_it, granted). (exists-through user_id code u).1 (
    role,
    ground (arith, h.pairs user_id role, has_it, eq_iff role role_id, other),
    rw (h.others.permissions, h.others.role_permissions) granted,
  ),
)
