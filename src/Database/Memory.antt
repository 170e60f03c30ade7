-- ===== src/Database/Memory.antt =====
-- Tables in memory that meet the laws of the interface.
use secure_api_gateway.Prelude.{
  ℕ, ◌≡◌, true, not, ◌&&◌, ◌||◌, String, List, [], ◌∷◌, if◌then◌else◌, arith, refl,
}
use secure_api_gateway.Database.{Tables, has_pair, SameButAssignments, Postgres}
use text.Mathlib.Text.{◌==◌ as str_eq}
use text.Mathlib.TextEquality.{eq_iff}

unfoldable pub insert : String → String → Tables → ℕ × Tables
insert u r t =
    if has_pair u r t.user_roles
    then (0, t)
    else (1, record t { user_roles = (u, r) ∷ t.user_roles })

unfoldable pub without : String → String → List (String × String) → List (String × String)
without u r [] = []
without u r ((v, q) ∷ rows) =
    let rest = without u r rows in if str_eq u v && str_eq r q then rest else (v, q) ∷ rest

unfoldable pub delete : String → String → Tables → ℕ × Tables
unfolding without
delete u r t =
    (if has_pair u r t.user_roles then 1 else 0, record t { user_roles = without u r t.user_roles })

has_pair_same :
    (u r v q : String) (rows : List (String × String))
    → (str_eq v u && str_eq q r) ≡ true
    → has_pair v q rows ≡ has_pair u r rows
has_pair_same u r v q rows h =
    let e : (v ≡ u) × (q ≡ r) = ground (arith, h, eq_iff v u, eq_iff q r) in rw (e.0, e.1) refl

has_pair-without :
    (u r v q : String) (rows : List (String × String))
    → has_pair v q (without u r rows) ≡ (not (str_eq v u && str_eq q r) && has_pair v q rows)
unfolding without
has_pair-without u r v q [] = ground arith
has_pair-without u r v q ((a, b) ∷ rows) = ground (
  arith,
  has_pair-without u r v q rows,
  eq_iff u a,
  eq_iff r b,
  eq_iff v a,
  eq_iff q b,
  eq_iff v u,
  eq_iff q r,
)

pub insert_others : (u r : String) (t : Tables) → SameButAssignments t (insert u r t).1
unfolding insert
insert_others u r t = record {
  users = ground arith;
  roles = ground arith;
  permissions = ground arith;
  role_permissions = ground arith;
}

pub insert_pairs :
    (u r v q : String) (t : Tables)
    → has_pair v q (insert u r t).1.user_roles
      ≡ ((str_eq v u && str_eq q r) || has_pair v q t.user_roles)
unfolding insert
insert_pairs u r v q t = ground (arith, has_pair_same u r v q t.user_roles)

pub insert_count :
    (u r : String) (t : Tables) → (insert u r t).0 ≡ (if has_pair u r t.user_roles then 0 else 1)
unfolding insert
insert_count u r t = ground arith

pub delete_others : (u r : String) (t : Tables) → SameButAssignments t (delete u r t).1
unfolding delete
delete_others u r t = record {
  users = refl;
  roles = refl;
  permissions = refl;
  role_permissions = refl;
}

pub delete_pairs :
    (u r v q : String) (t : Tables)
    → has_pair v q (delete u r t).1.user_roles
      ≡ (not (str_eq v u && str_eq q r) && has_pair v q t.user_roles)
unfolding delete
delete_pairs u r v q t = has_pair-without u r v q t.user_roles

pub delete_count :
    (u r : String) (t : Tables) → (delete u r t).0 ≡ (if has_pair u r t.user_roles then 1 else 0)
unfolding delete
delete_count u r t = refl

abbrev pub memory : Postgres
memory = record {
  Store = Tables;
  tables = λ t. t;
  insert_user_role = insert;
  delete_user_role = delete;
  insert-others = insert_others;
  insert-pairs = insert_pairs;
  insert-count = insert_count;
  delete-others = delete_others;
  delete-pairs = delete_pairs;
  delete-count = delete_count;
}

-- Tables with data beside them that the two statements leave alone.
abbrev pub on_tables : {A B : Type 0} → (Tables → B × Tables) → Tables × A → B × (Tables × A)
on_tables f (t, a) = let r = f t in (r.0, (r.1, a))

abbrev pub memory_beside : Type 0 → Postgres
memory_beside A = record {
  Store = Tables × A;
  tables = λ s. s.0;
  insert_user_role = λ u r. on_tables (insert u r);
  delete_user_role = λ u r. on_tables (delete u r);
  insert-others = λ u r s. insert_others u r s.0;
  insert-pairs = λ u r v q s. insert_pairs u r v q s.0;
  insert-count = λ u r s. insert_count u r s.0;
  delete-others = λ u r s. delete_others u r s.0;
  delete-pairs = λ u r v q s. delete_pairs u r v q s.0;
  delete-count = λ u r s. delete_count u r s.0;
}
