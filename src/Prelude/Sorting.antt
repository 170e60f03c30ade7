-- ===== src/Prelude/Sorting.antt =====
-- `sorted` on texts, which Python compares by their code points, and membership of a text in a list.
use Prim.Native.String.{String}
use mathlib.Core.Path.{◌≡◌, refl}
use mathlib.Core.Logic.{inl, inr}
use mathlib.Core.Bool.{Bool, true, false, ◌&&◌, ◌||◌}
use mathlib.Core.List.{List, [], ◌∷◌}
use native.Mathlib.Omega.{arith}
use package.text.Mathlib.Text.{◌==◌ as str_eq}
use secure_api_gateway.Prelude.Tests.{ltb, ◌==◌, if◌then◌else◌, Bool-cases}
use secure_api_gateway.Prelude.Lists.{All, any}
use secure_api_gateway.Prelude.Texts.{Text, text}

unfoldable pub text_le : Text → Text → Bool
text_le [] t = true
text_le (a ∷ s) [] = false
text_le (a ∷ s) (b ∷ t) = ltb a b || (a == b && text_le s t)

unfoldable pub string_le : String → String → Bool
string_le s t = text_le (text s) (text t)

unfoldable pub insert_sorted : String → List String → List String
insert_sorted x [] = x ∷ []
insert_sorted x (y ∷ ys) =
    let rest = insert_sorted x ys in if string_le x y then x ∷ y ∷ ys else y ∷ rest

unfoldable pub sorted : List String → List String
unfolding insert_sorted
sorted [] = []
sorted (x ∷ xs) = insert_sorted x (sorted xs)

-- `text in texts`
abbrev pub has : String → List String → Bool
has k = any (str_eq k)

-- Each is at most all that follow.
abbrev pub IsSorted : List String → Type 0
IsSorted [] = Unit
IsSorted (x ∷ xs) = All (λ y. string_le x y ≡ true) xs × IsSorted xs

text_le_trans : (a b c : Text) → text_le a b ≡ true → text_le b c ≡ true → text_le a c ≡ true
unfolding text_le
text_le_trans [] b c h k = refl
text_le_trans (x ∷ a) [] c h k = ground (arith, h)
text_le_trans (x ∷ a) (y ∷ b) [] h k = ground (arith, k)
text_le_trans (x ∷ a) (y ∷ b) (z ∷ c) h k = ground (arith, h, k, text_le_trans a b c)

text_le_total : (a b : Text) → text_le a b ≡ false → text_le b a ≡ true
unfolding text_le
text_le_total [] b h = ground (arith, h)
text_le_total (x ∷ a) [] h = refl
text_le_total (x ∷ a) (y ∷ b) h = ground (arith, h, text_le_total a b)

string_le_total : (x y : String) → string_le x y ≡ false → string_le y x ≡ true
unfolding string_le
string_le_total x y e = text_le_total (text x) (text y) e

All-weaken :
    (x y : String) (ys : List String)
    → string_le x y ≡ true
    → All (λ z. string_le y z ≡ true) ys
    → All (λ z. string_le x z ≡ true) ys
unfolding string_le
All-weaken x y [] h a = tt
All-weaken x y (z ∷ zs) h a =
    (text_le_trans (text x) (text y) (text z) h a.0, All-weaken x y zs h a.1)

All-insert :
    (P : String → Type 0) (x : String) (ys : List String)
    → P x
    → All P ys
    → All P (insert_sorted x ys)
unfolding insert_sorted
All-insert P x [] p a = (p, tt)
All-insert P x (y ∷ ys) p a = elim (Bool-cases (string_le x y)) [
  | inl e ↦ rw e (p, a)
  | inr e ↦ rw e (a.0, All-insert P x ys p a.1)
]

insert-IsSorted : (x : String) (ys : List String) → IsSorted ys → IsSorted (insert_sorted x ys)
unfolding insert_sorted
insert-IsSorted x [] h = (tt, tt)
insert-IsSorted x (y ∷ ys) h = elim (Bool-cases (string_le x y)) [
  | inl e ↦ rw e ((e, All-weaken x y ys e h.0), h)
  | inr e ↦ rw e (
    All-insert (λ z. string_le y z ≡ true) x ys (string_le_total x y e) h.0,
    insert-IsSorted x ys h.1,
  )
]

pub sorted-IsSorted : (xs : List String) → IsSorted (sorted xs)
unfolding sorted
sorted-IsSorted [] = tt
sorted-IsSorted (x ∷ xs) = insert-IsSorted x (sorted xs) (sorted-IsSorted xs)

has-insert :
    (k x : String) (ys : List String) → has k (insert_sorted x ys) ≡ (str_eq k x || has k ys)
unfolding insert_sorted
has-insert k x [] = refl
has-insert k x (y ∷ ys) = ground (arith, has-insert k x ys)

pub has-sorted : (k : String) (xs : List String) → has k (sorted xs) ≡ has k xs
unfolding sorted
has-sorted k [] = refl
has-sorted k (x ∷ xs) = ground (arith, has-insert k x (sorted xs), has-sorted k xs)
