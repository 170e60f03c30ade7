-- ===== src/Circuit/Registry.antt =====
-- The circuits of the registered services: class CircuitBreakerRegistry of
-- gateway/app/proxy/resilience.py. The breakers are shared objects, so the registry is the store
-- that holds the state of each.
use secure_api_gateway.Prelude.{
  String, ◌≡◌, refl, Bool, false, ◌||◌, Option, none, some, List, [], ◌∷◌, map, arith, inl, inr,
  Option-cases, if◌then◌else◌,
}
use secure_api_gateway.Prelude.Dict
use secure_api_gateway.Prelude.Dict.{Dict, get-put}
use secure_api_gateway.Circuit.{Circuit, init}
use mathlib.Core.Option
use text.Mathlib.Text.{◌==◌}
use text.Mathlib.TextEquality.{eq_iff}

abbrev pub Registry : Type 0
Registry = Dict Circuit

-- `dict.fromkeys(service_names)`: each name once, in the order of its first occurrence.
from_keys : List String → Dict (Unit {0}) → Dict (Unit {0})
from_keys [] d = d
from_keys (k ∷ ks) d = from_keys ks (Dict.put k tt d)

-- The dict comprehension over the names.
breakers_of : List String → Registry → Registry
breakers_of [] d = d
breakers_of (k ∷ ks) d = breakers_of ks (Dict.put k init d)

names_of : List String → List String
unfolding from_keys
names_of service_names = map (λ (e : String × Unit {0}). e.0) (from_keys service_names [])

-- The test for an empty tuple of names, and the breakers.
create_names : List String → Option Registry
unfolding breakers_of
create_names [] = none
create_names (name ∷ names) = some (breakers_of (name ∷ names) [])

-- The constructor, or none for its ValueError.
unfoldable pub create : List String → Option Registry
unfolding names_of create_names
create service_names = create_names (names_of service_names)

-- `get`, or none for its LookupError.
unfoldable pub find : String → Registry → Option Circuit
find name r = Dict.get name r

-- A method call on the breaker that `get` returned.
unfoldable pub update : String → (Circuit → Circuit) → Registry → Registry
update name f r = elim (Dict.get name r) [ none ↦ r | some c ↦ Dict.put name (f c) r ]

-- Whether a name is among those supplied.
abbrev pub is_among : String → List String → Bool
is_among name [] = false
is_among name (k ∷ ks) = k == name || is_among name ks

get-breakers_of :
    (name : String) (ks : List String) (d : Registry)
    → Dict.get name (breakers_of ks d) ≡ (if is_among name ks then some init else Dict.get name d)
unfolding breakers_of
get-breakers_of name [] d = refl
get-breakers_of name (k ∷ ks) d =
    ground (arith, get-breakers_of name ks (Dict.put k init d), get-put k name init d)

is_among-put :
    (name k : String) (d : Dict (Unit {0}))
    → is_among name (map (λ (e : String × Unit {0}). e.0) (Dict.put k tt d))
      ≡ (k == name || is_among name (map (λ (e : String × Unit {0}). e.0) d))
unfolding Dict.put
is_among-put name k [] = refl
is_among-put name k ((j, u) ∷ d) =
    ground (arith, is_among-put name k d, eq_iff j k, eq_iff j name, eq_iff k name)

is_among-from_keys :
    (name : String) (ks : List String) (d : Dict (Unit {0}))
    → is_among name (map (λ (e : String × Unit {0}). e.0) (from_keys ks d))
      ≡ (is_among name ks || is_among name (map (λ (e : String × Unit {0}). e.0) d))
unfolding from_keys
is_among-from_keys name [] d = refl
is_among-from_keys name (k ∷ ks) d =
    ground (arith, is_among-from_keys name ks (Dict.put k tt d), is_among-put name k d)

is_among-names_of :
    (name : String) (ks : List String) → is_among name (names_of ks) ≡ is_among name ks
unfolding names_of
is_among-names_of name ks = ground (arith, is_among-from_keys name ks [])

find-create_names :
    (name : String) (ks : List String) (r : Registry)
    → create_names ks ≡ some r
    → find name r ≡ (if is_among name ks then some init else none)
unfolding create_names find Dict.get
find-create_names name [] r e = cc
find-create_names name (k ∷ ks) r e = ground (arith, get-breakers_of name (k ∷ ks) [])

-- A registry that was created finds a breaker for exactly the names supplied, whatever their order
-- and however often each is given, and every breaker starts in the initial state.
pub find-create :
    (names : List String) (r : Registry) (name : String)
    → create names ≡ some r
    → find name r ≡ (if is_among name names then some init else none)
find-create names r name e =
    rw (← is_among-names_of name names)
      (find-create_names name (names_of names) r (unfold create in e))

-- A call on the breaker of one service changes that breaker alone: a service found before is found
-- with the new state, every other service as it was, and no service is added or lost.
pub find-update :
    (name other : String) (f : Circuit → Circuit) (r : Registry)
    → find other (update name f r)
      ≡ (if name == other then Option.map f (find name r) else find other r)
unfolding find update
find-update name other f r = elim (Option-cases (Dict.get name r)) [
  | inl missing ↦ ground (arith, eq_iff name other)
  | inr (c, found) ↦ ground (arith, get-put name other (f c) r)
]
