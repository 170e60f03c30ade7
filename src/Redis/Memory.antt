-- ===== src/Redis/Memory.antt =====
-- A store in memory that meets the laws of the interface.
use secure_api_gateway.Prelude.{
  ℕ, ◌-◌, ◌<◌, ◌≡◌, ◌&&◌, Option, none, some, String, if◌then◌else◌, leb, arith,
}
use secure_api_gateway.Redis.{Redis}
use text.Mathlib.Text.{◌==◌}
use text.Mathlib.TextEquality.{eq_iff}

pub record Entry : Type 0 where
  pub fields : String → Option ℕ
  pub ttl : Option ℕ

abbrev pub Table : Type 0
Table = String → Option Entry

unfoldable pub fields_of : Option Entry → String → Option ℕ
fields_of none g = none
fields_of (some e) g = e.fields g

unfoldable pub ttl_of : Option Entry → Option ℕ
ttl_of none = none
ttl_of (some e) = e.ttl

unfoldable pub assign : Table → String → Option Entry → Table
assign s k e j = if k == j then e else s j

unfoldable pub removed : Option Entry → ℕ
removed none = 0
removed (some e) = 1

unfoldable pub aged : ℕ → Option Entry → Option Entry
aged d none = none
aged d (some e) = elim e.ttl [
  | none ↦ some e
  | some t ↦ if leb d t then some (record e { ttl = some (t - d) }) else none
]

unfoldable pub expiring : ℕ → Option Entry → Option Entry
expiring n none = none
expiring n (some e) = some (record e { ttl = some n })

abbrev pub get : Table → String → String → Option ℕ
get s k g = fields_of (s k) g

unfoldable pub set : Table → String → String → Option ℕ → Table
unfolding assign fields_of ttl_of
set s k f v =
    assign s k
      (some (record { fields = λ g. if f == g then v else fields_of (s k) g; ttl = ttl_of (s k) }))

pub set_law :
    (s : Table) (k j f g : String) (v : Option ℕ)
    → get (set s k f v) j g ≡ (if k == j && f == g then v else get s j g)
unfolding set
set_law s k j f g v = ground (arith, eq_iff k j, eq_iff f g)

pub del_law :
    (s : Table) (k j g : String) → get (assign s k none) j g ≡ (if k == j then none else get s j g)
unfolding assign fields_of
del_law s k j g = ground (arith, eq_iff k j)

pub pexpire_law :
    (s : Table) (k j g : String) (n : ℕ)
    → 0 < n
    → get (assign s k (expiring n (s k))) j g ≡ get s j g
unfolding assign fields_of expiring
pexpire_law s k j g n h = ground (arith, eq_iff k j)

pub ttl_law :
    (s : Table) (k f : String) (n v : ℕ)
    → get s k f ≡ some v
    → ttl_of (assign s k (expiring n (s k)) k) ≡ some n
unfolding assign fields_of expiring ttl_of
ttl_law s k f n v h = ground (arith, eq_iff k k)

pub within_law :
    (s : Table) (k g : String) (t d : ℕ)
    → ttl_of (s k) ≡ some t
    → d < t
    → fields_of (aged d (s k)) g ≡ get s k g
unfolding fields_of aged ttl_of
within_law s k g t d h lt = ground arith

pub past_law :
    (s : Table) (k g : String) (t d : ℕ)
    → ttl_of (s k) ≡ some t
    → t < d
    → fields_of (aged d (s k)) g ≡ none
unfolding fields_of aged ttl_of
past_law s k g t d h lt = ground arith

pub none_law :
    (s : Table) (k g : String) (d : ℕ) → get s k g ≡ none → fields_of (aged d (s k)) g ≡ none
unfolding fields_of aged
none_law s k g d h = ground arith

pub some_law :
    (s : Table) (k g : String) (d v : ℕ) → fields_of (aged d (s k)) g ≡ some v → get s k g ≡ some v
unfolding fields_of aged
some_law s k g d v h = ground arith

abbrev pub memory : Redis
memory = record {
  Store = Table;
  hget = get;
  hset = λ s k f v. set s k f (some v);
  hdel = λ s k f. set s k f none;
  del = λ s k. (removed (s k), assign s k none);
  pexpire = λ s k n. assign s k (expiring n (s k));
  ttl = λ s k. ttl_of (s k);
  wait = λ d s k. aged d (s k);
  hget-hset = λ s k j f g v. set_law s k j f g (some v);
  hget-hdel = λ s k j f g. set_law s k j f g none;
  hget-del = del_law;
  hget-pexpire = pexpire_law;
  ttl-pexpire = ttl_law;
  hget-wait_within = within_law;
  hget-wait_past = past_law;
  hget-wait_none = none_law;
  hget-wait_some = some_law;
}

-- The store that holds nothing.
abbrev pub vacant : Table
vacant k = none
