-- ===== src/RateLimit/Bucket/Scripts.antt =====
-- The script treats a key as the abstract bucket.
use secure_api_gateway.Prelude.{
  ℕ, ◌+◌, ◌-◌, ◌*◌, ◌<◌, ◌≡◌, ◌≢◌, min, true, false, Option, none, some, String, leb, ◌==◌,
  if◌then◌else◌, ceil_div, arith, refl, Bool-cases, inl, inr,
}
use secure_api_gateway.Redis.{Redis}
use secure_api_gateway.RateLimit.Bucket.{
  Policy, unit, Reply, reply, tokens_field, last_refill_field, stored_or_full, store_bucket,
  take_tokens, token_bucket,
}
use secure_api_gateway.RateLimit.Bucket.Level.{Bucket, level, left}
use text.Mathlib.Text.{◌==◌ as str_eq}
use text.Mathlib.TextEquality.{eq_iff}

-- The bucket that two fields stand for.
abbrev pub bucket_of : Option ℕ → Option ℕ → Option Bucket
bucket_of (some tokens) (some last_refill) =
    some (record { tokens = tokens; last_refill = last_refill })
bucket_of _ _ = none

-- What a script of a bucket replies: whether the request was allowed, what is left, and when the
-- request would be allowed and the bucket be full.
unfoldable pub report : ℕ → ℕ → ℕ → ℕ → Reply
report full refill requested here =
    if leb requested here
    then reply 1 (here - requested) 0 (ceil_div (full - (here - requested)) refill)
    else reply 0 here (ceil_div (requested - here) refill) (ceil_div (full - here) refill)

refilled_level :
    (full refill now : ℕ) (tokens last_refill : Option ℕ)
    → let (units, last) = stored_or_full full now tokens last_refill in
      min full (units + (now - last) * refill)
      ≡ level full refill now (bucket_of tokens last_refill)
unfolding stored_or_full level
refilled_level full refill now (some t) (some l) = refl
refilled_level full refill now none l = ground arith
refilled_level full refill now (some t) none = ground arith

pub same_key : (key : String) → str_eq key key ≡ true
same_key key = ground (arith, eq_iff key key)

module _ (redis : Redis) where
  open redis use {Store, hget, hset, pexpire, hget-hset, hget-pexpire}

  abbrev pub view : Store → String → Option Bucket
  view st key = bucket_of (hget st key tokens_field) (hget st key last_refill_field)

  store-view :
      (key : String) (tokens now ttl : ℕ) (st : Store)
      → 0 < ttl
      → view (store_bucket redis key tokens now ttl st) key
        ≡ some (record { tokens = tokens; last_refill = now })
  unfolding store_bucket
  store-view key tokens now ttl st h =
      let first = hset st key tokens_field tokens in
      let second = hset first key last_refill_field now in
      simp (
        hget-pexpire second key key tokens_field ttl h,
        hget-pexpire second key key last_refill_field ttl h,
        hget-hset first key key last_refill_field tokens_field now,
        hget-hset first key key last_refill_field last_refill_field now,
        hget-hset st key key tokens_field tokens_field tokens,
        same_key key,
      )

  store-other :
      (key other : String) (tokens now ttl : ℕ) (st : Store) (g : String)
      → 0 < ttl
      → key ≢ other
      → hget (store_bucket redis key tokens now ttl st) other g ≡ hget st other g
  unfolding store_bucket
  store-other key other tokens now ttl st g h ne =
      let first = hset st key tokens_field tokens in
      let second = hset first key last_refill_field now in
      ground (
        arith,
        hget-pexpire second key other g ttl h,
        hget-hset first key other last_refill_field g now,
        hget-hset st key other tokens_field g tokens,
        eq_iff key other,
        ne,
      )

  module _ (key : String) (full refill requested now ttl : ℕ) (st : Store) where
    abbrev here : ℕ
    here = level full refill now (view st key)

    take-refines :
        0 < ttl
        → let (r, st') = take_tokens redis key full refill requested now ttl st in
          (view st' key
            ≡ some (record {
              tokens = left full refill requested now (view st key);
              last_refill = now;
            }))
          × (r ≡ report full refill requested here)
          × ((other : String) → key ≢ other → view st' other ≡ view st other)
    unfolding take_tokens left report
    take-refines h =
        let same =
          refilled_level full refill now (hget st key tokens_field)
            (hget st key last_refill_field) in
        elim (Bool-cases (leb requested here)) [
          | inl e ↦
              rw (same, e)
                (
                  store-view key (here - requested) now ttl st h,
                  refl,
                  λ other ne. simp (
                    store-other key other (here - requested) now ttl st tokens_field h ne,
                    store-other key other (here - requested) now ttl st last_refill_field h ne,
                  ),
                )
          | inr e ↦
              rw (same, e)
                (
                  store-view key here now ttl st h,
                  refl,
                  λ other ne. simp (
                    store-other key other here now ttl st tokens_field h ne,
                    store-other key other here now ttl st last_refill_field h ne,
                  ),
                )
        ]

  -- What a policy needs for the script to accept it.
  pub record IsUsable (p : Policy) (ttl : ℕ) : Type 0 where
    pub capacity : 0 < p.capacity
    pub rate : 0 < p.numerator
    pub cost : 0 < p.cost
    pub ttl_positive : 0 < ttl

  -- With a capacity, a rate, a cost and a lifetime above zero, the script replies with what the
  -- bucket of its key is at that time and whether it allowed the request, and stores what the
  -- request leaves; no other bucket changes.
  pub token_bucket-refines :
      (key : String) (p : Policy) (now ttl : ℕ) (st : Store)
      → IsUsable p ttl
      → let (r, st') = token_bucket redis key p now ttl st in
        let full = p.capacity * unit p in
        let requested = p.cost * unit p in
        (view st' key
          ≡ some (record {
            tokens = left full p.numerator requested now (view st key);
            last_refill = now;
          }))
        × (r ≡ report full p.numerator requested (level full p.numerator now (view st key)))
        × ((other : String) → key ≢ other → view st' other ≡ view st other)
  unfolding token_bucket
  token_bucket-refines key p now ttl st u =
      let c : (p.capacity == 0) ≡ false = ground (arith, u.capacity) in
      let n : (p.numerator == 0) ≡ false = ground (arith, u.rate) in
      let k : (p.cost == 0) ≡ false = ground (arith, u.cost) in
      let t : (ttl == 0) ≡ false = ground (arith, u.ttl_positive) in
      rw (c, n, k, t)
        (take-refines key (p.capacity * unit p) p.numerator (p.cost * unit p) now ttl st
          u.ttl_positive)
