-- ===== src/RateLimit/Bucket/Aging.antt =====
-- The bucket of a key as time passes in Redis, where the key expires.
use secure_api_gateway.Prelude.{
  ℕ, ◌+◌, ◌-◌, ◌*◌, ◌≤◌, ◌<◌, ◌≡◌, ◌⊎◌, inl, inr, false, Option, none, some, String, leb, ltb,
  arith, refl, sym, ap, ◌∙◌, Bool-cases, min, ◌==◌,
}
use secure_api_gateway.Redis.{Redis}
use secure_api_gateway.RateLimit.Bucket.{
  Policy, unit, state_ttl_seconds, tokens_field, last_refill_field, stored_or_full, store_bucket,
  take_tokens, token_bucket,
}
use secure_api_gateway.RateLimit.Bucket.Level.{Bucket, level, left, level-refilled}
use secure_api_gateway.RateLimit.Bucket.Scripts.{
  bucket_of, view, IsUsable, same_key, token_bucket-refines,
}

-- Between two requests, by what passes in Redis and the times of the gateway's clock: the key does not
-- expire, or no more passes in Redis than twice what the clock moves forward.
abbrev pub IsPrompt : Policy → ℕ → ℕ → ℕ → Type 0
IsPrompt p elapsed last now = (elapsed < state_ttl_seconds p * 1000) ⊎ (elapsed ≤ 2 * (now - last))

-- Two fields, each as it was or gone.
fields_gone :
    (t l t' l' : Option ℕ) (b : Bucket)
    → bucket_of t l ≡ some b
    → ((v : ℕ) → t' ≡ some v → t ≡ some v)
    → ((v : ℕ) → l' ≡ some v → l ≡ some v)
    → (bucket_of t' l' ≡ some b) ⊎ (bucket_of t' l' ≡ none)
fields_gone t l none l' b h f g = inr refl
fields_gone t l (some v) none b h f g = inr refl
fields_gone t l (some v) (some w) b h f g =
    inl (ap (λ x. bucket_of x (some w)) (sym (f v refl)) ∙ ap (bucket_of t) (sym (g w refl)) ∙ h)

module _ (redis : Redis) where
  open redis use {
    Store, hget, hset, ttl, wait, ttl-pexpire, hget-hset, hget-wait_within, hget-wait_some,
  }

  store-ttl :
      (key : String) (tokens now ms : ℕ) (st : Store)
      → ttl (store_bucket redis key tokens now ms st) key ≡ some ms
  unfolding store_bucket
  store-ttl key tokens now ms st =
      let first = hset st key tokens_field tokens in
      ttl-pexpire (hset first key last_refill_field now) key last_refill_field ms now (
        ground (
          arith,
          hget-hset first key key last_refill_field last_refill_field now,
          same_key key,
          same_key last_refill_field,
        ))

  take-ttl :
      (key : String) (full refill requested now ms : ℕ) (st : Store)
      → ttl (take_tokens redis key full refill requested now ms st).1 key ≡ some ms
  unfolding take_tokens
  take-ttl key full refill requested now ms st =
      let (tokens, last) =
        stored_or_full full now (hget st key tokens_field) (hget st key last_refill_field) in
      let refilled = min full (tokens + (now - last) * refill) in
      elim (Bool-cases (leb requested refilled)) [
        | inl e ↦ rw e (store-ttl key (refilled - requested) now ms st)
        | inr e ↦ rw e (store-ttl key refilled now ms st)
      ]

  -- The script gives the key its lifetime.
  pub token_bucket-ttl :
      (key : String) (p : Policy) (now ms : ℕ) (st : Store)
      → IsUsable redis p ms
      → ttl (token_bucket redis key p now ms st).1 key ≡ some ms
  unfolding token_bucket
  token_bucket-ttl key p now ms st u =
      let c : (p.capacity == 0) ≡ false = ground (arith, u.capacity) in
      let n : (p.numerator == 0) ≡ false = ground (arith, u.rate) in
      let k : (p.cost == 0) ≡ false = ground (arith, u.cost) in
      let t : (ms == 0) ≡ false = ground (arith, u.ttl_positive) in
      rw (c, n, k, t) (take-ttl key (p.capacity * unit p) p.numerator (p.cost * unit p) now ms st)

  -- After some time a stored bucket is as it was, or gone.
  wait-view :
      (key : String) (elapsed : ℕ) (st : Store) (b : Bucket)
      → view redis st key ≡ some b
      → (view redis (wait elapsed st) key ≡ some b) ⊎ (view redis (wait elapsed st) key ≡ none)
  wait-view key elapsed st b h =
      fields_gone (hget st key tokens_field) (hget st key last_refill_field)
        (hget (wait elapsed st) key tokens_field) (hget (wait elapsed st) key last_refill_field) b h
        (hget-wait_some st key tokens_field elapsed)
        (hget-wait_some st key last_refill_field elapsed)

  within-view :
      (key : String) (elapsed ms : ℕ) (st : Store)
      → ttl st key ≡ some ms
      → elapsed < ms
      → view redis (wait elapsed st) key ≡ view redis st key
  within-view key elapsed ms st t h = cc (
    hget-wait_within st key tokens_field ms elapsed t h,
    hget-wait_within st key last_refill_field ms elapsed t h,
  )

  -- A key that expires, while the clocks are prompt, tells nothing else than one that is stored.
  aged-level :
      (key : String) (p : Policy) (elapsed now later : ℕ) (st : Store) (b : Bucket)
      → 0 < p.numerator
      → view redis st key ≡ some b
      → b.last_refill ≡ now
      → ttl st key ≡ some (state_ttl_seconds p * 1000)
      → IsPrompt p elapsed now later
      → level (p.capacity * unit p) p.numerator later (view redis (wait elapsed st) key)
        ≡ level (p.capacity * unit p) p.numerator later (some b)
  unfolding level
  aged-level key p elapsed now later st b rate h last t prompt =
      let ms = state_ttl_seconds p * 1000 in
      let full = p.capacity * unit p in
      elim (Bool-cases (ltb elapsed ms)) [
        | inl e ↦
            ap (level full p.numerator later)
              (within-view key elapsed ms st t (ground (arith, e)) ∙ h)
        | inr e ↦
            let late : ms ≤ 2 * (later - b.last_refill) = ground (arith, e, prompt, last) in
            elim (wait-view key elapsed st b h) [
              | inl kept ↦ ap (level full p.numerator later) kept
              | inr gone ↦
                  ap (level full p.numerator later) gone ∙ sym (level-refilled p b later rate late)
            ]
      ]

  -- What the next request finds of what a request left.
  pub next-level :
      (key : String) (p : Policy) (elapsed now later : ℕ) (st : Store)
      → IsUsable redis p (state_ttl_seconds p * 1000)
      → IsPrompt p elapsed now later
      → let full = p.capacity * unit p in
        let st' = (token_bucket redis key p now (state_ttl_seconds p * 1000) st).1 in
        level full p.numerator later (view redis (wait elapsed st') key)
        ≡ level full p.numerator later (
            some (record {
              tokens = left full p.numerator (p.cost * unit p) now (view redis st key);
              last_refill = now;
            }))
  next-level key p elapsed now later st u prompt =
      let ms = state_ttl_seconds p * 1000 in
      let (after, _, _) = token_bucket-refines redis key p now ms st u in
      aged-level key p elapsed now later (token_bucket redis key p now ms st).1 _ u.rate after refl
        (token_bucket-ttl key p now ms st u) prompt
