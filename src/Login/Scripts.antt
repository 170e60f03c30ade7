-- ===== src/Login/Scripts.antt =====
-- The scripts refine the abstract account, and leave every other account alone.
use secure_api_gateway.Prelude.{
  ℕ, ◌+◌, ◌-◌, ◌<◌, ◌≡◌, ◌≢◌, String, some, none, ltb, arith, refl, ◌∙◌, sym, ap, if◌then◌else◌,
  Bool-cases, inl, inr, leb,
}
use secure_api_gateway.Redis.{Redis}
use secure_api_gateway.Login.{
  Reply, reply, failures_field, locked_until_field, or_zero, lock_status, count_failure,
  record_failure,
}
use secure_api_gateway.Login.Account.{Account, fail, settle}
use text.Mathlib.Text.{◌==◌}
use text.Mathlib.TextEquality.{eq_iff}

-- The account that a store holds under a key.
abbrev pub view : (redis : Redis) → redis.Store → String → Account
view redis st key = record {
  failures = or_zero (redis.hget st key failures_field);
  locked_until = or_zero (redis.hget st key locked_until_field);
}

-- The reply that tells an account at a time: locked with the rest of the lock, or open.
unfoldable pub report : ℕ → Account → Reply
report now a =
    if ltb now a.locked_until
    then reply 1 a.failures (a.locked_until - now)
    else reply 0 a.failures 0

report-fresh :
    (threshold now lockout n : ℕ)
    → 0 < lockout
    → report now
        (record { failures = n; locked_until = if leb threshold n then now + lockout else 0 })
      ≡ (if leb threshold n then reply 1 n lockout else reply 0 n 0)
unfolding report
report-fresh threshold now lockout n h = ground arith

module _ (redis : Redis) where
  open redis use {
    Store, hget, hset, hdel, del, pexpire, hget-hset, hget-hdel, hget-del, hget-pexpire,
  }

  -- What an operation on one key leaves of a field of the same key and of another.
  del_same : (st : Store) (key g : String) → hget (del st key).1 key g ≡ none
  del_same st key g = ground (arith, hget-del st key key g, eq_iff key key)

  del_other :
      (st : Store) (key other g : String)
      → key ≢ other
      → hget (del st key).1 other g ≡ hget st other g
  del_other st key other g ne = ground (arith, hget-del st key other g, eq_iff key other)

  pub hset_same :
      (st : Store) (key f g : String) (v : ℕ)
      → hget (hset st key f v) key g ≡ (if f == g then some v else hget st key g)
  hset_same st key f g v = ground (arith, hget-hset st key key f g v, eq_iff key key)

  hset_other :
      (st : Store) (key other f g : String) (v : ℕ)
      → key ≢ other
      → hget (hset st key f v) other g ≡ hget st other g
  hset_other st key other f g v ne = ground (arith, hget-hset st key other f g v, eq_iff key other)

  pub hdel_same :
      (st : Store) (key f g : String)
      → hget (hdel st key f) key g ≡ (if f == g then none else hget st key g)
  hdel_same st key f g = ground (arith, hget-hdel st key key f g, eq_iff key key)

  hdel_other :
      (st : Store) (key other f g : String)
      → key ≢ other
      → hget (hdel st key f) other g ≡ hget st other g
  hdel_other st key other f g ne = ground (arith, hget-hdel st key other f g, eq_iff key other)

  -- Asking for the state of an account replies with the account as it is at that time, which is
  -- what the store then holds; no other account changes.
  pub lock_status-refines :
      (key : String) (now : ℕ) (st : Store)
      → let (r, st') = lock_status redis key now st in
        (view redis st' key ≡ settle now (view redis st key))
        × (r ≡ report now (view redis st' key))
        × ((other : String) → key ≢ other → view redis st' other ≡ view redis st other)
  unfolding lock_status report settle
  lock_status-refines key now st = (
    ground (arith, del_same st key failures_field, del_same st key locked_until_field),
    ground (arith, del_same st key failures_field, del_same st key locked_until_field),
    λ other ne. ground (
      arith,
      del_other st key other failures_field ne,
      del_other st key other locked_until_field ne,
    ),
  )

  count_failure-view :
      (key : String) (threshold now window lockout n : ℕ) (st : Store)
      → 0 < window
      → 0 < lockout
      → hget st key failures_field ≡ some n
      → let (r, st') = count_failure redis key threshold now window lockout n st in
        (view redis st' key
          ≡ record { failures = n; locked_until = if leb threshold n then now + lockout else 0 })
        × (r ≡ (if leb threshold n then reply 1 n lockout else reply 0 n 0))
  unfolding count_failure
  count_failure-view key threshold now window lockout n st hw hl stored =
      elim (Bool-cases (leb threshold n)) [
        | inl reached ↦
            let locked = hset st key locked_until_field (now + lockout) in
            rw reached (
              simp (
                hget-pexpire locked key key failures_field lockout hl,
                hget-pexpire locked key key locked_until_field lockout hl,
                hset_same st key locked_until_field failures_field,
                hset_same st key locked_until_field locked_until_field,
                stored,
              ),
              refl,
            )
        | inr below ↦
            let open_ = hdel st key locked_until_field in
            rw below (
              simp (
                hget-pexpire open_ key key failures_field window hw,
                hget-pexpire open_ key key locked_until_field window hw,
                hdel_same st key locked_until_field failures_field,
                hdel_same st key locked_until_field locked_until_field,
                stored,
              ),
              refl,
            )
      ]

  count_failure-other :
      (key other : String) (threshold now window lockout n : ℕ) (st : Store) (g : String)
      → 0 < window
      → 0 < lockout
      → key ≢ other
      → hget (count_failure redis key threshold now window lockout n st).1 other g ≡ hget st other g
  unfolding count_failure
  count_failure-other key other threshold now window lockout n st g hw hl ne =
      elim (Bool-cases (leb threshold n)) [
        | inl reached ↦ rw reached (
            simp (
              hget-pexpire (hset st key locked_until_field (now + lockout)) key other g lockout hl,
              hset_other st key other locked_until_field g (now + lockout) ne,
            ))
        | inr below ↦ rw below (
            simp (
              hget-pexpire (hdel st key locked_until_field) key other g window hw,
              hdel_other st key other locked_until_field g ne,
            ))
      ]

  -- The count after this failure, and the store that it is written to.
  abbrev pub next_count : Account → ℕ
  next_count a = if ltb 0 a.locked_until then 1 else a.failures + 1

  abbrev pub base : String → Store → Store
  base key st = if ltb 0 (view redis st key).locked_until then (del st key).1 else st

  pub record_failure-split :
      (key : String) (threshold now window lockout : ℕ) (st : Store)
      → 0 < threshold
      → 0 < window
      → 0 < lockout
      → let n = next_count (view redis st key) in
        record_failure redis key threshold now window lockout st ≡ (
          if ltb now (view redis st key).locked_until
          then (report now (view redis st key), st)
          else count_failure redis key threshold now window lockout n
              (hset (base key st) key failures_field n))
  unfolding record_failure report
  record_failure-split key threshold now window lockout st ht hw hl = ground arith

  base-other :
      (key other g : String) (st : Store)
      → key ≢ other
      → hget (base key st) other g ≡ hget st other g
  base-other key other g st ne = ground (arith, del_other st key other g ne)

  fresh_failure :
      (key : String) (threshold now window lockout n : ℕ) (st : Store)
      → 0 < window
      → 0 < lockout
      → let (r, st') =
          count_failure redis key threshold now window lockout n
            (hset (base key st) key failures_field n) in
        (view redis st' key
          ≡ record { failures = n; locked_until = if leb threshold n then now + lockout else 0 })
        × (r ≡ report now (view redis st' key))
        × ((other : String) → key ≢ other → view redis st' other ≡ view redis st other)
  fresh_failure key threshold now window lockout n st hw hl =
      let written = hset (base key st) key failures_field n in
      let (same, told) =
        count_failure-view key threshold now window lockout n written hw hl
          (hset_same (base key st) key failures_field failures_field n) in
      let elsewhere = λ (other : String) (g : String) (ne : key ≢ other).
        count_failure-other key other threshold now window lockout n written g hw hl ne
        ∙ hset_other (base key st) key other failures_field g n ne
        ∙ base-other key other g st ne in
      (
        same,
        told ∙ sym (report-fresh threshold now lockout n hl) ∙ ap (report now) (sym same),
        λ other ne. cc (elsewhere other failures_field ne, elsewhere other locked_until_field ne),
      )

  -- With a threshold, a window and a lockout above zero, recording a failure replies with the
  -- account as it is after the failure, which is what the store then holds; no other account
  -- changes.
  pub record_failure-refines :
      (key : String) (threshold now window lockout : ℕ) (st : Store)
      → 0 < threshold
      → 0 < window
      → 0 < lockout
      → let (r, st') = record_failure redis key threshold now window lockout st in
        (view redis st' key ≡ fail threshold now lockout (view redis st key))
        × (r ≡ report now (view redis st' key))
        × ((other : String) → key ≢ other → view redis st' other ≡ view redis st other)
  unfolding fail
  record_failure-refines key threshold now window lockout st ht hw hl =
      let (same, told, elsewhere) =
        fresh_failure key threshold now window lockout (next_count (view redis st key)) st hw hl in
      rw (record_failure-split key threshold now window lockout st ht hw hl)
        (elim (Bool-cases (ltb now (view redis st key).locked_until)) [
          | inl locked ↦ rw locked (refl, refl, λ other ne. refl)
          | inr free ↦ rw free (same, told, elsewhere)
        ])
