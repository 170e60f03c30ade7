-- ===== src/Login/Failure.antt =====
-- One failure against one account: what the account is then, and when its record expires.
use secure_api_gateway.Prelude.{
  ℕ, ◌+◌, ◌<◌, ◌≡◌, ◌⊎◌, inl, inr, String, some, none, leb, arith, ◌∙◌, ap, if◌then◌else◌,
  Bool-cases,
}
use secure_api_gateway.Redis.{Redis}
use secure_api_gateway.Login.{failures_field, locked_until_field, count_failure, record_failure}
use secure_api_gateway.Login.Account.{Account, fail}
use secure_api_gateway.Login.Scripts.{
  view, hset_same, hdel_same, record_failure-split, base, record_failure-refines,
}

-- The numbers that the failure script is called with.
pub record Limits : Type 0 where
  pub threshold : ℕ
  pub window : ℕ
  pub lockout : ℕ

pub record IsPositive (l : Limits) : Type 0 where
  pub threshold : 0 < l.threshold
  pub window : 0 < l.window
  pub lockout : 0 < l.lockout

module _ (redis : Redis) (key : String) (l : Limits) where
  open redis use {
    Store, hget, hset, hdel, ttl, pexpire, wait, ttl-pexpire, hget-wait_within, hget-wait_past,
    hget-wait_none,
  }

  -- Nothing is held under the key.
  abbrev pub IsAbsent : Store → Type 0
  IsAbsent st = (hget st key failures_field ≡ none) × (hget st key locked_until_field ≡ none)

  -- What is held under the key, if anything, expires a window from now.
  abbrev pub IsAging : Store → Type 0
  IsAging st = IsAbsent st ⊎ (ttl st key ≡ some l.window)

  pub wait_IsAging :
      (d : ℕ) (st : Store)
      → IsAging st
      → d < l.window
      → view redis (wait d st) key ≡ view redis st key
  wait_IsAging d st (inl (a, b)) h =
      cc (
        a,
        b,
        hget-wait_none st key failures_field d a,
        hget-wait_none st key locked_until_field d b,
      )
  wait_IsAging d st (inr t) h = cc (
    hget-wait_within st key failures_field l.window d t h,
    hget-wait_within st key locked_until_field l.window d t h,
  )

  count_failure-ttl :
      (now n : ℕ) (st : Store)
      → hget st key failures_field ≡ some n
      → ttl (count_failure redis key l.threshold now l.window l.lockout n st).1 key
        ≡ some (if leb l.threshold n then l.lockout else l.window)
  unfolding count_failure
  count_failure-ttl now n st stored = elim (Bool-cases (leb l.threshold n)) [
    | inl reached ↦ rw reached (
        ttl-pexpire (hset st key locked_until_field (now + l.lockout)) key failures_field l.lockout
          n (hset_same redis st key locked_until_field failures_field (now + l.lockout) ∙ stored))
    | inr below ↦ rw below (
        ttl-pexpire (hdel st key locked_until_field) key failures_field l.window n
          (hdel_same redis st key locked_until_field failures_field ∙ stored))
  ]

  -- The account after the `n`-th failure, at the time `now`.
  abbrev pub counted : ℕ → ℕ → Account
  counted n now = record {
    failures = n;
    locked_until = if leb l.threshold n then now + l.lockout else 0;
  }

  abbrev pub after_failure : ℕ → Store → Store
  after_failure now st = (record_failure redis key l.threshold now l.window l.lockout st).1

  module _ (h : IsPositive l) (n now : ℕ) (st : Store)
      (open_ : view redis st key ≡ record { failures = n; locked_until = 0 }) where
    pub failure-view : view redis (after_failure now st) key ≡ counted (n + 1) now
    unfolding fail
    failure-view =
        (record_failure-refines redis key l.threshold now l.window l.lockout st h.threshold h.window
          h.lockout).0
        ∙ ap (fail l.threshold now l.lockout) open_
        ∙ ground arith

    pub failure-ttl :
        ttl (after_failure now st) key
        ≡ some (if leb l.threshold (n + 1) then l.lockout else l.window)
    failure-ttl =
        let written = hset (base redis key st) key failures_field (n + 1) in
        let aged =
          count_failure-ttl now (n + 1) written
            (hset_same redis (base redis key st) key failures_field failures_field (n + 1)) in
        let split =
          record_failure-split redis key l.threshold now l.window l.lockout st h.threshold h.window
            h.lockout in
        ground (arith, split, aged)
