-- ===== src/Login/Attack.antt =====
-- Repeated failures against one account, as time passes: after as many as the threshold the account
-- is locked, for exactly the lockout.
use secure_api_gateway.Prelude.{
  ℕ, zero, suc, ◌+◌, ◌-◌, ◌≤◌, ◌<◌, ◌≡◌, inl, inr, String, some, List, [], ◌∷◌, leb, arith, refl,
  true, false, ◌∙◌, ap, if◌then◌else◌,
}
use secure_api_gateway.Prelude.Lists.{All, length}
use secure_api_gateway.Redis.{Redis}
use secure_api_gateway.Login.{
  reply, failures_field, locked_until_field, lock_status, record_failure,
}
use secure_api_gateway.Login.Account.{Account}
use secure_api_gateway.Login.Scripts.{view}
use secure_api_gateway.Login.Failure.{
  Limits, IsPositive, IsAbsent, IsAging, wait_IsAging, counted, after_failure, failure-view,
  failure-ttl,
}
use native.Mathlib.Nat.{add-zero}
use mathlib.Core.Path.{subst}

rest : (t d lockout : ℕ) → t + lockout - (t + d) ≡ lockout - d
rest t d lockout = omega arith

module _ (redis : Redis) (key : String) (l : Limits) where
  open redis use {
    Store, hget, hset, hdel, ttl, pexpire, wait, ttl-pexpire, hget-wait_within, hget-wait_past,
    hget-wait_none,
  }

  -- A failure after each of the given waits, from the time `now`: the time and store at the end.
  unfoldable pub attack : List ℕ → ℕ → Store → ℕ × Store
  attack [] now st = (now, st)
  attack (d ∷ ds) now st =
      attack ds (now + d)
        (record_failure redis key l.threshold (now + d) l.window l.lockout (wait d st)).1

  -- What holds after `n` failures, the last at the time `now`.
  pub record IsCounted (n now : ℕ) (st : Store) : Type 0 where
    pub account : view redis st key ≡ counted redis key l n now
    pub expiry : (1 ≤ n) → ttl st key ≡ some (if leb l.threshold n then l.lockout else l.window)
    pub absent : (n ≡ 0) → IsAbsent redis key l st

  IsCounted-IsAging :
      (n now : ℕ) (st : Store) → IsCounted n now st → n < l.threshold → IsAging redis key l st
  IsCounted-IsAging zero now st c lt = inl (c.absent refl)
  IsCounted-IsAging (suc n) now st c lt =
      let below : leb l.threshold (suc n) ≡ false = ground arith in
      inr (c.expiry (omega arith) ∙ ap (λ b. some (if b then l.lockout else l.window)) below)

  -- One more failure, before the window has passed.
  failure-IsCounted :
      (n now d : ℕ) (st : Store)
      → IsPositive l
      → IsCounted n now st
      → n < l.threshold
      → d < l.window
      → IsCounted (n + 1) (now + d) (after_failure redis key l (now + d) (wait d st))
  failure-IsCounted n now d st h c lt soon =
      let open_ : view redis (wait d st) key ≡ record { failures = n; locked_until = 0 } =
        wait_IsAging redis key l d st (IsCounted-IsAging n now st c lt) soon
        ∙ c.account
        ∙ ground arith in
      record {
        account = failure-view redis key l h n (now + d) (wait d st) open_;
        expiry = λ _. failure-ttl redis key l h n (now + d) (wait d st) open_;
        absent = λ z. absurd (omega arith);
      }

  attack-IsCounted :
      (ds : List ℕ) (n now : ℕ) (st : Store)
      → IsPositive l
      → IsCounted n now st
      → All (λ d. d < l.window) ds
      → n + length ds ≤ l.threshold
      → IsCounted (n + length ds) (attack ds now st).0 (attack ds now st).1
  unfolding attack
  attack-IsCounted [] n now st h c a le = rw add-zero c
  attack-IsCounted (d ∷ ds) n now st h c a le =
      subst (λ m. IsCounted m (attack (d ∷ ds) now st).0 (attack (d ∷ ds) now st).1) (omega arith)
        (attack-IsCounted ds (n + 1) (now + d) (after_failure redis key l (now + d) (wait d st)) h
          (failure-IsCounted n now d st h c (omega arith) a.0) a.1 (omega arith))

  -- A store that holds a locked account answers with the lock and stays as it is.
  locked_replies :
      (n until now : ℕ) (later : Store)
      → IsPositive l
      → view redis later key ≡ record { failures = n; locked_until = until }
      → now < until
      → (lock_status redis key now later ≡ (reply 1 n (until - now), later))
        × (record_failure redis key l.threshold now l.window l.lockout later
            ≡ (reply 1 n (until - now), later))
  unfolding lock_status record_failure
  locked_replies n until now later h e lt =
      let count : (view redis later key).failures ≡ n = ap (λ (b : Account). b.failures) e in
      let end : (view redis later key).locked_until ≡ until =
        ap (λ (b : Account). b.locked_until) e in
      (ground arith, ground arith)

  absent_reply :
      (now : ℕ) (later : Store)
      → IsAbsent redis key l later
      → (lock_status redis key now later).0 ≡ reply 0 0 0
  unfolding lock_status
  absent_reply now later h = ground arith

  attack_start :
      (ds : List ℕ) (now : ℕ) (st : Store)
      → IsPositive l
      → IsAbsent redis key l st
      → All (λ d. d < l.window) ds
      → length ds ≤ l.threshold
      → IsCounted (length ds) (attack ds now st).0 (attack ds now st).1
  attack_start ds now st h none_held a le =
      let c : IsCounted 0 now st = record {
        account = ground arith;
        expiry = λ one. absurd (omega arith);
        absent = λ _. none_held;
      } in
      subst (λ m. IsCounted m (attack ds now st).0 (attack ds now st).1) {x = 0 + length ds}
        {y = length ds} (omega arith) (attack-IsCounted ds 0 now st h c a (omega arith))

  -- With limits above zero, failures against an account with no history, each before the window
  -- since the last has passed: while there are fewer than the threshold they are counted and the
  -- account is open, and the one that reaches the threshold locks it for the lockout from that
  -- moment.
  pub attack-account :
      (ds : List ℕ) (now : ℕ) (st : Store)
      → IsPositive l
      → IsAbsent redis key l st
      → All (λ d. d < l.window) ds
      → length ds ≤ l.threshold
      → view redis (attack ds now st).1 key ≡ counted redis key l (length ds) (attack ds now st).0
  attack-account ds now st h none_held a le = (attack_start ds now st h none_held a le).account

  -- With limits above zero, after as many failures as the threshold against an account with no
  -- history, each before the window since the last has passed: for the time of the lockout,
  -- asking for the state and failing again both reply with the failures and the rest of the lock,
  -- and change nothing; later, the account is told to be open with no failure counted.
  pub lock_lasts :
      (ds : List ℕ) (now d : ℕ) (st : Store)
      → IsPositive l
      → IsAbsent redis key l st
      → All (λ d. d < l.window) ds
      → length ds ≡ l.threshold
      → let (t, locked) = attack ds now st in
        let later = wait d locked in
        (d < l.lockout
          → (lock_status redis key (t + d) later ≡ (reply 1 l.threshold (l.lockout - d), later))
            × (record_failure redis key l.threshold (t + d) l.window l.lockout later
                ≡ (reply 1 l.threshold (l.lockout - d), later)))
        × (l.lockout < d → (lock_status redis key (t + d) later).0 ≡ reply 0 0 0)
  lock_lasts ds now d st h none_held a enough =
      let (t, locked) = attack ds now st in
      let c : IsCounted (length ds) t locked = attack_start ds now st h none_held a (omega arith) in
      let reached : leb l.threshold (length ds) ≡ true = ground arith in
      let expiry : ttl locked key ≡ some l.lockout =
        c.expiry (omega (arith, h.threshold))
        ∙ ap (λ b. some (if b then l.lockout else l.window)) reached in
      (
        λ early.
            let held : view redis (wait d locked) key
                ≡ record { failures = l.threshold; locked_until = t + l.lockout } =
              cc (
                hget-wait_within locked key failures_field l.lockout d expiry early,
                hget-wait_within locked key locked_until_field l.lockout d expiry early,
                c.account,
                reached,
                enough,
              ) in
            rw (← rest t d l.lockout) (
              locked_replies l.threshold (t + l.lockout) (t + d) (wait d locked) h held
                (omega arith)),
        λ late. absent_reply (t + d) (wait d locked) (
          hget-wait_past locked key failures_field l.lockout d expiry late,
          hget-wait_past locked key locked_until_field l.lockout d expiry late,
        ),
      )
