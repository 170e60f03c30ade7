-- ===== src/Auth/Locked.antt =====
-- A login to a locked account is refused whatever its password.
use secure_api_gateway.Prelude.{ℕ, ◌≡◌, true, Option, String, [], arith, refl, ◌∙◌, ap}
use secure_api_gateway.Http.{ok, raised}
use secure_api_gateway.Audit.{Request}
use secure_api_gateway.Audit.Recording.{KeepsContract}
use secure_api_gateway.Audit.Trusted.{IsTrusted}
use secure_api_gateway.Login.Client.{Decision, Policy, Identity, Backend}
use secure_api_gateway.Login.Client
use secure_api_gateway.World.{Services, World}
use secure_api_gateway.RateLimit.{RateLimitDecision}
use secure_api_gateway.RateLimit.Dependencies.{too_many_authentication_attempts}
use secure_api_gateway.Auth.{AuthenticationService}
use secure_api_gateway.Auth.Router.{
  authentication_database_unavailable, invalid_credentials, Protection,
}
use secure_api_gateway.Auth.Router
use secure_api_gateway.Auth.Token.{codes, check_lock, guard, guard_runs, refuse_runs}
use secure_api_gateway.Auth.Verdict.{issue}
use secure_api_gateway.Prelude.{◌<◌, ◌-◌, ceil_div}
use secure_api_gateway.Prelude.Int.{pos}
use secure_api_gateway.Login.Account.{Account, settle}
use secure_api_gateway.Login.Scripts.{view}
use secure_api_gateway.Login.Client.{build_key}
use secure_api_gateway.Login.Client.Decisions.{decision, IsReachable, check_lock-decides}

abbrev locked_decision : ℕ → Account → Decision
locked_decision now a = record {
  locked = true;
  failures = a.failures;
  retry_after_seconds = ceil_div (a.locked_until - now) 1000;
}

decision-locked :
    (now : ℕ) (a : Account)
    → now < a.locked_until
    → decision now (settle now a) ≡ locked_decision now a
unfolding decision settle
decision-locked now a h = ground arith

module _ {s : Services} (parse_uuid : String → Option String) (request : Request)
    (service : AuthenticationService s.Users) (protection : Protection)
    (username password : String) where
  refused_by :
      (ip : RateLimitDecision) (w : World s) (d : Decision)
      → IsTrusted parse_uuid request
      → KeepsContract w.trail
      → (check_lock s protection username w.login).0 ≡ ok d
      → d.locked ≡ true
      → let (r, w') = issue parse_uuid request service protection username password ip w in
        (r ≡ raised (too_many_authentication_attempts d.retry_after_seconds []))
        × (w'.users ≡ w.users)
  unfolding Router.issue_access_token
  refused_by ip w d trusted h e locked =
      let (c1, c2, _, _, _, _, _, _) = codes in
      let checked =
        guard_runs parse_uuid request service protection username password
          (check_lock s protection username) "login_lock_check_unavailable" w trusted c1 h in
      let w₁ =
        (guard parse_uuid request service protection username password
          (check_lock s protection username) "login_lock_check_unavailable" w).1 in
      let refused =
        refuse_runs parse_uuid request service protection username password "account_already_locked"
          d w₁ trusted c2 checked.1 in
      ground (arith, e, locked, checked, refused)

  -- If Redis answers the next call, the request is trusted and the audit repository keeps its
  -- contract, a login to an account that is locked at the time of the check is refused with 429
  -- and the seconds that are left, rounded up and at least one, whatever its password; the state
  -- of the service that would authenticate it stays as it is.
  pub locked_account_refused :
      (ip : RateLimitDecision) (w : World s) (now : ℕ)
      → IsTrusted parse_uuid request
      → KeepsContract w.trail
      → IsReachable w.login.faults
      → protection.checked_at ≡ pos now
      → let until =
          (view s.redis w.login.store (
            build_key protection.identity protection.key_prefix username
              protection.account_policy)).locked_until in
        now < until
        → let (r, w') = issue parse_uuid request service protection username password ip w in
          (r ≡ raised (too_many_authentication_attempts (ceil_div (until - now) 1000) []))
          × (w'.users ≡ w.users)
  locked_account_refused ip w now trusted h reachable clock locked =
      let a =
        view s.redis w.login.store (
          build_key protection.identity protection.key_prefix username protection.account_policy) in
      refused_by ip w (locked_decision now a) trusted h
        (ap
            (λ c.
              (Client.check_lock s.redis protection.identity protection.key_prefix c username
                protection.account_policy w.login).0)
            clock
          ∙ (check_lock-decides s.redis protection.identity protection.key_prefix username
              protection.account_policy w.login now reachable).0
          ∙ ap ok (decision-locked now a locked))
        refl
