-- ===== src/Auth/Examples.antt =====
-- Tests of the login handler, and its theorems at concrete inputs.
use secure_api_gateway.Prelude.{
  ℕ, ◌+◌, ◌-◌, ◌≡◌, inr, true, [], ◌∷◌, refl, String, if◌then◌else◌, arith, ceil_div,
}
use secure_api_gateway.Prelude.Int.{pos}
use secure_api_gateway.Prelude.Dict.{put}
use secure_api_gateway.Redis.Memory.{assign, fields_of, ttl_of, removed, aged, expiring, set}
use secure_api_gateway.Login
use secure_api_gateway.Login.{lock_status, count_failure}
use secure_api_gateway.Login.Client
use secure_api_gateway.Login.Client.{
  evaluate, evaluate_with, treat, read_clock, raw_of, parse_decision, parse_reset, decide_values,
  make_decision,
}
use secure_api_gateway.Prelude.Texts.{
  upper, upper_char, is_stripped, starts_with_space, ends_with_space, is_space,
}
use secure_api_gateway.Audit.{
  record_request_security_event, trusted_event, get_trusted_request_id, create_security_audit_event,
  details_valid, status_code_valid, optional_code_valid, upper_method,
  record_security_metric_best_effort, record_security_event_best_effort, emit, record_event,
  append_event, append_with, not_persisted,
}
use secure_api_gateway.Redis.Memory.{vacant, memory}
use secure_api_gateway.Http.{ok, raised, authentication_error}
use secure_api_gateway.Audit.Recording.{KeepsContract}
use secure_api_gateway.World.{World, set_headers}
use secure_api_gateway.RateLimit.{RateLimitDecision, build_rate_limit_headers}
use secure_api_gateway.RateLimit.Dependencies.{too_many_authentication_attempts}
use secure_api_gateway.Login.Failure.{Limits}
use secure_api_gateway.Login.Attack.{attack}
use secure_api_gateway.Login.Scripts.{view}
use secure_api_gateway.Login.Client.{build_key}
use secure_api_gateway.Auth.{UserPublic, AuthenticationService}
use secure_api_gateway.Auth.Router.{
  Protection, event, protection_failed, refuse_locked, not_authenticated, issue_access_token,
}
use secure_api_gateway.Auth.Token.{verdict, check_lock, record_failure, reset}
use secure_api_gateway.Auth.Verdict.{issue, issue_access_token-verdict}
use secure_api_gateway.Auth.Granting.{IsGranted, issue_access_token-IsGranted}
use secure_api_gateway.Auth.Locked.{locked_account_refused}
use secure_api_gateway.Fixtures.{
  parse_uuid, post_request, trusted_post, services, world_of, account_policy, plain_identity,
}
use text.Mathlib.Text.{◌==◌ as str_eq}

abbrev alice : UserPublic
alice = record { id = "user-1"; username = "alice"; is_active = true }

-- One user, whose calls are counted.
abbrev service : AuthenticationService ℕ
service = record {
  register_user = λ registration n. (ok alice, n + 1);
  authenticate_and_create_result = λ username password n.
      if str_eq password "correct horse"
      then (ok (record { access_token = "token"; user = alice }), n + 1)
      else (raised authentication_error, n + 1);
}

abbrev allowance : RateLimitDecision
allowance = record {
  allowed = true;
  limit = 10;
  remaining = 4;
  retry_after_seconds = 0;
  reset_after_seconds = 30;
}

abbrev protection : Protection
protection = record {
  identity = plain_identity;
  key_prefix = "gateway";
  checked_at = pos 2_000;
  failed_at = pos 2_001;
  account_policy = account_policy;
}

abbrev key : String
key = build_key plain_identity "gateway" "alice" account_policy

abbrev limits : Limits
limits = record { threshold = 5; window = 900_000; lockout = 300_000 }

abbrev world : World services
world = world_of vacant

world-KeepsContract : KeepsContract world.trail
world-KeepsContract = (inr refl, tt)

abbrev attacked : World services
attacked = world_of (attack memory key limits (0 ∷ 1 ∷ 2 ∷ 3 ∷ 4 ∷ []) 1_000 vacant).1

issue_access_token-verdict_example :
    let checked = check_lock services protection "alice" world.login in
    (issue parse_uuid post_request service protection "alice" "correct horse" allowance world).0
    ≡ verdict allowance checked.0
        (service.authenticate_and_create_result "alice" "correct horse" 7).0
        (record_failure services protection "alice" checked.1).0
        (reset services protection "alice" checked.1).0
issue_access_token-verdict_example =
    issue_access_token-verdict parse_uuid post_request service protection "alice" "correct horse"
      allowance world trusted_post world-KeepsContract

-- The right credentials get a token, though the event cannot be stored.
token_given :
    (issue parse_uuid post_request service protection "alice" "correct horse" allowance world).0
    ≡ ok "token"
unfolding issue_access_token protection_failed refuse_locked not_authenticated event set_headers
    Client.check_lock Client.reset evaluate evaluate_with treat read_clock raw_of parse_decision
    parse_reset decide_values make_decision lock_status Login.reset build_rate_limit_headers put
    record_request_security_event trusted_event get_trusted_request_id create_security_audit_event
    details_valid status_code_valid optional_code_valid upper_method
    record_security_metric_best_effort record_security_event_best_effort emit record_event
    append_event append_with not_persisted upper upper_char is_stripped starts_with_space
    ends_with_space is_space assign fields_of ttl_of removed
token_given = refl

issue_access_token-IsGranted_example :
    IsGranted service protection "alice" "correct horse" world "token"
      (issue parse_uuid post_request service protection "alice" "correct horse" allowance
        world).1.login
issue_access_token-IsGranted_example =
    issue_access_token-IsGranted parse_uuid post_request service protection "alice" "correct horse"
      allowance world "token" token_given

-- Five failures within 10 milliseconds lock the account at 1_010 until 301_010.
locked_until : (view memory attacked.login.store key).locked_until ≡ 301_010
unfolding attack Login.record_failure count_failure assign fields_of ttl_of removed aged expiring
    set build_key
locked_until = refl

abbrev end_of_lock : ℕ
end_of_lock = (view memory attacked.login.store key).locked_until

locked_account_refused_example :
    let (r, w) =
      issue parse_uuid post_request service protection "alice" "correct horse" allowance attacked in
    (r ≡ raised (too_many_authentication_attempts (ceil_div (end_of_lock - 2_000) 1000) []))
    × (w.users ≡ 7)
locked_account_refused_example =
    locked_account_refused parse_uuid post_request service protection "alice" "correct horse"
      allowance attacked 2_000 trusted_post world-KeepsContract tt refl
      (rw locked_until (omega arith))
