-- ===== src/RateLimit/Bucket/Limiter.antt =====
-- Class RedisRateLimiter of gateway/app/rate_limit/service.py: it runs the script and reads its reply.
-- A call of Redis can fail before the script ran or after it; SHA-256 is a parameter.
pub mod Checks
use secure_api_gateway.Prelude.{
  ℕ, ◌+◌, ◌-◌, ◌*◌, ◌/◌, min, max, Bool, true, false, not, ◌&&◌, ◌||◌, Option, none, some, String,
  List, [], ◌∷◌, ltb, leb, ◌==◌, if◌then◌else◌, ceil_div,
}
use Prim.Native.String.{◌++◌}
use secure_api_gateway.Prelude.Int.{ℤ, pos, negsuc, is_negative, magnitude}
use secure_api_gateway.Prelude.Texts.{strip_string, is_empty}
use secure_api_gateway.Redis.{Redis}
use secure_api_gateway.Http.{
  Result, ok, raised, rate_limit_backend_error, value_error, Action, lift, ◌>>=◌,
}
use secure_api_gateway.Login.Client.{Fault, answered, lost_request, lost_reply, Backend, read_clock}
use secure_api_gateway.RateLimit.{RateLimitDecision, decision_valid}
use secure_api_gateway.RateLimit.Bucket.{
  Policy, unit, state_ttl_seconds, Reply, reply, error_reply, token_bucket,
}

-- What `math.floor` makes of what `float` finds: NaN and the infinities are kept apart.
pub data Tokens : Type 0 where
  whole : ℤ → Tokens
  not_finite : Tokens

-- What came back: a list of four values, each with what `int` or `float` finds in it, or anything
-- else.
pub data Raw : Type 0 where
  four : Option ℤ → Option Tokens → Option ℤ → Option ℤ → Raw
  other : Raw

abbrev equals : ℕ → ℤ → Bool
equals n (pos m) = m == n
equals n (negsuc m) = false

-- max(0, min(capacity, floor))
unfoldable pub remaining_of : ℕ → ℤ → ℕ
remaining_of capacity (pos n) = min capacity n
remaining_of capacity (negsuc n) = 0

-- RateLimitDecision(…)
unfoldable pub make_decision : RateLimitDecision → Result RateLimitDecision
make_decision d = if decision_valid d then ok d else raised value_error

unfoldable pub decide_values : Policy → ℤ → Tokens → ℤ → ℤ → Result RateLimitDecision
unfolding remaining_of make_decision
decide_values p allowed_value not_finite retry_after_ms reset_after_ms =
    raised rate_limit_backend_error
decide_values p allowed_value (whole tokens) retry_after_ms reset_after_ms =
    let allowed = equals 1 allowed_value in
    if not (equals 0 allowed_value || equals 1 allowed_value)
    then raised rate_limit_backend_error
    else if is_negative retry_after_ms || is_negative reset_after_ms
    then raised rate_limit_backend_error
    else make_decision (record {
      allowed = allowed;
      limit = p.capacity;
      remaining = remaining_of p.capacity tokens;
      retry_after_seconds = if allowed then 0 else ceil_div (magnitude retry_after_ms) 1000;
      reset_after_seconds = ceil_div (magnitude reset_after_ms) 1000;
    })

-- _parse_result
unfoldable pub parse_result : Policy → Raw → Result RateLimitDecision
unfolding decide_values
parse_result p (four (some a) (some t) (some b) (some c)) = decide_values p a t b c
parse_result p _ = raised rate_limit_backend_error

unfoldable pub build_key : (String → String) → String → String → Policy → String
build_key digest key_prefix identity p =
    key_prefix ++ (":rate-limit" ++ (":" ++ (p.name ++ (":" ++ digest identity))))

-- What Redis sends for a reply of the script.
unfoldable pub raw_of : Policy → Reply → Result Raw
raw_of p (reply allowed tokens retry_ms reset_ms) = ok (
    four (some (pos allowed)) (some (whole (pos (tokens / unit p)))) (some (pos retry_ms))
      (some (pos reset_ms)))
raw_of p (error_reply message) = raised rate_limit_backend_error

module _ (redis : Redis) where
  unfoldable pub treat :
      Fault → Result Raw × redis.Store → List Fault → redis.Store → Result Raw × Backend redis
  treat answered (r, after) rest before = (r, record { store = after; faults = rest })
  treat lost_request (r, after) rest before =
      (raised rate_limit_backend_error, record { store = before; faults = rest })
  treat lost_reply (r, after) rest before =
      (raised rate_limit_backend_error, record { store = after; faults = rest })

  unfoldable pub evaluate_with :
      List Fault
      → (redis.Store → Result Raw × redis.Store)
      → redis.Store
      → Result Raw × Backend redis
  unfolding treat
  evaluate_with [] script st = treat answered (script st) [] st
  evaluate_with (f ∷ fs) script st = treat f (script st) fs st

  module _ (digest : String → String) (key_prefix : String) (p : Policy) (clock_ms : ℤ) where
    unfoldable pub script_call : String → ℕ → redis.Store → Result Raw × redis.Store
    unfolding token_bucket raw_of build_key
    script_call identity now_ms st =
        let (r, after) =
          token_bucket redis (build_key digest key_prefix identity p) p now_ms
            (state_ttl_seconds p * 1000) st in
        (raw_of p r, after)

    unfoldable pub run_script : String → Action (Backend redis) RateLimitDecision
    unfolding script_call evaluate_with parse_result
    run_script identity = do
      now_ms ← lift (read_clock clock_ms)
      raw ← (λ b. evaluate_with b.faults (script_call identity now_ms) b.store)
      lift (parse_result p raw)

    -- RedisRateLimiter.check
    unfoldable pub check : String → Action (Backend redis) RateLimitDecision
    unfolding run_script
    check identity =
        let normalized_identity = strip_string identity in
        if is_empty normalized_identity
        then lift (raised value_error)
        else run_script normalized_identity
