-- ===== src/RateLimit/Bucket.antt =====
-- The token bucket: TOKEN_BUCKET_SCRIPT of gateway/app/rate_limit/scripts.py, the policy of models.py,
-- and class RedisRateLimiter of service.py that runs the script. A script is atomic in Redis.
--
-- The tokens are numbers with a fraction. A rate of `numerator / denominator` tokens a second adds
-- `numerator` units a millisecond when a token has `1000 * denominator` units, so the script computes
-- with whole units; the rounding of floats, and of `tostring`, is not modelled.
pub mod Level
pub mod Scripts
pub mod Aging
pub mod Retry
pub mod Limiter
pub mod Admitted
mod Examples
use secure_api_gateway.Prelude.{
  ℕ, ◌+◌, ◌-◌, ◌*◌, ◌/◌, min, max, Bool, true, false, not, ◌&&◌, ◌||◌, Option, none, some, String,
  List, [], ◌∷◌, ltb, leb, ◌==◌, if◌then◌else◌, ceil_div,
}
use secure_api_gateway.Prelude.Lists.{length, all}
use secure_api_gateway.Prelude.Texts.{Text, text, is_lower, is_digit}
use secure_api_gateway.Redis.{Redis}

pub record Policy : Type 0 where
  pub name : String
  pub capacity : ℕ
  pub numerator : ℕ
  pub denominator : ℕ
  pub cost : ℕ

unfoldable pub is_name_char : ℕ → Bool
unfolding is_lower is_digit
is_name_char c = is_lower c || is_digit c || c == b':' || c == b'_' || c == b'-'

-- Whether _POLICY_NAME_PATTERN matches. No name that it matches has outer white space.
unfoldable pub policy_name_valid : Text → Bool
unfolding is_name_char is_lower is_digit
policy_name_valid [] = false
policy_name_valid (c ∷ s) = (is_lower c || is_digit c) && all is_name_char s && leb (length s) 63

-- Whether RateLimitPolicy accepts its fields.
unfoldable pub policy_valid : Policy → Bool
unfolding policy_name_valid
policy_valid p =
    policy_name_valid (text p.name)
    && leb 1 p.capacity
    && leb p.capacity 1_000_000
    && ltb 0 p.denominator
    && ltb 0 p.numerator
    && leb p.numerator (1_000_000 * p.denominator)
    && leb 1 p.cost
    && leb p.cost p.capacity

-- The units of a token.
abbrev pub unit : Policy → ℕ
unit p = 1000 * p.denominator

-- Twice the time to fill an empty bucket, in seconds.
unfoldable pub state_ttl_seconds : Policy → ℕ
state_ttl_seconds p = max 1 (ceil_div (2 * (p.capacity * p.denominator)) p.numerator)

-- What the script returns: whether it allowed the request, the units that are left, and two delays in
-- milliseconds; or an error reply.
pub data Reply : Type 0 where
  reply : ℕ → ℕ → ℕ → ℕ → Reply
  error_reply : String → Reply

abbrev pub tokens_field : String
tokens_field = "tokens"

abbrev pub last_refill_field : String
last_refill_field = "last_refill_ms"

-- The units before the refill, and the time of the last one.
unfoldable pub stored_or_full : ℕ → ℕ → Option ℕ → Option ℕ → ℕ × ℕ
stored_or_full full now_ms (some tokens) (some last_refill_ms) = (min full tokens, last_refill_ms)
stored_or_full full now_ms _ _ = (full, now_ms)

module _ (redis : Redis) where
  open redis use {Store, hget, hset, pexpire}

  -- The last two commands of the script.
  unfoldable pub store_bucket : String → ℕ → ℕ → ℕ → Store → Store
  store_bucket key tokens now_ms ttl_ms st =
      pexpire (hset (hset st key tokens_field tokens) key last_refill_field now_ms) key ttl_ms

  -- The script, once its arguments are accepted; `full` and `requested` are in units.
  unfoldable pub take_tokens : String → ℕ → ℕ → ℕ → ℕ → ℕ → Store → Reply × Store
  unfolding stored_or_full store_bucket
  take_tokens key full refill requested now_ms ttl_ms st =
      let (tokens, last_refill_ms) =
        stored_or_full full now_ms (hget st key tokens_field) (hget st key last_refill_field) in
      let refilled = min full (tokens + (now_ms - last_refill_ms) * refill) in
      if leb requested refilled
      then (let rest = refilled - requested in
          (reply 1 rest 0 (ceil_div (full - rest) refill), store_bucket key rest now_ms ttl_ms st))
      else (
        reply 0 refilled (ceil_div (requested - refilled) refill)
            (ceil_div (full - refilled) refill),
        store_bucket key refilled now_ms ttl_ms st,
      )

  -- TOKEN_BUCKET_SCRIPT
  unfoldable pub token_bucket : String → Policy → ℕ → ℕ → Store → Reply × Store
  unfolding take_tokens
  token_bucket key p now_ms ttl_ms st =
      if p.capacity == 0
      then (error_reply "invalid capacity", st)
      else if p.numerator == 0
      then (error_reply "invalid refill rate", st)
      else if p.cost == 0
      then (error_reply "invalid token cost", st)
      else if ttl_ms == 0
      then (error_reply "invalid ttl", st)
      else take_tokens key (p.capacity * unit p) p.numerator (p.cost * unit p) now_ms ttl_ms st
