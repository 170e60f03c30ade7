-- ===== src/Login.antt =====
-- Login protection: failures are counted by account, and too many lock it for a time. The Lua
-- scripts of gateway/app/rate_limit/login_scripts.py, and class RedisLoginProtection of
-- gateway/app/rate_limit/login.py that runs them. A script is atomic in Redis.
pub mod Account
pub mod Scripts
pub mod Failure
pub mod Attack
pub mod Client
mod Examples
use secure_api_gateway.Prelude.{
  ℕ, ◌+◌, ◌-◌, ◌*◌, Bool, true, false, Option, none, some, String, List, [], ◌∷◌, ltb, leb, ◌==◌,
  if◌then◌else◌, ceil_div, ◌||◌, ◌&&◌, not,
}
use secure_api_gateway.Prelude.Int.{ℤ, pos, is_negative, magnitude}
use secure_api_gateway.Redis.{Redis}
use secure_api_gateway.Http.{Result, ok, raised, Exn, login_protection_backend_error, value_error}

-- What a script returns: three integers, or an error reply.
pub data Reply : Type 0 where
  reply : ℕ → ℕ → ℕ → Reply
  error_reply : String → Reply

abbrev pub failures_field : String
failures_field = "failures"

abbrev pub locked_until_field : String
locked_until_field = "locked_until_ms"

-- `tonumber(value) or 0`
abbrev pub or_zero : Option ℕ → ℕ
or_zero none = 0
or_zero (some n) = n

module _ (redis : Redis) where
  open redis use {Store, hget, hset, hdel, del, pexpire}

  -- LOGIN_LOCK_STATUS_SCRIPT
  unfoldable pub lock_status : String → ℕ → Store → Reply × Store
  lock_status key now_ms st =
      let failures = or_zero (hget st key failures_field) in
      let locked_until_ms = or_zero (hget st key locked_until_field) in
      if ltb now_ms locked_until_ms
      then (reply 1 failures (locked_until_ms - now_ms), st)
      else if ltb 0 locked_until_ms
      then (reply 0 0 0, (del st key).1)
      else (reply 0 failures 0, st)

  -- The end of LOGIN_FAILURE_SCRIPT, once `failures` is counted and stored.
  unfoldable pub count_failure : String → ℕ → ℕ → ℕ → ℕ → ℕ → Store → Reply × Store
  count_failure key threshold now_ms failure_window_ms lockout_ms failures st =
      if leb threshold failures
      then (
        reply 1 failures lockout_ms,
        pexpire (hset st key locked_until_field (now_ms + lockout_ms)) key lockout_ms,
      )
      else (reply 0 failures 0, pexpire (hdel st key locked_until_field) key failure_window_ms)

  -- LOGIN_FAILURE_SCRIPT
  unfoldable pub record_failure : String → ℕ → ℕ → ℕ → ℕ → Store → Reply × Store
  record_failure key threshold now_ms failure_window_ms lockout_ms st =
      let failures = or_zero (hget st key failures_field) in
      let locked_until_ms = or_zero (hget st key locked_until_field) in
      if threshold == 0
      then (error_reply "invalid threshold", st)
      else if failure_window_ms == 0
      then (error_reply "invalid failure window", st)
      else if lockout_ms == 0
      then (error_reply "invalid lockout duration", st)
      else if ltb now_ms locked_until_ms
      then (reply 1 failures (locked_until_ms - now_ms), st)
      else if ltb 0 locked_until_ms
      then count_failure key threshold now_ms failure_window_ms lockout_ms 1
          (hset (del st key).1 key failures_field 1)
      else count_failure key threshold now_ms failure_window_ms lockout_ms (failures + 1)
          (hset st key failures_field (failures + 1))

  -- LOGIN_RESET_SCRIPT
  unfoldable pub reset : String → Store → ℕ × Store
  reset key st = del st key
