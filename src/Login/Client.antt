-- ===== src/Login/Client.antt =====
-- Class RedisLoginProtection and the classes LoginProtectionPolicy and LoginProtectionDecision of
-- gateway/app/rate_limit/login.py.
--
-- A call of Redis can fail before the script ran or after it; what `int` makes of the values that
-- came back is an integer or nothing. Unicode normalization and SHA-256 are parameters.
pub mod Decisions
use secure_api_gateway.Prelude.{
  ℕ, ◌+◌, ◌-◌, ◌*◌, ◌≤◌, ◌<◌, ◌≡◌, ◌≢◌, Bool, true, false, not, ◌&&◌, ◌||◌, Option, none, some,
  String, List, [], ◌∷◌, ltb, leb, ◌==◌, if◌then◌else◌, ceil_div, arith, refl, inl, inr, Bool-cases,
}
use Prim.Native.String.{◌++◌}
use secure_api_gateway.Prelude.Int.{ℤ, pos, negsuc, is_negative, magnitude, between}
use secure_api_gateway.Redis.{Redis}
use secure_api_gateway.Http.{
  Result, ok, raised, Exn, login_protection_backend_error, value_error, Action, ◌>>=◌, ◌>>◌, lift,
  pure,
}
use secure_api_gateway.Login.{Reply, reply, error_reply}
use secure_api_gateway.Login
use text.Mathlib.Text.{◌==◌ as str_eq}

pub record Policy : Type 0 where
  pub name : String
  pub failure_threshold : ℕ
  pub failure_window_seconds : ℕ
  pub lockout_seconds : ℕ

-- What LoginProtectionPolicy accepts of the three numbers.
pub record IsAllowed (p : Policy) : Type 0 where
  pub threshold : (1 ≤ p.failure_threshold) × (p.failure_threshold ≤ 100)
  pub window : (1 ≤ p.failure_window_seconds) × (p.failure_window_seconds ≤ 86_400)
  pub lockout : (1 ≤ p.lockout_seconds) × (p.lockout_seconds ≤ 86_400)

pub record Decision : Type 0 where
  pub locked : Bool
  pub failures : ℕ
  pub retry_after_seconds : ℕ

-- LoginProtectionDecision(…), whose other checks hold of every argument of these types.
unfoldable pub make_decision : Bool → ℕ → ℕ → Result Decision
make_decision locked failures retry =
    if not locked && not (retry == 0)
    then raised value_error
    else ok (record { locked = locked; failures = failures; retry_after_seconds = retry })

-- What came back: one value, or a list of values, each with the integer that `int` finds in it.
pub data Raw : Type 0 where
  single : Option ℤ → Raw
  several : List (Option ℤ) → Raw

abbrev equals : ℕ → ℤ → Bool
equals n (pos m) = m == n
equals n (negsuc m) = false

unfoldable pub decide_values : ℤ → ℤ → ℤ → Result Decision
unfolding make_decision
decide_values locked_value failures retry_after_ms =
    let locked = equals 1 locked_value in
    if not (equals 0 locked_value || equals 1 locked_value)
    then raised login_protection_backend_error
    else if is_negative failures || is_negative retry_after_ms
    then raised login_protection_backend_error
    else if not locked && not (equals 0 retry_after_ms)
    then raised login_protection_backend_error
    else make_decision locked (magnitude failures)
        (if locked then ceil_div (magnitude retry_after_ms) 1000 else 0)

unfoldable pub parse_decision : Raw → Result Decision
unfolding decide_values
parse_decision (several (some a ∷ some b ∷ some c ∷ [])) = decide_values a b c
parse_decision _ = raised login_protection_backend_error

-- The end of `reset`: whether a key was deleted.
unfoldable pub parse_reset : Raw → Result Bool
parse_reset (single (some deleted)) =
    if not (equals 0 deleted || equals 1 deleted)
    then raised login_protection_backend_error
    else ok (equals 1 deleted)
parse_reset _ = raised login_protection_backend_error

-- How the connection treats one call.
pub data Fault : Type 0 where
  answered lost_request lost_reply : Fault

pub record Identity : Type 0 where
  -- unicodedata.normalize("NFKC", …).strip().casefold()
  pub normalize : String → String
  -- hashlib.sha256(….encode("utf-8")).hexdigest()
  pub digest : String → String

unfoldable pub canonicalize_login_identifier : Identity → String → String
canonicalize_login_identifier i identifier =
    let normalized = i.normalize identifier in
    if str_eq normalized "" then "<empty-login-identifier>" else normalized

unfoldable pub build_key : Identity → String → String → Policy → String
unfolding canonicalize_login_identifier
build_key i key_prefix identifier p =
    key_prefix
    ++ (":login-protection"
        ++ (":" ++ (p.name ++ (":" ++ i.digest (canonicalize_login_identifier i identifier)))))

unfoldable pub read_clock : ℤ → Result ℕ
read_clock (pos now_ms) = ok now_ms
read_clock (negsuc n) = raised value_error

unfoldable pub raw_of : Reply → Result Raw
raw_of (reply a b c) = ok (several (some (pos a) ∷ some (pos b) ∷ some (pos c) ∷ []))
raw_of (error_reply message) = raised login_protection_backend_error

module _ (redis : Redis) where
  -- The store, and how the connection will treat the calls to come.
  pub record Backend : Type 0 where
    pub store : redis.Store
    pub faults : List Fault

  abbrev Script : Type 0
  Script = redis.Store → Result Raw × redis.Store

  unfoldable pub treat :
      Fault → Result Raw × redis.Store → List Fault → redis.Store → Result Raw × Backend
  treat answered (r, after) rest before = (r, record { store = after; faults = rest })
  treat lost_request (r, after) rest before =
      (raised login_protection_backend_error, record { store = before; faults = rest })
  treat lost_reply (r, after) rest before =
      (raised login_protection_backend_error, record { store = after; faults = rest })

  unfoldable pub evaluate_with : List Fault → Script → redis.Store → Result Raw × Backend
  unfolding treat
  evaluate_with [] script st = treat answered (script st) [] st
  evaluate_with (f ∷ fs) script st = treat f (script st) fs st

  -- `_evaluate`
  unfoldable pub evaluate : Script → Action Backend Raw
  unfolding evaluate_with
  evaluate script b = evaluate_with b.faults script b.store

  module _ (i : Identity) (key_prefix : String) (clock_ms : ℤ) (identifier : String)
      (p : Policy) where
    abbrev pub key : String
    key = build_key i key_prefix identifier p

    abbrev status_script : ℕ → Script
    status_script now_ms st =
        let (r, after) = Login.lock_status redis key now_ms st in (raw_of r, after)

    abbrev failure_script : ℕ → Script
    failure_script now_ms st =
        let (r, after) =
          Login.record_failure redis key p.failure_threshold now_ms
            (p.failure_window_seconds * 1000) (p.lockout_seconds * 1000) st in
        (raw_of r, after)

    abbrev reset_script : Script
    reset_script st =
        let (n, after) = Login.reset redis key st in (ok (single (some (pos n))), after)

    unfoldable pub check_lock : Action Backend Decision
    check_lock = do
      now_ms ← lift (read_clock clock_ms)
      raw ← evaluate (status_script now_ms)
      lift (parse_decision raw)

    unfoldable pub record_failure : Action Backend Decision
    record_failure = do
      now_ms ← lift (read_clock clock_ms)
      raw ← evaluate (failure_script now_ms)
      lift (parse_decision raw)

    unfoldable pub reset : Action Backend Bool
    reset = do raw ← evaluate reset_script; lift (parse_reset raw)
