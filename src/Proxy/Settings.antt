-- ===== src/Proxy/Settings.antt =====
-- The settings of the resilience: UpstreamResilienceSettings of gateway/app/proxy/resilience.py, its
-- validation and its reading from the environment. `float` is a parameter that reads a text as ticks
-- of the clock; what is no finite number is kept apart.
pub mod Bounds
use secure_api_gateway.Prelude.{
  ℕ, ◌*◌, Bool, true, false, not, Option, none, some, String, if◌then◌else◌,
}
use secure_api_gateway.Prelude.Texts.{text}
use secure_api_gateway.Prelude.Int.{ℤ, between, magnitude}
use secure_api_gateway.Prelude.Numerals.{parse_int}
use secure_api_gateway.Http.{Result, ok, raised, value_error}
use secure_api_gateway.Circuit.{Settings, second}

-- A float: ticks, or an infinity or NaN.
pub data Seconds : Type 0 where
  ticks : ℤ → Seconds
  not_finite : Seconds

-- `minimum <= value <= maximum`
unfoldable pub seconds_between : ℕ → ℕ → Seconds → Bool
unfolding between
seconds_between minimum maximum (ticks t) = between minimum maximum t
seconds_between minimum maximum not_finite = false

unfoldable pub ticks_of : Seconds → ℕ
ticks_of (ticks t) = magnitude t
ticks_of not_finite = 0

-- The constructor with __post_init__.
unfoldable pub make_settings : ℤ → Seconds → ℤ → Seconds → Result Settings
unfolding between seconds_between ticks_of
make_settings max_attempts retry_base_delay failure_threshold recovery_timeout =
    if not (between 1 3 max_attempts)
    then raised value_error
    else if not (seconds_between 0 (2 * second) retry_base_delay)
    then raised value_error
    else if not (between 1 20 failure_threshold)
    then raised value_error
    else if not (seconds_between second (300 * second) recovery_timeout)
    then raised value_error
    else ok (record {
      max_attempts = magnitude max_attempts;
      retry_base_delay = ticks_of retry_base_delay;
      failure_threshold = magnitude failure_threshold;
      recovery_timeout = ticks_of recovery_timeout;
    })

-- os.environ.get with a default
unfoldable pub getenv : (String → Option String) → String → String → String
getenv environ name default_value = elim (environ name) [
  | none ↦ default_value
  | some value ↦ value
]

-- The settings of the four values that could be read.
unfoldable pub settings_of : Option ℤ → Option Seconds → Option ℤ → Option Seconds → Result Settings
unfolding make_settings
settings_of (some attempts) (some delay) (some threshold) (some timeout) =
    make_settings attempts delay threshold timeout
settings_of _ _ _ _ = raised value_error

unfoldable pub from_environment :
    (String → Option Seconds) → (String → Option String) → Result Settings
unfolding parse_int settings_of getenv
from_environment float environ =
    settings_of (parse_int (text (getenv environ "UPSTREAM_MAX_ATTEMPTS" "2")))
      (float (getenv environ "UPSTREAM_RETRY_BASE_DELAY_SECONDS" "0.1"))
      (parse_int (text (getenv environ "UPSTREAM_CIRCUIT_FAILURE_THRESHOLD" "3")))
      (float (getenv environ "UPSTREAM_CIRCUIT_RECOVERY_SECONDS" "10"))
