-- ===== src/Executor/Classify.antt =====
-- Which methods, transport errors and responses are retried or count against the circuit: the
-- functions of gateway/app/proxy/resilience.py. The exceptions of httpx are an enumeration of the
-- classes that the source tests; `other_request_error` is any further subclass of RequestError.
use secure_api_gateway.Prelude.{ℕ, Bool, true, false, ◌&&◌, List, [], ◌∷◌, leb, if◌then◌else◌}
use secure_api_gateway.Prelude.Texts.{Text, text, is_in, upper}

pub data RequestError : Type 0 where
  connect_error connect_timeout read_timeout write_timeout pool_timeout : RequestError
  other_request_error : RequestError

abbrev pub safe_retry_methods : List Text
safe_retry_methods = text "GET" ∷ text "HEAD" ∷ text "OPTIONS" ∷ []

unfoldable pub method_is_retryable : Text → Bool
unfolding is_in upper
method_is_retryable method = is_in (upper method) safe_retry_methods

-- isinstance(error, (httpx.ConnectError, httpx.ConnectTimeout))
abbrev pub is_connect : RequestError → Bool
is_connect connect_error = true
is_connect connect_timeout = true
is_connect _ = false

unfoldable pub transport_error_is_retryable : Text → RequestError → Bool
transport_error_is_retryable method e = if method_is_retryable method then is_connect e else false

unfoldable pub transport_error_counts_for_circuit : RequestError → Bool
transport_error_counts_for_circuit pool_timeout = false
transport_error_counts_for_circuit _ = true

unfoldable pub response_counts_for_circuit_failure : ℕ → Bool
response_counts_for_circuit_failure status_code = leb 500 status_code && leb status_code 599
