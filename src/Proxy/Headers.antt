-- ===== src/Proxy/Headers.antt =====
-- Which headers pass the proxy: gateway/app/proxy/headers.py. Header bytes are decoded as Latin-1, and
-- names are compared in lower case.
pub mod Filtered
pub mod Tokens
use secure_api_gateway.Prelude.{
  ℕ, ◌+◌, Bool, true, false, not, ◌&&◌, ◌||◌, String, List, [], ◌∷◌, ◌++◌, leb, ◌==◌, if◌then◌else◌,
  map,
}
use secure_api_gateway.Prelude.Dict.{Dict, put}
use secure_api_gateway.Prelude.Texts.{Text, text, text_eq, is_in, strip}

-- `str.lower` of a Latin-1 character.
unfoldable pub lower_char : ℕ → ℕ
lower_char c =
    if (leb b'A' c && leb c b'Z') || (leb 192 c && leb c 222 && not (c == 215)) then c + 32 else c

unfoldable pub lower : Text → Text
unfolding lower_char
lower = map lower_char

abbrev pub hop_by_hop_headers : List Text
hop_by_hop_headers =
    text "connection"
    ∷ text "keep-alive"
    ∷ text "proxy-authenticate"
    ∷ text "proxy-authorization"
    ∷ text "te"
    ∷ text "trailer"
    ∷ text "transfer-encoding"
    ∷ text "upgrade"
    ∷ []

abbrev pub spoofable_forwarding_headers : List Text
spoofable_forwarding_headers =
    text "forwarded"
    ∷ text "x-forwarded-for"
    ∷ text "x-forwarded-host"
    ∷ text "x-forwarded-proto"
    ∷ text "x-real-ip"
    ∷ []

abbrev pub spoofable_authorization_headers : List Text
spoofable_authorization_headers =
    text "x-role" ∷ text "x-user-role" ∷ text "x-permission" ∷ text "x-authorization-role" ∷ []

abbrev pub gateway_owned_observability_headers : List Text
gateway_owned_observability_headers = text "x-request-id" ∷ []

abbrev pub request_only_headers : List Text
request_only_headers = text "host" ∷ text "content-length" ∷ text "accept-encoding" ∷ []

abbrev pub response_only_headers : List Text
response_only_headers =
    text "content-length" ∷ text "content-encoding" ∷ text "date" ∷ text "server" ∷ []

-- A character in front of the first piece.
unfoldable pub in_front : ℕ → List Text → List Text
in_front c [] = (c ∷ []) ∷ []
in_front c (piece ∷ pieces) = (c ∷ piece) ∷ pieces

-- `value.split(separator)`
unfoldable pub split : ℕ → Text → List Text
unfolding in_front
split separator [] = [] ∷ []
split separator (c ∷ s) =
    let rest = split separator s in if c == separator then [] ∷ rest else in_front c rest

-- The tokens of one Connection header.
unfoldable pub tokens_of : List Text → List Text
unfolding strip lower
tokens_of [] = []
tokens_of (token ∷ tokens) =
    let rest = tokens_of tokens in elim (strip token) [ [] ↦ rest | c ∷ s ↦ lower (c ∷ s) ∷ rest ]

unfoldable pub get_connection_header_tokens : List (String × String) → List Text
unfolding lower text_eq split tokens_of
get_connection_header_tokens [] = []
get_connection_header_tokens ((name, value) ∷ headers) =
    let rest = get_connection_header_tokens headers in
    if text_eq (lower (text name)) (text "connection")
    then tokens_of (split b',' (text value)) ++ rest
    else rest

-- The dict comprehension: a name that occurs again replaces the value of the first.
unfoldable pub keep_headers : (String → Bool) → List (String × String) → Dict String → Dict String
keep_headers blocked [] kept = kept
keep_headers blocked ((name, value) ∷ headers) kept =
    keep_headers blocked headers (if blocked name then kept else put name value kept)

unfoldable pub request_header_blocked : List (String × String) → String → Bool
unfolding lower is_in get_connection_header_tokens
request_header_blocked headers name =
    let lowered = lower (text name) in
    is_in lowered hop_by_hop_headers
    || is_in lowered spoofable_forwarding_headers
    || is_in lowered spoofable_authorization_headers
    || is_in lowered gateway_owned_observability_headers
    || is_in lowered (get_connection_header_tokens headers)
    || is_in lowered request_only_headers

unfoldable pub filter_request_headers : List (String × String) → Dict String
unfolding keep_headers request_header_blocked
filter_request_headers headers = keep_headers (request_header_blocked headers) headers []

unfoldable pub response_header_blocked : List (String × String) → String → Bool
unfolding lower is_in get_connection_header_tokens
response_header_blocked headers name =
    let lowered = lower (text name) in
    is_in lowered hop_by_hop_headers
    || is_in lowered gateway_owned_observability_headers
    || is_in lowered (get_connection_header_tokens headers)
    || is_in lowered response_only_headers

unfoldable pub filter_response_headers : List (String × String) → Dict String
unfolding keep_headers response_header_blocked
filter_response_headers headers = keep_headers (response_header_blocked headers) headers []
