-- ===== src/Proxy/Route/Forwarding.antt =====
-- The headers that the upstream gets: those that the client may not set are the gateway's own.
use secure_api_gateway.Prelude.{
  ◌≡◌, ◌⊎◌, inl, inr, true, Option, none, some, String, arith, Bool-cases, subst,
}
use secure_api_gateway.Prelude.Dict.{Dict, get, put, get-put}
use secure_api_gateway.Prelude.Texts.{text}
use secure_api_gateway.Proxy.Headers.{request_header_blocked, filter_request_headers}
use secure_api_gateway.Proxy.Headers.Filtered.{filter_request_headers-kept}
use secure_api_gateway.Proxy.Route.{Incoming, put_if, non_empty, header_value, outgoing_headers}
use package.text.Mathlib.Text.{◌==◌ as str_eq}
use package.text.Mathlib.TextEquality.{eq_iff}

-- What the gateway sets of itself.
pub data SetByGateway (i : Incoming) : String → String → Type 0 where
  identifier : {id : String} → i.request.request_id ≡ some id → SetByGateway i "x-request-id" id
  client : {host : String} → i.client ≡ some host → SetByGateway i "x-forwarded-for" host
  scheme : SetByGateway i "x-forwarded-proto" i.scheme
  host :
      {name : String}
      → non_empty (header_value (text "host") i.headers) ≡ some name
      → SetByGateway i "x-forwarded-host" name

-- A header is what was put there, or was there before.
put_if_cases :
    (key name value : String) (o : Option String) (headers : Dict String)
    → get name (put_if key o headers) ≡ some value
    → ((key ≡ name) × (o ≡ some value)) ⊎ (get name headers ≡ some value)
unfolding put_if
put_if_cases key name value none headers h = inr h
put_if_cases key name value (some v) headers h = elim (Bool-cases (str_eq key name)) [
  | inl e ↦
      inl (ground (arith, e, eq_iff key name), ground (arith, h, e, get-put key name v headers))
  | inr e ↦ inr (ground (arith, h, e, get-put key name v headers))
]

-- A header that a client may not send reaches the upstream only as the gateway sets it: the
-- identifier of the request, the address of the client, the scheme, or the host that was asked for.
pub outgoing_headers-SetByGateway :
    (i : Incoming) (name value : String)
    → request_header_blocked i.headers name ≡ true
    → get name (outgoing_headers i) ≡ some value
    → SetByGateway i name value
unfolding outgoing_headers
outgoing_headers-SetByGateway i name value blocked h =
    let filtered = filter_request_headers i.headers in
    let identified = put_if "x-request-id" i.request.request_id filtered in
    let from_client = put_if "x-forwarded-for" i.client identified in
    let with_proto = put "x-forwarded-proto" i.scheme from_client in
    elim (put_if_cases "x-forwarded-host" name value
      (non_empty (header_value (text "host") i.headers)) with_proto h) [
        | inl (n, o) ↦ subst (λ k. SetByGateway i k value) n (host o)
        | inr h₁ ↦
            elim (put_if_cases "x-forwarded-proto" name value (some i.scheme) from_client
              (unfold put_if in h₁)) [
                | inl (n, o) ↦
                    subst (λ k. SetByGateway i k value) n
                      (subst (λ v. SetByGateway i "x-forwarded-proto" v) (ground (arith, o)) scheme)
                | inr h₂ ↦ elim (put_if_cases "x-forwarded-for" name value i.client identified h₂) [
                  | inl (n, o) ↦ subst (λ k. SetByGateway i k value) n (client o)
                  | inr h₃ ↦
                      elim (put_if_cases "x-request-id" name value i.request.request_id filtered
                        h₃) [
                          | inl (n, o) ↦ subst (λ k. SetByGateway i k value) n (identifier o)
                          | inr h₄ ↦
                              ground
                                (arith, h₄, blocked, filter_request_headers-kept i.headers name)
                        ]
                ]
              ]
      ]
