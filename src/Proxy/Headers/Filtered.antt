-- ===== src/Proxy/Headers/Filtered.antt =====
-- The filters keep exactly the headers that are not blocked.
use secure_api_gateway.Prelude.{
  ◌≡◌, inl, inr, Bool, true, false, Option, none, some, String, List, [], ◌∷◌, arith, if◌then◌else◌,
  Bool-cases, subst,
}
use secure_api_gateway.Prelude.Dict.{Dict, get, put, get-put}
use secure_api_gateway.Proxy.Headers.{
  keep_headers, request_header_blocked, filter_request_headers, response_header_blocked,
  filter_response_headers,
}
use text.Mathlib.Text.{◌==◌ as str_eq}
use text.Mathlib.TextEquality.{eq_iff}

-- The first of two values that is there.
abbrev pub or_else : Option String → Option String → Option String
or_else none o = o
or_else (some v) o = some v

-- The value that a list of headers gives a name: the last one.
abbrev pub last_value : String → List (String × String) → Option String
last_value name [] = none
last_value name ((other, value) ∷ headers) =
    or_else (last_value name headers) (if str_eq other name then some value else none)

-- What a filter does to one name.
abbrev pub unless : Bool → Option String → Option String
unless blocked value = if blocked then none else value

kept_value :
    (blocked : String → Bool) (headers : List (String × String)) (kept : Dict String)
    (name : String)
    → get name (keep_headers blocked headers kept)
      ≡ or_else (unless (blocked name) (last_value name headers)) (get name kept)
unfolding keep_headers
kept_value blocked [] kept name = ground arith
kept_value blocked ((other, value) ∷ headers) kept name = elim (Bool-cases (blocked other)) [
  | inl e ↦
      let ih = kept_value blocked headers kept name in
      elim (Bool-cases (str_eq other name)) [
        | inl same ↦
            let n : other ≡ name = ground (arith, same, eq_iff other name) in
            let b : blocked name ≡ true = subst (λ k. blocked k ≡ true) n e in
            ground (arith, e, b, ih)
        | inr differ ↦ ground (arith, e, ih, differ)
      ]
  | inr e ↦
      let ih = kept_value blocked headers (put other value kept) name in
      elim (Bool-cases (str_eq other name)) [
        | inl same ↦
            let n : other ≡ name = ground (arith, same, eq_iff other name) in
            let b : blocked name ≡ false = subst (λ k. blocked k ≡ false) n e in
            ground (arith, e, b, ih, same, get-put other name value kept)
        | inr differ ↦ ground (arith, e, ih, differ, get-put other name value kept)
      ]
]

-- A request is forwarded with exactly those of its headers that are not blocked, each with its last
-- value.
pub filter_request_headers-kept :
    (headers : List (String × String)) (name : String)
    → get name (filter_request_headers headers)
      ≡ unless (request_header_blocked headers name) (last_value name headers)
unfolding filter_request_headers get
filter_request_headers-kept headers name =
    ground (arith, kept_value (request_header_blocked headers) headers [] name)

-- A response is passed on with exactly those of its headers that are not blocked, each with its last
-- value.
pub filter_response_headers-kept :
    (headers : List (String × String)) (name : String)
    → get name (filter_response_headers headers)
      ≡ unless (response_header_blocked headers name) (last_value name headers)
unfolding filter_response_headers get
filter_response_headers-kept headers name =
    ground (arith, kept_value (response_header_blocked headers) headers [] name)
