-- ===== src/Proxy/Headers/Tokens.antt =====
-- The tokens of Connection headers.
use secure_api_gateway.Prelude.{
  ℕ, ◌≡◌, Bool, true, ◌||◌, not, String, List, [], ◌∷◌, ◌++◌, ◌==◌, arith, refl, ap, ◌∙◌, none,
}
use secure_api_gateway.Prelude.Dict.{get}
use secure_api_gateway.Prelude.Lists.{All, all}
use secure_api_gateway.Prelude.Texts.{Text, text, is_in, strip, text_eq_refl}
use secure_api_gateway.Proxy.Headers.{
  lower, in_front, split, tokens_of, get_connection_header_tokens, request_header_blocked,
  response_header_blocked, filter_request_headers, filter_response_headers,
}
use secure_api_gateway.Proxy.Headers.Filtered.{
  filter_request_headers-kept, filter_response_headers-kept,
}

-- `separator.join(pieces)`
abbrev pub join : ℕ → List Text → Text
join separator [] = []
join separator (piece ∷ []) = piece
join separator (piece ∷ next ∷ pieces) = piece ++ separator ∷ join separator (next ∷ pieces)

-- A text without the character.
abbrev pub is_free : ℕ → Text → Bool
is_free separator = all (λ c. not (c == separator))

split_free : (separator : ℕ) (s : Text) → is_free separator s ≡ true → split separator s ≡ s ∷ []
unfolding split in_front
split_free separator [] h = refl
split_free separator (c ∷ s) h = ground (arith, h, split_free separator s (ground (arith, h)))

split_piece :
    (separator : ℕ) (piece s : Text)
    → is_free separator piece ≡ true
    → split separator (piece ++ separator ∷ s) ≡ piece ∷ split separator s
unfolding split in_front
split_piece separator [] s h = ground arith
split_piece separator (c ∷ piece) s h =
    ground (arith, h, split_piece separator piece s (ground (arith, h)))

-- Pieces without the separator, joined by it, are what splitting gives back.
pub split-join :
    (separator : ℕ) (piece : Text) (pieces : List Text)
    → All (λ p. is_free separator p ≡ true) (piece ∷ pieces)
    → split separator (join separator (piece ∷ pieces)) ≡ piece ∷ pieces
split-join separator piece [] h = split_free separator piece h.0
split-join separator piece (next ∷ pieces) h =
    split_piece separator piece (join separator (next ∷ pieces)) h.0
    ∙ ap (◌∷◌ piece) (split-join separator next pieces h.1)

is_in-append : (k : Text) (xs ys : List Text) → is_in k (xs ++ ys) ≡ (is_in k xs || is_in k ys)
unfolding is_in
is_in-append k [] ys = refl
is_in-append k (x ∷ xs) ys = ground (arith, is_in-append k xs ys)

token_found :
    (before after : List Text) (token : Text) (c : ℕ) (s : Text)
    → strip token ≡ c ∷ s
    → is_in (lower (c ∷ s)) (tokens_of (before ++ token ∷ after)) ≡ true
unfolding tokens_of is_in
token_found [] after token c s e = rw (is_in, e) (ground (arith, text_eq_refl (lower (c ∷ s))))
token_found (t ∷ before) after token c s e = ground (arith, token_found before after token c s e)

named_found :
    (before after : List (String × String)) (name value : String) (token : Text)
    → lower (text name) ≡ text "connection"
    → is_in token (tokens_of (split b',' (text value))) ≡ true
    → is_in token (get_connection_header_tokens (before ++ (name, value) ∷ after)) ≡ true
unfolding get_connection_header_tokens
named_found [] after name value token e h = ground (
  arith,
  e,
  h,
  text_eq_refl (text "connection"),
  is_in-append token (tokens_of (split b',' (text value))) (get_connection_header_tokens after),
)
named_found ((n, v) ∷ before) after name value token e h = ground (
  arith,
  named_found before after name value token e h,
  is_in-append token (tokens_of (split b',' (text v)))
      (get_connection_header_tokens (before ++ (name, value) ∷ after)),
)

-- A header that a Connection header names between commas, whatever the case and the spaces around
-- it, passes neither to the upstream nor back to the client.
pub connection_named_blocked :
    (before after : List (String × String)) (connection value : String) (piece : Text)
    (pieces left right : List Text) (token s : Text) (c : ℕ) (name : String)
    → lower (text connection) ≡ text "connection"
    → All (λ p. is_free b',' p ≡ true) (piece ∷ pieces)
    → text value ≡ join b',' (piece ∷ pieces)
    → piece ∷ pieces ≡ left ++ token ∷ right
    → strip token ≡ c ∷ s
    → lower (text name) ≡ lower (c ∷ s)
    → let headers = before ++ (connection, value) ∷ after in
      (get name (filter_request_headers headers) ≡ none)
      × (get name (filter_response_headers headers) ≡ none)
unfolding request_header_blocked response_header_blocked
connection_named_blocked before after connection value piece pieces left right token s c name e free
      joined splits stripped named =
    let headers = before ++ (connection, value) ∷ after in
    let found = token_found left right token c s stripped in
    let parts : split b',' (text value) ≡ left ++ token ∷ right =
      ap (split b',') joined ∙ split-join b',' piece pieces free ∙ splits in
    let listed : is_in (lower (text name)) (get_connection_header_tokens headers) ≡ true =
      rw named (named_found before after connection value (lower (c ∷ s)) e (rw parts found)) in
    (
      ground (arith, filter_request_headers-kept headers name, listed),
      ground (arith, filter_response_headers-kept headers name, listed),
    )
