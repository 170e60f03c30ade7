-- ===== src/Authorization/RoleNames.antt =====
-- Names of roles: normalize_role_name of gateway/app/authorization/models.py.
use secure_api_gateway.Prelude.{
  ℕ, ◌≡◌, Bool, true, false, not, ◌&&◌, ◌||◌, String, [], ◌∷◌, leb, ◌==◌, if◌then◌else◌, arith,
}
use secure_api_gateway.Prelude.Lists.{length, all}
use secure_api_gateway.Prelude.Texts.{
  Text, text, is_lower, is_digit, is_space, is_stripped, starts_with_space, ends_with_space,
}
use secure_api_gateway.Http.{Result, ok, raised, role_name_policy_error}
use secure_api_gateway.Audit.{optional_code_valid}
use secure_api_gateway.Audit.Trusted.{IsCode}

unfoldable pub is_role_char : ℕ → Bool
unfolding is_lower is_digit
is_role_char c = is_lower c || is_digit c || c == b'_' || c == b'-'

-- Whether ROLE_NAME_PATTERN matches.
unfoldable pub is_role_name : Text → Bool
unfolding is_role_char is_lower
is_role_name [] = false
is_role_name (c ∷ s) = is_lower c && all is_role_char s

unfoldable pub normalize_role_name : (String → String) → String → Result String
unfolding is_role_name
normalize_role_name normalize role_name =
    let normalized = normalize role_name in
    let chars = text normalized in
    if length chars == 0
    then raised role_name_policy_error
    else if not (leb (length chars) 64)
    then raised role_name_policy_error
    else if not (is_role_name chars)
    then raised role_name_policy_error
    else ok normalized

-- Unicode normalization changes no text that is already a role name.
abbrev pub FixesNames : (String → String) → Type 0
FixesNames normalize = (name : String) → is_role_name (text name) ≡ true → normalize name ≡ name

pub normalized-IsNamed :
    (normalize : String → String) (name role : String)
    → normalize_role_name normalize name ≡ ok role
    → (is_role_name (text role) ≡ true)
      × (leb (length (text role)) 64 ≡ true)
      × (role ≡ normalize name)
unfolding normalize_role_name
normalized-IsNamed normalize name role h = (ground (arith, h), ground (arith, h), ground (arith, h))

named_again :
    (normalize : String → String) (role : String)
    → normalize role ≡ role
    → is_role_name (text role) ≡ true
    → leb (length (text role)) 64 ≡ true
    → normalize_role_name normalize role ≡ ok role
unfolding normalize_role_name is_role_name
named_again normalize role e n l = rw e (ground (arith, n, l))

-- The normal form of a role name is its own normal form, as long as Unicode normalization changes
-- no text that is already a role name.
pub normalize_role_name_again :
    (normalize : String → String) (name role : String)
    → FixesNames normalize
    → normalize_role_name normalize name ≡ ok role
    → normalize_role_name normalize role ≡ ok role
normalize_role_name_again normalize name role fixes h =
    let (named, short, _) = normalized-IsNamed normalize name role h in
    named_again normalize role (fixes role named) named short

no_space : (c : ℕ) → is_role_char c ≡ true → is_space c ≡ false
unfolding is_role_char is_lower is_digit is_space
no_space c h = ground arith

ends :
    (c : ℕ) (s : Text)
    → is_role_char c ≡ true
    → all is_role_char s ≡ true
    → ends_with_space (c ∷ s) ≡ false
unfolding ends_with_space
ends c [] h a = no_space c h
ends c (d ∷ s) h a = ends d s (ground (arith, a)) (ground (arith, a))

name_stripped : (s : Text) → is_role_name s ≡ true → is_stripped s ≡ true
unfolding is_role_name is_stripped starts_with_space is_role_char
name_stripped [] h = ground (arith, h)
name_stripped (c ∷ s) h =
    let role_char : is_role_char c ≡ true = ground (arith, h) in
    ground (arith, ends c s role_char (ground (arith, h)), no_space c role_char)

-- A role name can stand in a security event.
pub role-IsCode :
    (normalize : String → String) (name role : String)
    → normalize_role_name normalize name ≡ ok role
    → IsCode role
unfolding optional_code_valid is_role_name
role-IsCode normalize name role h =
    let (named, short, _) = normalized-IsNamed normalize name role h in
    ground (arith, named, short, name_stripped (text role) named)
