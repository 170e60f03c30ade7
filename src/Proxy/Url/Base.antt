-- ===== src/Proxy/Url/Base.antt =====
-- What is known of the URL of a service, and of that of a request.
use secure_api_gateway.Prelude.{
  ◌≡◌, inl, inr, true, false, Option, String, ◌==◌, if◌then◌else◌, arith, refl, Bool-cases,
}
use secure_api_gateway.Prelude.Lists.{any}
use secure_api_gateway.Prelude.Texts.{text, is_space, strip_string}
use secure_api_gateway.Http.{Result, Result-cases, ok}
use secure_api_gateway.Authorization.{is_registered_service}
use secure_api_gateway.Proxy.Settings.{getenv}
use secure_api_gateway.Proxy.Url.{
  SplitResult, keep_before_slash, rstrip_slash, lstrip_slash, parts_valid, after_split,
  validate_service_base_url, get_service_base_url, target_url,
}
use Prim.Native.Char.{Char, code}
use Prim.Native.String.{◌++◌}
use package.text.Mathlib.Text.{◌==◌ as str_eq}

keep_before_slash_again :
    (c : Char) (s : String)
    → rstrip_slash s ≡ s
    → rstrip_slash (keep_before_slash c s) ≡ keep_before_slash c s
unfolding rstrip_slash keep_before_slash
keep_before_slash_again c String.[] h = elim (Bool-cases (code c == b'/')) [
  | inl e ↦ rw e refl
  | inr e ↦ rw (e, if◌then◌else◌, e) refl
]
keep_before_slash_again c (String.◌∷◌ d s) h = rw h refl

-- Stripping slashes once is enough.
rstrip_slash_again : (s : String) → rstrip_slash (rstrip_slash s) ≡ rstrip_slash s
unfolding rstrip_slash
rstrip_slash_again String.[] = refl
rstrip_slash_again (String.◌∷◌ c s) =
    keep_before_slash_again c (rstrip_slash s) (rstrip_slash_again s)

no_space_kept :
    (c : Char) (s : String)
    → is_space (code c) ≡ false
    → any is_space (text s) ≡ false
    → any is_space (text (keep_before_slash c s)) ≡ false
unfolding keep_before_slash
no_space_kept c String.[] h k = elim (Bool-cases (code c == b'/')) [
  | inl e ↦ rw e refl
  | inr e ↦ rw (e, if◌then◌else◌) (ground (arith, h))
]
no_space_kept c (String.◌∷◌ d s) h k = ground (arith, h, k)

rstrip_slash-no_space :
    (s : String) → any is_space (text s) ≡ false → any is_space (text (rstrip_slash s)) ≡ false
unfolding rstrip_slash
rstrip_slash-no_space String.[] h = h
rstrip_slash-no_space (String.◌∷◌ c s) h =
    no_space_kept c (rstrip_slash s) (ground (arith, h))
      (rstrip_slash-no_space s (ground (arith, h)))

module _ (urlsplit : String → Result SplitResult) where
  -- A URL that was accepted: without its final slashes and without white space, with an allowed
  -- scheme, a host, and no credentials, query or fragment.
  pub record IsBase (value url : String) : Type 0 where
    pub parsed : SplitResult
    pub split : urlsplit (strip_string value) ≡ ok parsed
    pub valid : parts_valid parsed ≡ true
    pub stripped : url ≡ rstrip_slash (strip_string value)
    pub ends : rstrip_slash url ≡ url
    pub no_space : any is_space (text url) ≡ false

  validated :
      (value url : String) → validate_service_base_url urlsplit value ≡ ok url → IsBase value url
  unfolding validate_service_base_url after_split
  validated value url h =
      let none_inside : any is_space (text (strip_string value)) ≡ false = ground (arith, h) in
      elim (Result-cases (urlsplit (strip_string value))) [
        | inr (e, r) ↦ ground (arith, h, r)
        | inl (parsed, r) ↦
            let is : url ≡ rstrip_slash (strip_string value) = ground (arith, h, r) in
            record {
              parsed = parsed;
              split = r;
              valid = ground (arith, h, r);
              stripped = is;
              ends = rw is (rstrip_slash_again (strip_string value));
              no_space = rw is (rstrip_slash-no_space (strip_string value) none_inside);
            }
      ]

  -- A service has a URL only if it is registered, and the URL is one that was accepted.
  pub get_service_base_url-IsBase :
      (environ : String → Option String) (service_name url : String)
      → get_service_base_url urlsplit environ service_name ≡ ok url
      → (is_registered_service service_name ≡ true) × ((value : String) × IsBase value url)
  unfolding get_service_base_url is_registered_service
  get_service_base_url-IsBase environ service_name url h =
      elim (Bool-cases (str_eq service_name "service-a")) [
        | inl a ↦
            let value = getenv environ "SERVICE_A_URL" "http://127.0.0.1:8001" in
            (ground (arith, a), (value, validated value url (ground (arith, h, a))))
        | inr a ↦
            let value = getenv environ "SERVICE_B_URL" "http://127.0.0.1:8002" in
            (ground (arith, a, h), (value, validated value url (ground (arith, h, a))))
      ]

  -- A request goes to a path below the URL of its service, with one slash between, however many
  -- slashes its path begins with.
  pub target_url-below :
      (environ : String → Option String) (service_name url path : String)
      → get_service_base_url urlsplit environ service_name ≡ ok url
      → target_url url path ≡ url ++ ("/" ++ lstrip_slash path)
  unfolding target_url
  target_url-below environ service_name url path h =
      let (_, (value, base)) = get_service_base_url-IsBase environ service_name url h in
      rw base.ends refl
