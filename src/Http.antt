-- ===== src/Http.antt =====
-- The exceptions of the gateway, the HTTP errors that handlers raise, and actions that change a
-- state and may raise.
use secure_api_gateway.Prelude.{
  ◌≡◌, refl, ◌⊎◌, inl, inr, arith, ℕ, String, List, Bool, true, false, Option,
}

-- The value of a header: a text, or `str(n)`.
pub data HeaderValue : Type 0 where
  word : String → HeaderValue
  number : ℕ → HeaderValue

-- fastapi.HTTPException
pub record HttpException : Type 0 where
  pub status_code : ℕ
  pub detail : String
  pub headers : List (String × HeaderValue)

-- What an exception of the database driver says of its error code, under either name.
pub record DriverError : Type 0 where
  pub sqlstate : Option String
  pub pgcode : Option String

-- sqlalchemy.exc.IntegrityError: the exception of the driver, with its cause and its context.
pub record IntegrityError : Type 0 where
  pub orig : Option DriverError
  pub cause : Option DriverError
  pub context : Option DriverError

-- The exception classes that the handlers tell apart. ValueError and RuntimeError stand for those
-- classes themselves, not for their subclasses in this list.
pub data Exn : Type 0 where
  http : HttpException → Exn
  authentication_error : Exn
  user_already_exists_error user_not_found_error user_repository_backend_error : Exn
  username_policy_error password_policy_error : Exn
  token_creation_error token_validation_error : Exn
  authorization_denied_error authorization_repository_backend_error : Exn
  role_not_found_error user_authorization_not_found_error : Exn
  role_name_policy_error permission_code_policy_error : Exn
  rate_limit_backend_error login_protection_backend_error : Exn
  audit_repository_backend_error : Exn
  -- SQLAlchemyError, but for IntegrityError, and OSError
  database_error : Exn
  integrity_error : IntegrityError → Exn
  unknown_service_error invalid_service_configuration_error : Exn
  auth_configuration_error rate_limit_config_error : Exn
  value_error runtime_error lookup_error : Exn
  -- any exception that no handler names, and the cancellation of the task
  unforeseen_error cancelled_error : Exn

pub data Result (A : Type 0) : Type 0 where
  ok : A → Result A
  raised : Exn → Result A

pub Result-cases :
    {A : Type 0} (r : Result A) → ((a : A) × (r ≡ ok a)) ⊎ ((e : Exn) × (r ≡ raised e))
Result-cases (ok a) = inl (a, refl)
Result-cases (raised e) = inr (e, refl)

-- What was changed before an exception stays changed.
abbrev pub Action : Type 0 → Type 0 → Type 0
Action S A = S → Result A × S

module _ {S A : Type 0} where
  abbrev pub pure : A → Action S A
  pure a s = (ok a, s)

  abbrev pub raise : Exn → Action S A
  raise e s = (raised e, s)

  abbrev pub lift : Result A → Action S A
  lift r s = (r, s)

  -- `try: … except …: …`, where the handler raises again what it does not name.
  abbrev pub try_except : Action S A → (Exn → Action S A) → Action S A
  try_except m h s = let r = m s in elim r.0 [ ok a ↦ (ok a, r.1) | raised e ↦ h e r.1 ]

infixl 5 ◌>>=◌ ◌>>◌
abbrev pub ◌>>=◌ : {S A B : Type 0} → Action S A → (A → Action S B) → Action S B
◌>>=◌ m f s = let r = m s in elim r.0 [ ok a ↦ f a r.1 | raised e ↦ (raised e, r.1) ]

abbrev pub ◌>>◌ : {S A B : Type 0} → Action S A → Action S B → Action S B
m >> k = m >>= λ _. k

abbrev pub when : {S : Type 0} → Bool → Action S (Unit {0}) → Action S (Unit {0})
when true m = m
when false m = pure tt

-- A sequence that returns went through what its first part returned.
pub bind-ok :
    {S A B : Type 0} (m : Action S A) (f : A → Action S B) (s : S) (b : B)
    → ((m >>= f) s).0 ≡ ok b
    → (a : A) × ((m s).0 ≡ ok a) × ((f a (m s).1).0 ≡ ok b) × (((m >>= f) s).1 ≡ (f a (m s).1).1)
bind-ok m f s b h = elim (Result-cases (m s).0) [
  | inl (a, e) ↦ (a, e, ground (arith, e, h), ground (arith, e))
  | inr (x, e) ↦ ground (arith, e, h)
]

-- A property of the state that an action keeps is kept by what it is made of.
module _ {S : Type 0} (P : S → Type 0) where
  abbrev pub Keeps : {A : Type 0} → Action S A → Type 0
  Keeps m = (s : S) → P s → P (m s).1

  pub bind-Keeps :
      {A B : Type 0} (m : Action S A) (f : A → Action S B)
      → Keeps m
      → ((a : A) → Keeps (f a))
      → Keeps (m >>= f)
  bind-Keeps m f h k s p = elim (Result-cases (m s).0) [
    | inl (a, e) ↦ rw (e, ◌>>=◌) (k a (m s).1 (h s p))
    | inr (x, e) ↦ rw (e, ◌>>=◌) (h s p)
  ]

  pub try_except-Keeps :
      {A : Type 0} (m : Action S A) (handler : Exn → Action S A)
      → Keeps m
      → ((x : Exn) → Keeps (handler x))
      → Keeps (try_except m handler)
  try_except-Keeps m handler h k s p = elim (Result-cases (m s).0) [
    | inl (a, e) ↦ rw (e, try_except) (h s p)
    | inr (x, e) ↦ rw (e, try_except) (k x (m s).1 (h s p))
  ]
