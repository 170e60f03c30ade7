-- ===== src/Fixtures.antt =====
-- Concrete requests and states for the tests of the handlers.
use secure_api_gateway.Prelude.{ℕ, ◌≡◌, true, Option, some, String, [], ◌∷◌, refl}
use secure_api_gateway.Prelude.Texts.{
  text, upper, upper_char, is_stripped, starts_with_space, ends_with_space, is_space,
}
use secure_api_gateway.Redis.Memory.{memory}
use secure_api_gateway.Http.{audit_repository_backend_error}
use secure_api_gateway.Login.Client.{Policy, Identity}
use secure_api_gateway.Audit.{Request, Trail, optional_code_valid}
use secure_api_gateway.Audit.Trusted.{IsTrusted}
use secure_api_gateway.World.{Services, World}

abbrev pub parse_uuid : String → Option String
parse_uuid s = some s

abbrev pub post_request : Request
post_request = record {
  method = text "post";
  request_id = some "request-1";
  has_audit_service = true;
}

pub post_method : optional_code_valid 16 (some (upper post_request.method)) ≡ true
unfolding optional_code_valid upper upper_char is_stripped starts_with_space ends_with_space
    is_space
post_method = refl

abbrev pub trusted_post : IsTrusted parse_uuid post_request
trusted_post = record {
  given = "request-1";
  uuid = "request-1";
  is_given = refl;
  is_uuid = refl;
  method = post_method;
}

-- A trail whose database fails at the first event.
abbrev pub failing_trail : Trail
failing_trail = record {
  log = [];
  rows = [];
  metrics = [];
  storage = some audit_repository_backend_error ∷ [];
}

abbrev pub services : Services
services = record { redis = memory; Users = ℕ; Limits = ℕ; Roles = ℕ }

abbrev pub world_of : memory.Store → World services
world_of store = record {
  trail = failing_trail;
  login = record { store = store; faults = [] };
  users = 7;
  limits = 3;
  roles = 0;
  headers = [];
  rate_metrics = [];
}

abbrev pub account_policy : Policy
account_policy = record {
  name = "account-login";
  failure_threshold = 5;
  failure_window_seconds = 900;
  lockout_seconds = 300;
}

abbrev pub plain_identity : Identity
plain_identity = record { normalize = λ s. s; digest = λ s. s }
