-- ===== src/Auth.antt =====
-- Authentication: gateway/app/auth. The models of models.py, and the operations of
-- AuthenticationService that the handlers of router.py call, as an interface.
pub mod Router
pub mod Token
pub mod Verdict
pub mod Granting
pub mod Locked
pub mod Tokens
pub mod Service
pub mod Users
pub mod CurrentUser
pub mod Config
mod Examples
use secure_api_gateway.Prelude.{ℕ, Bool, String}
use secure_api_gateway.Http.{Action}

-- The time of the creation of a user is left out: nothing here reads it.
pub record UserPublic : Type 0 where
  pub id : String
  pub username : String
  pub is_active : Bool

pub record AuthenticationResult : Type 0 where
  pub access_token : String
  pub user : UserPublic

pub record UserRegistration : Type 0 where
  pub username : String
  pub password : String

pub record AuthenticationService (Users : Type 0) : Type 0 where
  pub register_user : UserRegistration → Action Users UserPublic
  pub authenticate_and_create_result : String → String → Action Users AuthenticationResult
