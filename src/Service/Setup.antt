-- ===== src/Service/Setup.antt =====
-- What every service is constructed with, the requests (dtos), and the tokens of a session.
use bankos.Prelude.{ℕ, String, Bool, Option, none, some, List, map, ◌==◌, if◌then◌else◌}
use bankos.Config.{Config}
use bankos.Crypto.Keys.{KeyManager}
use bankos.Crypto.Passwords as Passwords
use bankos.Domain.Event.{Event, with_metadata}
use bankos.Events.{dispatch}
use bankos.Runtime.Packages.{Packages, Claims, Payload}
use bankos.Runtime.Action.{Action, pure}

pub record Setup : Type 0 where
  pub env : Packages
  pub config : Config
  pub keys : KeyManager

pub record LoginRequest : Type 0 where
  pub email : String
  pub password_raw : String
  pub ip_address : String
  pub user_agent : String

pub record RegisterUserRequest : Type 0 where
  pub email : String
  pub password_raw : String
  pub ip_address : String
  pub user_agent : String

pub record RegisterUserResponse : Type 0 where
  pub id : String
  pub email : String

pub record LogoutRequest : Type 0 where
  pub access_token : String
  pub refresh_token : String

pub record ForgotPasswordRequest : Type 0 where
  pub email : String
  pub ip_address : String
  pub user_agent : String

pub record ResetPasswordRequest : Type 0 where
  pub token : String
  pub new_password_raw : String
  pub ip_address : String
  pub user_agent : String

pub record VerifyEmailRequest : Type 0 where
  pub token : String
  pub ip_address : String
  pub user_agent : String

-- `LoginResponse` and `RefreshTokenResponse`.
pub record TokenPair : Type 0 where
  pub access_token : String
  pub refresh_token : String

abbrev pub new_payload : List String → List String → String → Payload
new_payload roles permissions session_id = record {
  roles = roles;
  permissions = permissions;
  session_id = session_id;
  token_version = 1;
  tenant_id = "default";
}

-- `decoded && decoded.exp`: a missing `exp` and 0 are falsy.
unfoldable pub expiry_claim : Option Claims → Option ℕ
expiry_claim none = none
expiry_claim (some claims) = elim claims.exp [
  | none ↦ none
  | some exp ↦ if exp == 0 then none else some exp
]

-- 7 * 24 * 60 * 60 * 1000
abbrev pub week_ms : ℕ
week_ms = 604800000

-- `for (const event of events) event.metadata = { ipAddress, userAgent }`, then the dispatch.
unfoldable pub dispatch_from : Packages → String → String → List Event → Action (Unit {0})
dispatch_from env ip_address user_agent events =
    dispatch env
      (map (with_metadata (record { ip_address = ip_address; user_agent = user_agent })) events)

-- `passwordHasher.verify`, which waits for the answer and changes nothing.
unfoldable pub check_password : Setup → String → String → Action Bool
check_password s stored_hash password_raw =
    pure (Passwords.verify s.env s.config stored_hash password_raw)
