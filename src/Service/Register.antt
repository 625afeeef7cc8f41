-- ===== src/Service/Register.antt =====
-- services/RegisterUserService.ts.
pub mod Conflict
use bankos.Prelude.{ℕ, ◌+◌, String, true, false, not, Option, none, some, domain_error, err}
use bankos.Crypto.Passwords as Passwords
use bankos.Domain.Access.{Role}
use bankos.Domain.User.{User, new_user}
use bankos.Domain.Token.{new_email_token}
use bankos.Repository.EmailTokens as EmailTokens
use bankos.Repository.Roles as Roles
use bankos.Repository.Users as Users
use bankos.Runtime.Action.{
  Action, pure, throw_if, now, generate_uuid, generate_token, hash_string, ◌>>=◌, ◌>>◌,
}
use bankos.Service.Setup.{Setup, RegisterUserRequest, RegisterUserResponse, dispatch_from}
use bankos.Validator.Email.{normalize, is_valid}
use bankos.Validator.Password.{validate}

-- 24 * 60 * 60 * 1000
abbrev pub day_ms : ℕ
day_ms = 86400000

module _ (s : Setup) (request : RegisterUserRequest) where
  -- From `new EmailVerificationToken(…)` on.
  unfoldable pub keep_email_token : User → String → ℕ → Action RegisterUserResponse
  keep_email_token user token_raw t = do
    EmailTokens.save s.env
        (new_email_token (hash_string s.env token_raw) user.id (t + day_ms) false)
    dispatch_from s.env request.ip_address request.user_agent user.domain_events
    pure (record { id = user.id; email = user.email })

  -- From the verification token on.
  unfoldable pub finish_registration : User → Action RegisterUserResponse
  finish_registration user = do
    token_raw ← generate_token s.env 32
    t ← now s.env
    keep_email_token user token_raw t

  -- From `save` on.
  unfoldable pub store_user : User → Role → Action RegisterUserResponse
  store_user user default_role = do
    Users.save s.env user
    Users.assign_role s.env user.id default_role.name
    finish_registration user

  unfoldable pub register_with : String → Option Role → Action RegisterUserResponse
  register_with normalized_email none w = (err (domain_error "Default role not found"), w)
  register_with normalized_email (some default_role) w =
      (do
        password_hash ← Passwords.hash s.env s.config request.password_raw
        id ← generate_uuid s.env
        store_user (new_user id normalized_email password_hash false 0 false true) default_role)
        w

  -- `execute`
  unfoldable pub register : Action RegisterUserResponse
  register = do
    let normalized_email = normalize s.env request.email
    throw_if (not (is_valid normalized_email)) (domain_error "Invalid email format")
    throw_if (not (validate request.password_raw))
        (domain_error "Password does not meet policy requirements")
    email_exists ← Users.exists s.env normalized_email
    throw_if email_exists (domain_error "Email is already registered")
    default_role ← Roles.find_by_name s.env "user"
    register_with normalized_email default_role
