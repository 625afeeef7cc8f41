-- ===== src/Service/Login.antt =====
-- services/LoginService.ts.
pub mod Refusal
pub mod Lockout
use bankos.Prelude.{
  ℕ, ◌+◌, ◌*◌, String, Bool, true, false, not, Option, none, some, List, if◌then◌else◌, Thrown,
  domain_error, Result, ok, err,
}
use bankos.Domain.User.{User, increment_failed_attempts, record_login}
use bankos.Domain.Session.{new_session}
use bankos.Crypto.Tokens.{generate_access_token, generate_refresh_token, decode}
use bankos.Engine.Authorization.{resolve_roles, resolve_permissions}
use bankos.Repository.Users as Users
use bankos.Repository.Sessions as Sessions
use bankos.Runtime.Packages.{Packages}
use bankos.Runtime.Action.{Action, pure, throw, lift, now, generate_uuid, hash_string, ◌>>=◌, ◌>>◌}
use bankos.Service.Setup.{
  Setup, LoginRequest, TokenPair, new_payload, expiry_claim, week_ms, dispatch_from, check_password,
}
use bankos.Validator.Email.{normalize, is_valid}

abbrev pub dummy_hash : String
dummy_hash = "$argon2id$v=19$m=65536,t=3,p=4$GKA/RZv83E8zMBbJ2CVpao0uZQWlLWfwBWo"

abbrev pub invalid_credentials : Thrown
invalid_credentials = domain_error "Invalid credentials"

-- The time at which a new session expires: that of its refresh token, or a week from now.
unfoldable pub expiry_or_week : Setup → Option ℕ → Action ℕ
expiry_or_week s none w = (do t ← now s.env; pure (t + week_ms)) w
expiry_or_week s (some exp) w = (ok (exp * 1000), w)

unfoldable pub session_expiry : Setup → String → Action ℕ
session_expiry s refresh_token =
    expiry_or_week s (expiry_claim (decode s.env s.config s.keys refresh_token))

module _ (s : Setup) (request : LoginRequest) where
  -- A password is checked on every path, so that the paths take the same time.
  unfoldable pub refuse : String → Action TokenPair
  refuse stored_hash = do
    check_password s stored_hash request.password_raw
    throw invalid_credentials

  unfoldable pub wrong_password : User → Action TokenPair
  wrong_password user = do
    Users.update s.env (increment_failed_attempts 5 user)
    throw invalid_credentials

  -- From `new DeviceSession(…)` on.
  unfoldable pub store_session : User → String → String → String → Action TokenPair
  store_session user session_id access_token refresh_token = do
    expires_at ← session_expiry s refresh_token
    created_at ← now s.env
    Sessions.save s.env (
        new_session session_id user.id (hash_string s.env refresh_token) request.ip_address
          request.user_agent expires_at created_at false)
    dispatch_from s.env request.ip_address request.user_agent user.domain_events
    pure (record { access_token = access_token; refresh_token = refresh_token })

  -- From the payload on.
  unfoldable pub sign_tokens : User → List String → List String → String → Action TokenPair
  sign_tokens user effective_roles effective_permissions session_id = do
    let payload = new_payload effective_roles effective_permissions session_id
    access_token ← generate_access_token s.env s.config s.keys payload user.id
    refresh_token ← generate_refresh_token s.env s.config s.keys payload user.id
    store_session user session_id access_token refresh_token

  unfoldable pub issue_tokens : User → Action TokenPair
  issue_tokens user = do
    direct_roles ← Users.find_roles s.env user.id
    effective_roles ← resolve_roles s.env direct_roles
    effective_permissions ← resolve_permissions s.env direct_roles
    session_id ← generate_uuid s.env
    sign_tokens user effective_roles effective_permissions session_id

  unfoldable pub accept : User → Action TokenPair
  accept user = do
    user' ← lift (record_login request.ip_address request.user_agent user)
    Users.update s.env user'
    issue_tokens user'

  unfoldable pub login_as : Option User → Action TokenPair
  login_as none w = refuse dummy_hash w
  login_as (some user) w =
      (if user.is_locked then refuse user.password_hash else (do
        is_valid_password ← check_password s user.password_hash request.password_raw
        if is_valid_password then accept user else wrong_password user))
        w

  -- `execute`
  unfoldable pub login : Action TokenPair
  login =
      let normalized_email = normalize s.env request.email in
      if not (is_valid normalized_email)
      then refuse dummy_hash
      else (do user ← Users.find_by_email s.env normalized_email; login_as user)
