-- ===== src/Service/Recovery.antt =====
-- services/ForgotPasswordService.ts and services/ResetPasswordService.ts.
pub mod Failure
use bankos.Prelude.{
  ℕ, ◌+◌, ◌++◌, String, Bool, true, false, not, Option, none, some, List, [], ◌∷◌, if◌then◌else◌,
  Thrown, domain_error, Result, ok, err,
}
use bankos.Crypto.Passwords as Passwords
use bankos.Domain.Session.{DeviceSession, revoke}
use bankos.Domain.Token.{PasswordResetToken, new_reset_token, reset_token_expired, mark_reset_token}
use bankos.Domain.User.{User, change_password}
use bankos.Repository.ResetTokens as ResetTokens
use bankos.Repository.Sessions as Sessions
use bankos.Repository.Users as Users
use bankos.Runtime.Packages.{Packages}
use bankos.Runtime.World.{World, Mail, password_reset}
use bankos.Runtime.Action.{
  Action, pure, throw, throw_if, lift, now, generate_token, hash_string, for_each, ◌>>=◌, ◌>>◌,
}
use bankos.Service.Setup.{Setup, ForgotPasswordRequest, ResetPasswordRequest, dispatch_from}
use bankos.Validator.Email.{normalize, is_valid}
use bankos.Validator.Password.{validate}

-- 15 * 60 * 1000
abbrev pub quarter_hour_ms : ℕ
quarter_hour_ms = 900000

-- `mailer.sendPasswordReset` and its like.
abbrev pub send : Mail → Action (Unit {0})
send mail w = (ok tt, record w { mails = w.mails ++ mail ∷ [] })

module _ (s : Setup) (request : ForgotPasswordRequest) where
  -- From `new PasswordResetToken(…)` on.
  unfoldable pub keep_reset_token : User → String → ℕ → Action (Unit {0})
  keep_reset_token user raw_token t = do
    let reset_token =
        new_reset_token (hash_string s.env raw_token) user.id (t + quarter_hour_ms) false
    ResetTokens.save s.env reset_token
    send (password_reset user.email raw_token)
    dispatch_from s.env request.ip_address request.user_agent reset_token.domain_events

  unfoldable pub send_reset : Option User → Action (Unit {0})
  send_reset none w = (ok tt, w)
  send_reset (some user) w =
      (do raw_token ← generate_token s.env 32; t ← now s.env; keep_reset_token user raw_token t) w

  -- `execute`
  unfoldable pub forgot_password : Action (Unit {0})
  forgot_password = do
    let normalized_email = normalize s.env request.email
    throw_if (not (is_valid normalized_email)) (domain_error "Invalid email format")
    user ← Users.find_by_email s.env normalized_email
    send_reset user

abbrev pub invalid_reset_token : Thrown
invalid_reset_token = domain_error "Invalid or expired reset token"

module _ (s : Setup) (request : ResetPasswordRequest) where
  -- `for (const session of activeSessions)`, the first loop: the sessions as they are after it.
  unfoldable pub revoke_all : List DeviceSession → Action (List DeviceSession)
  revoke_all [] w = (ok [], w)
  revoke_all (session ∷ sessions) w =
      (do
        session' ← lift (revoke "Password changed" session)
        Sessions.save s.env session'
        rest ← revoke_all sessions
        pure (session' ∷ rest))
        w

  -- After `save`.
  unfoldable pub finish_reset : String → PasswordResetToken → User → Action (Unit {0})
  finish_reset hashed_token reset_token user = do
    t ← now s.env
    used ← lift (mark_reset_token t reset_token)
    ResetTokens.delete s.env hashed_token
    active_sessions ← Sessions.find_active_sessions s.env (some user.id)
    revoked ← revoke_all active_sessions
    dispatch_from s.env request.ip_address request.user_agent user.domain_events
    for_each
        (λ session. dispatch_from s.env request.ip_address request.user_agent session.domain_events)
        revoked

  -- The answer of `PasswordPolicy.validate` is not read.
  unfoldable pub reset_for : String → PasswordResetToken → Option User → Action (Unit {0})
  reset_for hashed_token reset_token none w = (err invalid_reset_token, w)
  reset_for hashed_token reset_token (some user) w =
      (do
        new_password_hash ← Passwords.hash s.env s.config request.new_password_raw
        user' ← lift (change_password new_password_hash user)
        Users.save s.env user'
        finish_reset hashed_token reset_token user')
        w

  unfoldable pub reset_with : String → Option PasswordResetToken → Action (Unit {0})
  reset_with hashed_token none w = (err invalid_reset_token, w)
  reset_with hashed_token (some reset_token) w =
      (do
        t ← now s.env
        throw_if (reset_token_expired t reset_token) invalid_reset_token
        throw_if reset_token.is_used invalid_reset_token
        user ← Users.find_by_id s.env reset_token.user_id
        reset_for hashed_token reset_token user)
        w

  -- `execute`
  unfoldable pub reset_password : Action (Unit {0})
  reset_password = do
    let hashed_token = hash_string s.env request.token
    reset_token ← ResetTokens.find_by_token s.env hashed_token
    reset_with hashed_token reset_token
