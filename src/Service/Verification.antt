-- ===== src/Service/Verification.antt =====
-- services/SendVerificationEmailService.ts and services/VerifyEmailService.ts.
pub mod Failure
use bankos.Prelude.{
  ℕ, ◌+◌, ◌++◌, String, Bool, true, false, Option, none, some, List, [], ◌∷◌, if◌then◌else◌, Thrown,
  domain_error, Result, ok, err,
}
use bankos.Domain.Token.{
  EmailVerificationToken, new_email_token, email_token_expired, mark_email_token,
}
use bankos.Domain.User.{User, verify_email}
use bankos.Repository.EmailTokens as EmailTokens
use bankos.Repository.Users as Users
use bankos.Runtime.Packages.{Packages}
use bankos.Runtime.World.{World, verification}
use bankos.Runtime.Action.{
  Action, pure, throw, throw_if, lift, now, done, generate_token, hash_string, ◌>>=◌, ◌>>◌,
}
use bankos.Service.Recovery.{send}
use bankos.Service.Register.{day_ms}
use bankos.Service.Setup.{Setup, VerifyEmailRequest, dispatch_from}
use bankos.Validator.Email.{normalize}

module _ (s : Setup) where
  -- From `new EmailVerificationToken(…)` on.
  unfoldable pub keep_verification_token : User → String → ℕ → Action (Unit {0})
  keep_verification_token user raw_token t = do
    EmailTokens.save s.env
        (new_email_token (hash_string s.env raw_token) user.id (t + day_ms) false)
    send (verification user.email raw_token)

  unfoldable pub send_verification_to : Option User → Action (Unit {0})
  send_verification_to none w = (ok tt, w)
  send_verification_to (some user) w =
      (if user.email_verified then done else (do
        raw_token ← generate_token s.env 32
        t ← now s.env
        keep_verification_token user raw_token t))
        w

  -- `SendVerificationEmailService.execute`
  unfoldable pub send_verification_email : String → Action (Unit {0})
  send_verification_email email = do
    user ← Users.find_by_email s.env (normalize s.env email)
    send_verification_to user

abbrev pub invalid_verification_token : Thrown
invalid_verification_token = domain_error "Invalid or expired verification token"

module _ (s : Setup) (request : VerifyEmailRequest) where
  unfoldable pub verify_for : String → EmailVerificationToken → Option User → Action (Unit {0})
  verify_for hashed_token verification_token none w = (err invalid_verification_token, w)
  verify_for hashed_token verification_token (some user) w =
      (do
        Users.save s.env (verify_email user)
        t ← now s.env
        used ← lift (mark_email_token t verification_token)
        EmailTokens.delete s.env hashed_token
        dispatch_from s.env request.ip_address request.user_agent used.domain_events)
        w

  unfoldable pub verify_with : String → Option EmailVerificationToken → Action (Unit {0})
  verify_with hashed_token none w = (err invalid_verification_token, w)
  verify_with hashed_token (some verification_token) w =
      (do
        t ← now s.env
        throw_if (email_token_expired t verification_token) invalid_verification_token
        throw_if verification_token.is_used invalid_verification_token
        user ← Users.find_by_id s.env verification_token.user_id
        verify_for hashed_token verification_token user)
        w

  -- `VerifyEmailService.execute`
  unfoldable pub verify_email_token : Action (Unit {0})
  verify_email_token = do
    let hashed_token = hash_string s.env request.token
    verification_token ← EmailTokens.find_by_token s.env hashed_token
    verify_with hashed_token verification_token
