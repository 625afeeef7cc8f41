-- ===== src/Lifecycle/Recoveries.antt =====
-- The recovery of a password, the verification of an e-mail, and the life of the sessions.
use bankos.Prelude.{
  ℕ, ◌+◌, String, refl, inl, inr, false, not, Option, none, some, Bool-cases, arith, domain_error,
}
use bankos.Database.{IsPrisma}
use bankos.Domain.Token.{new_reset_token, new_email_token}
use bankos.Domain.User.{User}
use bankos.Lifecycle.Parts.{
  find_by_email-IsQuiet, save_email_token-IsQuiet, save_reset_token-IsQuiet, send-IsQuiet,
}
use bankos.Lifecycle.Quiet.{IsQuiet, bind-IsQuiet, dispatch_from-IsQuiet, throw_if-IsQuiet}
use bankos.Repository.EmailTokens as EmailTokens
use bankos.Repository.ResetTokens as ResetTokens
use bankos.Repository.Users as Users
use bankos.Runtime.Action.{throw_if, hash_string}
use bankos.Runtime.World.{verification, password_reset}
use bankos.Service.Recovery.{
  send, quarter_hour_ms, keep_reset_token, send_reset, forgot_password, reset_password,
}
use bankos.Service.Recovery.Failure.{reset_password_fails}
use bankos.Service.Register.{day_ms}
use bankos.Service.Setup.{
  Setup, ForgotPasswordRequest, ResetPasswordRequest, VerifyEmailRequest, dispatch_from,
}
use bankos.Service.Verification.{
  keep_verification_token, send_verification_to, send_verification_email, verify_email_token,
}
use bankos.Service.Verification.Failure.{verify_email_token_fails}
use bankos.Validator.Email.{normalize, is_valid}

module _ (s : Setup) where
  module _ (request : ForgotPasswordRequest) where
    keep_reset_token-IsQuiet :
        (user : User) (raw : String) (t : ℕ) → IsQuiet (keep_reset_token s request user raw t)
    unfolding keep_reset_token
    keep_reset_token-IsQuiet user raw t w =
        let token = new_reset_token (hash_string s.env raw) user.id (t + quarter_hour_ms) false in
        bind-IsQuiet (ResetTokens.save s.env token) _ (save_reset_token-IsQuiet s token)
          (λ _.
            bind-IsQuiet (send (password_reset user.email raw))
              (λ _. dispatch_from s.env request.ip_address request.user_agent token.domain_events)
              (send-IsQuiet (password_reset user.email raw))
              (λ _.
                dispatch_from-IsQuiet s.env request.ip_address request.user_agent
                  token.domain_events))
          w

    send_reset-IsQuiet : (found : Option User) → IsQuiet (send_reset s request found)
    unfolding send_reset
    send_reset-IsQuiet none w = (refl, omega arith)
    send_reset-IsQuiet (some user) w =
        let (same, grows) =
          keep_reset_token-IsQuiet user (s.env.random_bytes_hex w.draws 32) (s.env.time w.ticks)
            (record w { draws = w.draws + 1; ticks = w.ticks + 1 }) in
        (same, omega (arith, grows))

    pub forgot_password-IsQuiet : IsQuiet (forgot_password s request)
    unfolding forgot_password
    forgot_password-IsQuiet w =
        let email = normalize s.env request.email in
        bind-IsQuiet (throw_if (not (is_valid email)) (domain_error "Invalid email format")) _
          (throw_if-IsQuiet _ _)
          (λ _.
            bind-IsQuiet (Users.find_by_email s.env email) (send_reset s request)
              (find_by_email-IsQuiet s email) send_reset-IsQuiet)
          w

  keep_verification_token-IsQuiet :
      (user : User) (raw : String) (t : ℕ) → IsQuiet (keep_verification_token s user raw t)
  unfolding keep_verification_token
  keep_verification_token-IsQuiet user raw t w =
      let token = new_email_token (hash_string s.env raw) user.id (t + day_ms) false in
      bind-IsQuiet (EmailTokens.save s.env token) (λ _. send (verification user.email raw))
        (save_email_token-IsQuiet s token) (λ _. send-IsQuiet (verification user.email raw)) w

  send_verification_to-IsQuiet : (found : Option User) → IsQuiet (send_verification_to s found)
  unfolding send_verification_to
  send_verification_to-IsQuiet none w = (refl, omega arith)
  send_verification_to-IsQuiet (some user) w = elim (Bool-cases user.email_verified) [
    | inl verified ↦ simp verified (refl, omega arith)
    | inr unverified ↦
        let (same, grows) =
          keep_verification_token-IsQuiet user (s.env.random_bytes_hex w.draws 32)
            (s.env.time w.ticks) (record w { draws = w.draws + 1; ticks = w.ticks + 1 }) in
        simp unverified (same, omega (arith, grows))
  ]

  pub send_verification_email-IsQuiet : (email : String) → IsQuiet (send_verification_email s email)
  unfolding send_verification_email
  send_verification_email-IsQuiet email w =
      bind-IsQuiet (Users.find_by_email s.env (normalize s.env email)) (send_verification_to s)
        (find_by_email-IsQuiet s (normalize s.env email)) send_verification_to-IsQuiet w

  module _ (laws : IsPrisma s.env.prisma) where
    pub reset_password-IsQuiet :
        (request : ResetPasswordRequest) → IsQuiet (reset_password s request)
    reset_password-IsQuiet request w =
        let (_, _, _, same, _, grows) = reset_password_fails s laws request w in (same, grows)

    pub verify_email_token-IsQuiet :
        (request : VerifyEmailRequest) → IsQuiet (verify_email_token s request)
    verify_email_token-IsQuiet request w =
        let (_, _, _, same, _, grows) = verify_email_token_fails s laws request w in (same, grows)
