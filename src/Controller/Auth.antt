-- ===== src/Controller/Auth.antt =====
-- controllers/AuthController.ts and mappers/AuthResponseMapper.ts.
use bankos.Prelude.{
  ℕ, String, List, [], ◌∷◌, includes, ◌===◌, ◌||◌, if◌then◌else◌, Thrown, domain_error,
  invalid_state, failure, Result, ok, err,
}
use bankos.Runtime.World.{World}
use bankos.Runtime.Action.{Action}
use bankos.Service.Login as Login
use bankos.Service.Logout as Logout
use bankos.Service.Recovery as Recovery
use bankos.Service.Refresh as Refresh
use bankos.Service.Register as Register
use bankos.Service.Setup.{
  Setup, LoginRequest, RegisterUserRequest, RegisterUserResponse, LogoutRequest,
  ForgotPasswordRequest, ResetPasswordRequest, VerifyEmailRequest, TokenPair,
}
use bankos.Service.Verification as Verification

-- `toSuccess(data)` and `toError(code, message)` with the status.
pub data Reply (A : Type 0) : Type 0 where
  success : ℕ → A → Reply A
  refusal : ℕ → (code message : String) → Reply A

abbrev pub unauthorized_messages : List String
unauthorized_messages =
    "Invalid credentials" ∷ "Invalid refresh token" ∷ "Invalid refresh token payload"
    ∷ "Token replay detected" ∷ "Session is revoked" ∷ "Session expired"
    ∷ "Invalid tokens provided for logout" ∷ "Invalid refresh token for session"
    ∷ "Invalid or expired reset token" ∷ []

module _ {A : Type 0} where
  unfoldable pub refuse_message : String → Reply A
  refuse_message msg =
      if msg === "Email already in use"
      then refusal 409 "CONFLICT" msg
      else if (msg === "Session not found") || (msg === "User not found")
      then refusal 404 "NOT_FOUND" msg
      else if msg === "User is invalid or locked"
      then refusal 403 "FORBIDDEN" msg
      else if includes unauthorized_messages msg
      then refusal 401 "UNAUTHORIZED" msg
      else refusal 400 "BAD_REQUEST" msg

  -- `handleError`
  unfoldable pub handle_error : Thrown → Reply A
  handle_error (domain_error msg) = refuse_message msg
  handle_error (invalid_state msg) = refuse_message msg
  handle_error (failure msg) = refusal 500 "INTERNAL_ERROR" "An unexpected error occurred"

  unfoldable pub reply_to : ℕ → Result A → Reply A
  reply_to status (ok a) = success status a
  reply_to status (err e) = handle_error e

  -- `try { … res.status(status).json(…) } catch (error) { this.handleError(error, res) }`
  unfoldable pub respond_with : ℕ → Action A → World → Reply A × World
  respond_with status m w = let outcome = m w in (reply_to status outcome.0, outcome.1)

module _ (s : Setup) where
  unfoldable pub register : RegisterUserRequest → World → Reply RegisterUserResponse × World
  register request = respond_with 201 (Register.register s request)

  unfoldable pub login : LoginRequest → World → Reply TokenPair × World
  login request = respond_with 200 (Login.login s request)

  unfoldable pub refresh :
      (refresh_token ip_address user_agent : String) → World → Reply TokenPair × World
  refresh refresh_token ip_address user_agent =
      respond_with 200 (Refresh.refresh s refresh_token ip_address user_agent)

  unfoldable pub logout :
      LogoutRequest → (ip_address user_agent : String) → World → Reply (Unit {0}) × World
  logout request ip_address user_agent =
      respond_with 200 (Logout.logout s request ip_address user_agent)

  unfoldable pub forgot_password : ForgotPasswordRequest → World → Reply (Unit {0}) × World
  forgot_password request = respond_with 200 (Recovery.forgot_password s request)

  unfoldable pub reset_password : ResetPasswordRequest → World → Reply (Unit {0}) × World
  reset_password request = respond_with 200 (Recovery.reset_password s request)

  unfoldable pub verify_email : VerifyEmailRequest → World → Reply (Unit {0}) × World
  verify_email request = respond_with 200 (Verification.verify_email_token s request)

  unfoldable pub send_verification_email : String → World → Reply (Unit {0}) × World
  send_verification_email email = respond_with 200 (Verification.send_verification_email s email)
