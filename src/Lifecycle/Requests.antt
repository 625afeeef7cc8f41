-- ===== src/Lifecycle/Requests.antt =====
-- routes/auth.routes.ts: the requests of the router, and any number of them, one after the other.
-- A request stands for what its handler is called with, once the validator has let it through and
-- `extractClientMeta` and `extractAuthToken` have run.
use bankos.Prelude.{
  ℕ, String, ◌≡◌, refl, sym, ap, ◌∙◌, ◌⊎◌, true, some, List, [], ◌∷◌, first, ◌===◌, ok, err,
  domain_error,
}
use bankos.Controller.Auth as Auth
use bankos.Crypto.Tokens.{verify_refresh_token}
use bankos.Database.{IsPrisma}
use bankos.Database.Rows.{SessionRow}
use bankos.Lifecycle.Accounts.{login-IsLawful}
use bankos.Lifecycle.Registrations.{register-IsQuiet}
use bankos.Lifecycle.Lawful.{IsFresh, quiet-IsLawful}
use bankos.Lifecycle.Logouts.{logout-IsLawful}
use bankos.Lifecycle.Recoveries.{
  forgot_password-IsQuiet, send_verification_email-IsQuiet, reset_password-IsQuiet,
  verify_email_token-IsQuiet,
}
use bankos.Lifecycle.Rotations.{refresh-IsLawful, verify-IsQuiet}
use bankos.Lifecycle.Spec.{
  Evolves, unchanged, Evolves-trans, Evolves-first, Evolves-first-revoked, revoked_row,
}
use bankos.Runtime.Action.{hash_string}
use bankos.Runtime.Packages.{Claims}
use bankos.Runtime.World.{World}
use bankos.Service.Recovery as Recovery
use bankos.Service.Refresh as Refresh
use bankos.Service.Refresh.Refusal.{refresh_refuses_revoked}
use bankos.Service.Register as Register
use bankos.Service.Setup.{
  Setup, LoginRequest, RegisterUserRequest, LogoutRequest, ForgotPasswordRequest,
  ResetPasswordRequest, VerifyEmailRequest,
}
use bankos.Service.Verification as Verification

pub data Request : Type 0 where
  register : RegisterUserRequest → Request
  login : LoginRequest → Request
  refresh : (refresh_token ip_address user_agent : String) → Request
  logout : LogoutRequest → (ip_address user_agent : String) → Request
  forgot_password : ForgotPasswordRequest → Request
  reset_password : ResetPasswordRequest → Request
  verify_email : VerifyEmailRequest → Request
  send_verification : String → Request

module _ (s : Setup) where
  -- The state that a request leaves behind.
  unfoldable pub serve : Request → World → World
  serve (register request) w = (Auth.register s request w).1
  serve (login request) w = (Auth.login s request w).1
  serve (refresh refresh_token ip_address user_agent) w =
      (Auth.refresh s refresh_token ip_address user_agent w).1
  serve (logout request ip_address user_agent) w = (Auth.logout s request ip_address user_agent w).1
  serve (forgot_password request) w = (Auth.forgot_password s request w).1
  serve (reset_password request) w = (Auth.reset_password s request w).1
  serve (verify_email request) w = (Auth.verify_email s request w).1
  serve (send_verification email) w = (Auth.send_verification_email s email w).1

  unfoldable pub serve_all : List Request → World → World
  serve_all [] w = w
  serve_all (request ∷ requests) w = serve_all requests (serve request w)

  module _ (laws : IsPrisma s.env.prisma)
      (distinct : (m n : ℕ) → (s.env.random_uuid m === s.env.random_uuid n) ≡ true → m ≡ n) where
    -- A state and one that it leads to: its fresh ids stay fresh, and the sessions follow their life.
    abbrev Leads : World → World → Type 0
    Leads w w' = IsFresh s.env w' × Evolves w.sessions w'.sessions

    serve-Leads : (request : Request) (w : World) → IsFresh s.env w → Leads w (serve request w)
    unfolding serve Auth.register Auth.login Auth.refresh Auth.logout Auth.forgot_password
        Auth.reset_password Auth.verify_email Auth.send_verification_email Auth.respond_with
    serve-Leads (register request) w fresh =
        quiet-IsLawful s.env (Register.register s request) (register-IsQuiet s request) w fresh
    serve-Leads (login request) w fresh = login-IsLawful s request laws distinct w fresh
    serve-Leads (refresh refresh_token ip_address user_agent) w fresh =
        refresh-IsLawful s refresh_token ip_address user_agent laws distinct w fresh
    serve-Leads (logout request ip_address user_agent) w fresh =
        logout-IsLawful s request ip_address user_agent laws distinct w fresh
    serve-Leads (forgot_password request) w fresh =
        quiet-IsLawful s.env (Recovery.forgot_password s request)
          (forgot_password-IsQuiet s request) w fresh
    serve-Leads (reset_password request) w fresh =
        quiet-IsLawful s.env (Recovery.reset_password s request)
          (reset_password-IsQuiet s laws request) w fresh
    serve-Leads (verify_email request) w fresh =
        quiet-IsLawful s.env (Verification.verify_email_token s request)
          (verify_email_token-IsQuiet s laws request) w fresh
    serve-Leads (send_verification email) w fresh =
        quiet-IsLawful s.env (Verification.send_verification_email s email)
          (send_verification_email-IsQuiet s email) w fresh

    -- Any number of requests refine the life of the sessions: where the generator never draws an id
    -- twice and no session has an id that is still to be drawn, what they do to the table of sessions
    -- is a sequence of steps, each of which appends one row under an id that no row has or marks rows
    -- as revoked, and afterwards again no session has an id that is still to be drawn. The
    -- database client follows its laws.
    pub requests_refine :
        (requests : List Request) (w : World)
        → IsFresh s.env w
        → IsFresh s.env (serve_all requests w) × Evolves w.sessions (serve_all requests w).sessions
    unfolding serve_all
    requests_refine [] w fresh = (fresh, unchanged)
    requests_refine (request ∷ requests) w fresh =
        let (fresh', e) = serve-Leads request w fresh in
        let (fresh'', e') = requests_refine requests (serve request w) fresh' in
        (fresh'', Evolves-trans e e')

    -- Where the generator never draws an id twice, no session has an id that is still to be drawn and the
    -- database client follows its laws: whatever requests are served, a session that is in the table is found
    -- under its id afterwards: as it was, or with nothing changed but that it is revoked. No
    -- request changes the owner, the token or the end of a session, and none removes it.
    pub requests_keep_sessions :
        (requests : List Request) (w : World) (id : String) (r : SessionRow)
        → IsFresh s.env w
        → first (λ x. x.id === id) w.sessions ≡ some r
        → (first (λ x. x.id === id) (serve_all requests w).sessions ≡ some r)
          ⊎ (first (λ x. x.id === id) (serve_all requests w).sessions ≡ some (revoked_row r))
    requests_keep_sessions requests w id r fresh known =
        Evolves-first (λ (x : SessionRow). x.id === id) (λ x. refl) r
          (requests_refine requests w fresh).1 known

    -- What is found revoked under a hash stays so.
    stays_revoked :
        (requests : List Request) (w : World) (hash : String) (r : SessionRow)
        → IsFresh s.env w
        → first (λ x. x.refresh_token === hash) w.sessions ≡ some (revoked_row r)
        → first (λ x. x.refresh_token === hash) (serve_all requests w).sessions
          ≡ some (revoked_row r)
    stays_revoked requests w hash r fresh known =
        Evolves-first-revoked (λ (x : SessionRow). x.refresh_token === hash) (λ x. refl) r
          (requests_refine requests w fresh).1 known

    refresh_answered_revoked :
        (token ip_address user_agent : String) (w w' : World) (claims : Claims) (r : SessionRow)
        → first (λ x. x.refresh_token === hash_string s.env token) w.sessions ≡ some (revoked_row r)
        → verify_refresh_token s.env s.config s.keys token w ≡ (ok claims, w')
        → Refresh.refresh s token ip_address user_agent w
          ≡ (err (domain_error "Session is revoked"), w')
    refresh_answered_revoked token ip_address user_agent w w' claims r known verified =
        let same : w'.sessions ≡ w.sessions =
          ap (λ r. r.1.sessions) (sym verified) ∙ (verify-IsQuiet s token w).0 in
        refresh_refuses_revoked s laws token ip_address user_agent w w' claims (revoked_row r)
          verified (ap (first (λ x. x.refresh_token === hash_string s.env token)) same ∙ known) refl

    -- Where the generator never draws an id twice, no session has an id that is still to be drawn and the
    -- database client follows its laws: a refresh token whose session is revoked is refused after
    -- any requests. Where it still verifies, the answer is the error, and nothing is written after that.
    pub revoked_stays_refused :
        (requests : List Request) (token ip_address user_agent : String) (w v : World)
        (claims : Claims) (r : SessionRow)
        → IsFresh s.env w
        → first (λ x. x.refresh_token === hash_string s.env token) w.sessions ≡ some (revoked_row r)
        → verify_refresh_token s.env s.config s.keys token (serve_all requests w) ≡ (ok claims, v)
        → Refresh.refresh s token ip_address user_agent (serve_all requests w)
          ≡ (err (domain_error "Session is revoked"), v)
    revoked_stays_refused requests token ip_address user_agent w v claims r fresh known verified =
        refresh_answered_revoked token ip_address user_agent (serve_all requests w) v claims r
          (stays_revoked requests w (hash_string s.env token) r fresh known) verified
