-- ===== src/Lifecycle/Accounts.antt =====
-- LoginService and the life of the sessions.
use bankos.Prelude.{
  ℕ, ◌+◌, String, ◌≡◌, refl, inl, inr, Option, none, some, List, arith, Bool, true, false,
  if◌then◌else◌, ◌===◌, Bool-cases,
}
use bankos.Crypto.Tokens.{generate_access_token, generate_refresh_token}
use bankos.Database.{IsPrisma}
use bankos.Domain.User.{User, record_login}
use bankos.Domain.Session.{new_session}
use bankos.Engine.Authorization.{resolve_roles, resolve_permissions}
use bankos.Lifecycle.Lawful.{
  IsLawful, Opens, bind_quiet-IsLawful, then_quiet-Opens, quiet-IsLawful, bind-Opens,
}
use bankos.Lifecycle.Lawful.Saved.{draw-IsLawful, save-Opens}
use bankos.Lifecycle.Parts.{
  lift-IsQuiet, check_password-IsQuiet, find_by_email-IsQuiet, find_roles-IsQuiet,
  resolve_roles-IsQuiet, resolve_permissions-IsQuiet, access-IsQuiet, refresh-IsQuiet,
  update-IsQuiet,
}
use bankos.Lifecycle.Quiet.{IsQuiet, pure-IsQuiet, bind-IsQuiet, dispatch_from-IsQuiet}
use bankos.Repository.Sessions as Sessions
use bankos.Repository.Users as Users
use bankos.Runtime.Action.{Action, pure, hash_string, ◌>>◌, lift}
use bankos.Service.Login.{
  dummy_hash, session_expiry, expiry_or_week, refuse, wrong_password, store_session, sign_tokens,
  issue_tokens, accept, login_as, login,
}
use bankos.Service.Setup.{Setup, LoginRequest, TokenPair, check_password, dispatch_from}
use bankos.Validator.Email.{normalize, is_valid}

module _ (s : Setup) where
  expiry_or_week-IsQuiet : (exp : Option ℕ) → IsQuiet (expiry_or_week s exp)
  unfolding expiry_or_week
  expiry_or_week-IsQuiet none w = (refl, omega arith)
  expiry_or_week-IsQuiet (some exp) w = (refl, omega arith)

  session_expiry-IsQuiet : (token : String) → IsQuiet (session_expiry s token)
  unfolding session_expiry
  session_expiry-IsQuiet token w = expiry_or_week-IsQuiet _ w

  module _ (request : LoginRequest) where
    refuse-IsQuiet : (hash : String) → IsQuiet (refuse s request hash)
    unfolding refuse check_password
    refuse-IsQuiet hash w = (refl, omega arith)

    wrong_password-IsQuiet : (user : User) → IsQuiet (wrong_password s request user)
    unfolding wrong_password
    wrong_password-IsQuiet user w =
        bind-IsQuiet (Users.update s.env _) _ (update-IsQuiet s _) (λ _ w. (refl, omega arith)) w

    module _ (laws : IsPrisma s.env.prisma)
        (distinct : (m n : ℕ) → (s.env.random_uuid m === s.env.random_uuid n) ≡ true → m ≡ n) where
      save_new-Opens :
          (user : User) (id refresh : String) (expires_at created_at : ℕ)
          → Opens s.env id (
              Sessions.save s.env (
                new_session id user.id
                  (hash_string s.env refresh)
                  request.ip_address
                  request.user_agent
                  expires_at
                  created_at
                  false))
      unfolding new_session
      save_new-Opens user id refresh expires_at created_at = save-Opens s.env laws distinct (
          new_session id user.id (hash_string s.env refresh) request.ip_address request.user_agent
            expires_at created_at false)

      abbrev hand_over : User → String → String → Action TokenPair
      hand_over user access refresh = do
        dispatch_from s.env request.ip_address request.user_agent user.domain_events
        pure (record { access_token = access; refresh_token = refresh })

      hand_over-IsQuiet :
          (user : User) (access refresh : String) → IsQuiet (hand_over user access refresh)
      hand_over-IsQuiet user access refresh w =
          bind-IsQuiet
            (dispatch_from s.env request.ip_address request.user_agent user.domain_events) _
            (dispatch_from-IsQuiet s.env request.ip_address request.user_agent user.domain_events)
            (λ _.
              pure-IsQuiet {A = TokenPair}
                (record { access_token = access; refresh_token = refresh }))
            w

      store_at-Opens :
          (user : User) (id access refresh : String) (expires_at created_at : ℕ)
          → Opens s.env id (do
            Sessions.save s.env (
                new_session id user.id
                  (hash_string s.env refresh)
                  request.ip_address
                  request.user_agent
                  expires_at
                  created_at
                  false)
            hand_over user access refresh)
      store_at-Opens user id access refresh expires_at created_at w reserved =
          then_quiet-Opens s.env id
            (Sessions.save s.env (
              new_session id user.id (hash_string s.env refresh) request.ip_address
                request.user_agent expires_at created_at false))
            (λ _. hand_over user access refresh)
            (save_new-Opens user id refresh expires_at created_at)
            (λ _. hand_over-IsQuiet user access refresh) w reserved

      store_session-Opens :
          (user : User) (id access refresh : String)
          → Opens s.env id (store_session s request user id access refresh)
      unfolding store_session
      store_session-Opens user id access refresh w reserved =
          bind-Opens s.env id (session_expiry s refresh) _ (session_expiry-IsQuiet refresh)
            (λ expires_at w.
              store_at-Opens user id access refresh expires_at (s.env.time w.ticks)
                (record w { ticks = w.ticks + 1 }))
            w reserved

      sign_tokens-Opens :
          (user : User) (roles permissions : List String) (id : String)
          → Opens s.env id (sign_tokens s request user roles permissions id)
      unfolding sign_tokens
      sign_tokens-Opens user roles permissions id w reserved =
          bind-Opens s.env id (generate_access_token s.env s.config s.keys _ user.id) _
            (access-IsQuiet s _ user.id)
            (λ access.
              bind-Opens s.env id (generate_refresh_token s.env s.config s.keys _ user.id) _
                (refresh-IsQuiet s _ user.id)
                (λ refresh. store_session-Opens user id access refresh))
            w reserved

      issue_tokens-IsLawful : (user : User) → IsLawful s.env (issue_tokens s request user)
      unfolding issue_tokens
      issue_tokens-IsLawful user w fresh =
          bind_quiet-IsLawful s.env (Users.find_roles s.env user.id) _
            (find_roles-IsQuiet s user.id)
            (λ direct.
              bind_quiet-IsLawful s.env (resolve_roles s.env direct) _
                (resolve_roles-IsQuiet s direct)
                (λ roles.
                  bind_quiet-IsLawful s.env (resolve_permissions s.env direct) _
                    (resolve_permissions-IsQuiet s direct)
                    (λ permissions.
                      draw-IsLawful s.env laws distinct
                        (sign_tokens s request user roles permissions)
                        (λ n. sign_tokens-Opens user roles permissions (s.env.random_uuid n)))))
            w fresh

      accept-IsLawful : (user : User) → IsLawful s.env (accept s request user)
      unfolding accept
      accept-IsLawful user w fresh =
          bind_quiet-IsLawful s.env (lift (record_login request.ip_address request.user_agent user))
            (λ user'. Users.update s.env user' >> issue_tokens s request user')
            (lift-IsQuiet (record_login request.ip_address request.user_agent user))
            (λ user'.
              bind_quiet-IsLawful s.env (Users.update s.env user')
                (λ _. issue_tokens s request user') (update-IsQuiet s user')
                (λ _. issue_tokens-IsLawful user'))
            w fresh

      check-IsLawful :
          (user : User) (b : Bool)
          → IsLawful s.env (if b then accept s request user else wrong_password s request user)
      check-IsLawful user true w fresh = accept-IsLawful user w fresh
      check-IsLawful user false w fresh =
          quiet-IsLawful s.env (wrong_password s request user) (wrong_password-IsQuiet user) w fresh

      login_as-IsLawful : (found : Option User) → IsLawful s.env (login_as s request found)
      unfolding login_as
      login_as-IsLawful none w fresh =
          quiet-IsLawful s.env (refuse s request dummy_hash) (refuse-IsQuiet dummy_hash) w fresh
      login_as-IsLawful (some user) w fresh = elim (Bool-cases user.is_locked) [
        | inl locked ↦ simp locked (
            quiet-IsLawful s.env (refuse s request user.password_hash)
              (refuse-IsQuiet user.password_hash) w fresh)
        | inr free ↦
            let lawful =
              bind_quiet-IsLawful s.env (check_password s user.password_hash request.password_raw)
                (λ b. if b then accept s request user else wrong_password s request user)
                (check_password-IsQuiet s _ _) (check-IsLawful user) w fresh in
            simp free lawful
      ]

      pub login-IsLawful : IsLawful s.env (login s request)
      unfolding login
      login-IsLawful w fresh = elim (Bool-cases (is_valid (normalize s.env request.email))) [
        | inr invalid ↦
            rw invalid (
              quiet-IsLawful s.env (refuse s request dummy_hash) (refuse-IsQuiet dummy_hash) w
                fresh)
        | inl valid ↦
            let lawful =
              bind_quiet-IsLawful s.env (Users.find_by_email s.env (normalize s.env request.email))
                (login_as s request) (find_by_email-IsQuiet s _) login_as-IsLawful w fresh in
            rw valid lawful
      ]
