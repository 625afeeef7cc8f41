-- ===== src/Lifecycle/Registrations.antt =====
-- RegisterUserService leaves the sessions alone.
use bankos.Prelude.{domain_error, ℕ, ◌+◌, String, refl, Option, none, some, arith, false, not}
use bankos.Crypto.Passwords as Passwords
use bankos.Domain.Access.{Role}
use bankos.Domain.User.{User}
use bankos.Lifecycle.Parts.{
  exists-IsQuiet, find_role-IsQuiet, save-IsQuiet, assign_role-IsQuiet, save_email_token-IsQuiet,
}
use bankos.Lifecycle.Quiet.{
  IsQuiet, pure-IsQuiet, bind-IsQuiet, dispatch_from-IsQuiet, throw_if-IsQuiet,
}
use bankos.Repository.EmailTokens as EmailTokens
use bankos.Repository.Roles as Roles
use bankos.Repository.Users as Users
use bankos.Runtime.Action.{pure, hash_string, throw_if}
use bankos.Domain.Token.{new_email_token}
use bankos.Service.Register.{
  day_ms, keep_email_token, store_user, finish_registration, register_with, register,
}
use bankos.Service.Setup.{Setup, RegisterUserRequest, RegisterUserResponse, dispatch_from}
use bankos.Validator.Email.{normalize, is_valid}
use bankos.Validator.Password.{validate}

module _ (s : Setup) where
  module _ (request : RegisterUserRequest) where
    keep_email_token-IsQuiet :
        (user : User) (raw : String) (t : ℕ) → IsQuiet (keep_email_token s request user raw t)
    unfolding keep_email_token
    keep_email_token-IsQuiet user raw t w =
        let token = new_email_token (hash_string s.env raw) user.id (t + day_ms) false in
        bind-IsQuiet (EmailTokens.save s.env token) _ (save_email_token-IsQuiet s token)
          (λ _.
            bind-IsQuiet
              (dispatch_from s.env request.ip_address request.user_agent user.domain_events)
              (λ _. pure (record { id = user.id; email = user.email }))
              (dispatch_from-IsQuiet s.env request.ip_address request.user_agent user.domain_events)
              (λ _.
                pure-IsQuiet {A = RegisterUserResponse}
                  (record { id = user.id; email = user.email })))
          w

    finish-IsQuiet : (user : User) → IsQuiet (finish_registration s request user)
    unfolding finish_registration
    finish-IsQuiet user w =
        let (same, grows) =
          keep_email_token-IsQuiet user (s.env.random_bytes_hex w.draws 32) (s.env.time w.ticks)
            (record w { draws = w.draws + 1; ticks = w.ticks + 1 }) in
        (same, omega (arith, grows))

    store_user-IsQuiet : (user : User) (role : Role) → IsQuiet (store_user s request user role)
    unfolding store_user
    store_user-IsQuiet user role w =
        bind-IsQuiet (Users.save s.env user) _ (save-IsQuiet s user)
          (λ _.
            bind-IsQuiet (Users.assign_role s.env user.id role.name)
              (λ _. finish_registration s request user) (assign_role-IsQuiet s user.id role.name)
              (λ _. finish-IsQuiet user))
          w

    register_with-IsQuiet :
        (email : String) (role : Option Role) → IsQuiet (register_with s request email role)
    unfolding register_with Passwords.hash
    register_with-IsQuiet email none w = (refl, omega arith)
    register_with-IsQuiet email (some role) w =
        let (same, grows) = store_user-IsQuiet _ role (record w { draws = w.draws + 1 + 1 }) in
        (same, omega (arith, grows))

    pub register-IsQuiet : IsQuiet (register s request)
    unfolding register
    register-IsQuiet w =
        let email = normalize s.env request.email in
        bind-IsQuiet (throw_if (not (is_valid email)) (domain_error "Invalid email format")) _
          (throw_if-IsQuiet _ _)
          (λ _.
            bind-IsQuiet
              (throw_if (not (validate request.password_raw))
                (domain_error "Password does not meet policy requirements"))
              _ (throw_if-IsQuiet _ _)
              (λ _. bind-IsQuiet (Users.exists s.env email) _ (exists-IsQuiet s email) (λ exists.
                bind-IsQuiet (throw_if exists (domain_error "Email is already registered")) _
                  (throw_if-IsQuiet _ _)
                  (λ _.
                    bind-IsQuiet (Roles.find_by_name s.env "user") (register_with s request email)
                      (find_role-IsQuiet s "user") (register_with-IsQuiet email)))))
          w
