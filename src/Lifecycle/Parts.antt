-- ===== src/Lifecycle/Parts.antt =====
-- The repositories, the token service and the packages that leave the sessions alone.
use bankos.Prelude.{ℕ, ◌+◌, String, ◌≡◌, refl, Option, none, some, List, arith, Result, Thrown}
use bankos.Cache.{blacklist_token}
use bankos.Crypto.Passwords as Passwords
use bankos.Crypto.Tokens.{sign, generate_access_token, generate_refresh_token}
use bankos.Domain.Token.{EmailVerificationToken, PasswordResetToken}
use bankos.Domain.User.{User}
use bankos.Database.Rows.{RoleRow}
use bankos.Engine.Authorization.{resolve_roles, resolve_permissions}
use bankos.Lifecycle.Quiet.{IsQuiet, stored-IsQuiet}
use bankos.Repository.EmailTokens as EmailTokens
use bankos.Repository.ResetTokens as ResetTokens
use bankos.Repository.Roles as Roles
use bankos.Repository.Users as Users
use bankos.Runtime.Action.{or_throw, lift, now, generate_token, unix}
use bankos.Runtime.Packages.{Payload}
use bankos.Runtime.World.{World, Mail}
use bankos.Service.Recovery.{send}
use bankos.Service.Setup.{Setup, check_password}

pub lift-IsQuiet : {A : Type 0} (r : Result A) → IsQuiet (lift r)
lift-IsQuiet r w = (refl, omega arith)

pub send-IsQuiet : (mail : Mail) → IsQuiet (send mail)
send-IsQuiet mail w = (refl, omega arith)

pub or_throw-IsQuiet :
    {A : Type 0} (o : Option A) (w w' : World) (e : Thrown) → ((or_throw o e w').1 ≡ w')
or_throw-IsQuiet none w w' e = refl
or_throw-IsQuiet (some a) w w' e = refl

module _ (s : Setup) where
  pub now-IsQuiet : IsQuiet (now s.env)
  now-IsQuiet w = (refl, omega arith)

  pub unix-IsQuiet : IsQuiet (unix s.env)
  unix-IsQuiet w = (refl, omega arith)

  pub generate_token-IsQuiet : (length : ℕ) → IsQuiet (generate_token s.env length)
  generate_token-IsQuiet length w = (refl, omega arith)

  pub check_password-IsQuiet : (hash raw : String) → IsQuiet (check_password s hash raw)
  unfolding check_password
  check_password-IsQuiet hash raw w = (refl, omega arith)

  pub hash-IsQuiet : (raw : String) → IsQuiet (Passwords.hash s.env s.config raw)
  unfolding Passwords.hash
  hash-IsQuiet raw w = (refl, omega arith)

  pub find_by_email-IsQuiet : (email : String) → IsQuiet (Users.find_by_email s.env email)
  unfolding Users.find_by_email
  find_by_email-IsQuiet email w = (refl, omega arith)

  pub find_by_id-IsQuiet : (id : String) → IsQuiet (Users.find_by_id s.env id)
  unfolding Users.find_by_id
  find_by_id-IsQuiet id w = (refl, omega arith)

  pub exists-IsQuiet : (email : String) → IsQuiet (Users.exists s.env email)
  unfolding Users.exists
  exists-IsQuiet email w = (refl, omega arith)

  pub save-IsQuiet : (user : User) → IsQuiet (Users.save s.env user)
  unfolding Users.save
  save-IsQuiet user w = stored-IsQuiet _ _ _ w (λ t. (refl, omega arith))

  pub update-IsQuiet : (user : User) → IsQuiet (Users.update s.env user)
  unfolding Users.update
  update-IsQuiet user w = stored-IsQuiet _ _ _ w (λ t. (refl, omega arith))

  assign_found-IsQuiet :
      (id name : String) (role : Option RoleRow) → IsQuiet (Users.assign_found s.env id name role)
  unfolding Users.assign_found
  assign_found-IsQuiet id name none w = (refl, omega arith)
  assign_found-IsQuiet id name (some role) w = stored-IsQuiet _ _ _ w (λ t. (refl, omega arith))

  pub assign_role-IsQuiet : (id name : String) → IsQuiet (Users.assign_role s.env id name)
  unfolding Users.assign_role Users.role_named
  assign_role-IsQuiet id name w = assign_found-IsQuiet id name _ w

  pub find_roles-IsQuiet : (id : String) → IsQuiet (Users.find_roles s.env id)
  unfolding Users.find_roles
  find_roles-IsQuiet id w = (refl, omega arith)

  pub find_role-IsQuiet : (name : String) → IsQuiet (Roles.find_by_name s.env name)
  unfolding Roles.find_by_name
  find_role-IsQuiet name w = (refl, omega arith)

  pub resolve_roles-IsQuiet : (names : List String) → IsQuiet (resolve_roles s.env names)
  unfolding resolve_roles Roles.find_all
  resolve_roles-IsQuiet names w = (refl, omega arith)

  pub resolve_permissions-IsQuiet :
      (names : List String) → IsQuiet (resolve_permissions s.env names)
  unfolding resolve_permissions Roles.find_all
  resolve_permissions-IsQuiet names w = (refl, omega arith)

  pub save_email_token-IsQuiet :
      (token : EmailVerificationToken) → IsQuiet (EmailTokens.save s.env token)
  unfolding EmailTokens.save
  save_email_token-IsQuiet token w = stored-IsQuiet _ _ _ w (λ t. (refl, omega arith))

  pub save_reset_token-IsQuiet :
      (token : PasswordResetToken) → IsQuiet (ResetTokens.save s.env token)
  unfolding ResetTokens.save
  save_reset_token-IsQuiet token w = stored-IsQuiet _ _ _ w (λ t. (refl, omega arith))

  pub blacklist-IsQuiet : (jti : String) (ttl : ℕ) → IsQuiet (blacklist_token s.env jti ttl)
  unfolding blacklist_token
  blacklist-IsQuiet jti ttl w =
      stored-IsQuiet _ _ _ (record w { ticks = w.ticks + 1 }) (λ t. (refl, omega arith))

  sign-IsQuiet :
      (payload : Payload) (subject expires_in : String)
      → IsQuiet (sign s.env s.config s.keys payload subject expires_in)
  unfolding sign
  sign-IsQuiet payload subject expires_in w =
      let w' : World = record w { draws = w.draws + 1; ticks = w.ticks + 1 } in
      rw (or_throw-IsQuiet _ w w' _) (refl, omega arith)

  pub access-IsQuiet :
      (payload : Payload) (subject : String)
      → IsQuiet (generate_access_token s.env s.config s.keys payload subject)
  unfolding generate_access_token
  access-IsQuiet payload subject w = sign-IsQuiet payload subject _ w

  pub refresh-IsQuiet :
      (payload : Payload) (subject : String)
      → IsQuiet (generate_refresh_token s.env s.config s.keys payload subject)
  unfolding generate_refresh_token
  refresh-IsQuiet payload subject w = sign-IsQuiet payload subject _ w
