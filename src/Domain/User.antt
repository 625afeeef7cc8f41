-- ===== src/Domain/User.antt =====
-- core/domain/User.ts: the methods of the class `User`, each as the object after it.
pub mod Lockout
use bankos.Prelude.{
  ℕ, ◌+◌, String, Bool, true, false, List, [], ◌∷◌, ◌++◌, leb, ◌===◌, if◌then◌else◌, Result, ok,
  err, invalid_state,
}
use bankos.Domain.Event.{
  Event, new_event, user_registered, user_logged_in, user_locked, password_changed,
}

pub record User : Type 0 where
  pub id : String
  pub email : String
  pub password_hash : String
  pub is_locked : Bool
  pub failed_login_attempts : ℕ
  pub email_verified : Bool
  pub domain_events : List Event

unfoldable pub new_user : (id email password_hash : String) → Bool → ℕ → Bool → Bool → User
new_user id email password_hash is_locked failed_login_attempts email_verified is_new = record {
  id = id;
  email = email;
  password_hash = password_hash;
  is_locked = is_locked;
  failed_login_attempts = failed_login_attempts;
  email_verified = email_verified;
  domain_events = if is_new then new_event (user_registered id email) ∷ [] else [];
}

unfoldable pub clear_events : User → User
clear_events u = record u { domain_events = [] }

unfoldable pub lock : String → User → User
lock reason u = if u.is_locked then u else record u {
  is_locked = true;
  domain_events = u.domain_events ++ new_event (user_locked u.id reason) ∷ [];
}

unfoldable pub unlock : User → User
unlock u = record u { is_locked = false; failed_login_attempts = 0 }

unfoldable pub increment_failed_attempts : ℕ → User → User
unfolding lock
increment_failed_attempts max_attempts u =
    if u.is_locked
    then u
    else (let u' = record u { failed_login_attempts = u.failed_login_attempts + 1 } in
        if leb max_attempts u'.failed_login_attempts
        then lock "Exceeded maximum failed login attempts" u'
        else u')

unfoldable pub reset_failed_attempts : User → User
reset_failed_attempts u = record u { failed_login_attempts = 0 }

unfoldable pub verify_email : User → User
verify_email u = if u.email_verified then u else record u { email_verified = true }

unfoldable pub change_password : String → User → Result User
change_password new_password_hash u =
    if u.password_hash === new_password_hash
    then err (invalid_state "New password must be different from the old password")
    else ok (record u {
      password_hash = new_password_hash;
      domain_events = u.domain_events ++ new_event (password_changed u.id) ∷ [];
    })

unfoldable pub record_login : String → String → User → Result User
unfolding reset_failed_attempts
record_login ip_address user_agent u =
    if u.is_locked
    then err (invalid_state "User is locked and cannot log in")
    else (let u' = reset_failed_attempts u in
        ok (record u' {
          domain_events =
              u'.domain_events ++ new_event (user_logged_in u.id ip_address user_agent) ∷ [];
        }))
