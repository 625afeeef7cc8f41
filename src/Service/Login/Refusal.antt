-- ===== src/Service/Login/Refusal.antt =====
-- What `LoginService` answers when it refuses, and what it writes then.
use bankos.Prelude.{
  String, ◌≡◌, refl, ◌∙◌, ◌⊎◌, inl, inr, true, false, Option, none, some, first, any, ◌===◌,
  ===-refl, err, Bool-cases, arith,
}
use bankos.Crypto.Passwords as Passwords
use bankos.Database.{IsPrisma}
use bankos.Database.Rows.{UserRow}
use bankos.Database.Delegate.{update_where}
use bankos.Database.Mapper.{to_domain_user, user_columns}
use bankos.Domain.User.{User, increment_failed_attempts}
use bankos.Repository.Laws.{find_by_email_lem, update_known, first-any}
use bankos.Repository.Users as Users
use bankos.Runtime.World.{World}
use bankos.Service.Setup.{Setup, LoginRequest, check_password}
use bankos.Service.Login.{invalid_credentials, login, login_as, refuse, wrong_password}
use bankos.Validator.Email.{normalize, is_valid}

-- The state that the code writes after a wrong password for an account.
unfoldable pub written : World → UserRow → World
written w r = record w {
  users =
      update_where (λ x. x.id === r.id)
        (Users.updated_columns (user_columns (increment_failed_attempts 5 (to_domain_user r))))
        w.users;
}

module _ (s : Setup) (laws : IsPrisma s.env.prisma) (request : LoginRequest) where
  abbrev pub account : World → Option UserRow
  account w = first (λ r. r.email === normalize s.env request.email) w.users

  refuse_lem : (hash : String) (w : World) → refuse s request hash w ≡ (err invalid_credentials, w)
  unfolding refuse check_password
  refuse_lem hash w = refl

  login_as-none : (w : World) → login_as s request none w ≡ (err invalid_credentials, w)
  unfolding login_as
  login_as-none w = refuse_lem _ w

  login_as-locked :
      (r : UserRow) (w : World)
      → r.is_locked ≡ true
      → login_as s request (some (to_domain_user r)) w ≡ (err invalid_credentials, w)
  unfolding login_as to_domain_user
  login_as-locked r w locked = rw locked (refuse_lem _ w)

  -- An e-mail that is not valid, one that no account has, and that of a locked account all get the
  -- same answer, whatever the password is, and nothing is written.
  pub login_refuses :
      (w : World)
      → (is_valid (normalize s.env request.email) ≡ false)
        ⊎ (account w ≡ none)
        ⊎ ((r : UserRow) × (account w ≡ some r) × (r.is_locked ≡ true))
      → login s request w ≡ (err invalid_credentials, w)
  unfolding login
  login_refuses w (inl invalid) = rw invalid (refuse_lem _ w)
  login_refuses w (inr (inl unknown)) =
      elim (Bool-cases (is_valid (normalize s.env request.email))) [
        | inr invalid ↦ rw invalid (refuse_lem _ w)
        | inl valid ↦ rw (valid, find_by_email_lem s.env laws _ w, unknown) (login_as-none w)
      ]
  login_refuses w (inr (inr (r, known, locked))) =
      elim (Bool-cases (is_valid (normalize s.env request.email))) [
        | inr invalid ↦ rw invalid (refuse_lem _ w)
        | inl valid ↦
            rw (valid, find_by_email_lem s.env laws _ w, known) (login_as-locked r w locked)
      ]

  incremented-id : (r : UserRow) → (increment_failed_attempts 5 (to_domain_user r)).id ≡ r.id
  unfolding increment_failed_attempts to_domain_user
  incremented-id r = ground arith

  pub wrong_password_lem :
      (r : UserRow) (w : World)
      → any (λ x. x.id === r.id) w.users ≡ true
      → wrong_password s request (to_domain_user r) w ≡ (err invalid_credentials, written w r)
  unfolding wrong_password written
  wrong_password_lem r w known =
      simp
        (
          update_known s.env laws (increment_failed_attempts 5 (to_domain_user r)) w,
          incremented-id r,
          known,
        )
        refl

  login_as-wrong :
      (u : User) (w : World)
      → u.is_locked ≡ false
      → Passwords.verify s.env s.config u.password_hash request.password_raw ≡ false
      → login_as s request (some u) w ≡ wrong_password s request u w
  unfolding login_as check_password
  login_as-wrong u w free wrong = simp (free, wrong) refl

  domain_locked : (r : UserRow) → (to_domain_user r).is_locked ≡ r.is_locked
  unfolding to_domain_user
  domain_locked r = refl

  domain_hash : (r : UserRow) → (to_domain_user r).password_hash ≡ r.password_hash
  unfolding to_domain_user
  domain_hash r = refl

  pub login_wrong :
      (w : World) (r : UserRow)
      → is_valid (normalize s.env request.email) ≡ true
      → account w ≡ some r
      → r.is_locked ≡ false
      → Passwords.verify s.env s.config r.password_hash request.password_raw ≡ false
      → login s request w ≡ (err invalid_credentials, written w r)
  unfolding login
  login_wrong w r valid known free wrong =
      let there =
        first-any (λ x. x.email === normalize s.env request.email) (λ x. x.id === r.id) w.users r
          known (===-refl r.id) in
      rw (valid, find_by_email_lem s.env laws _ w, known)
        (login_as-wrong (to_domain_user r) w (domain_locked r ∙ free) (simp (domain_hash r) wrong)
          ∙ wrong_password_lem r w there)
