-- ===== src/Service/Recovery/Failure.antt =====
-- `ResetPasswordService` stores the user with the new password by `save`, which creates a row.
use mathlib.Core.Option
use bankos.Prelude.{
  ◌+◌, ◌≤◌, arith, String, ◌≡◌, refl, ap, ◌∙◌, inl, inr, Option, none, some, first, ◌===◌, ===_iff,
  Thrown, Result, err, Bool-cases,
}
use bankos.Crypto.Passwords as Passwords
use bankos.Database.{IsPrisma}
use bankos.Database.Rows.{UserRow}
use bankos.Database.Mapper.{to_domain_user}
use bankos.Domain.Token.{PasswordResetToken, reset_token_expired}
use bankos.Domain.User.{User, change_password}
use bankos.Repository.ResetTokens as ResetTokens
use bankos.Repository.Laws.{find_user_lem, save_known, first_holds}
use bankos.Repository.Users as Users
use bankos.Runtime.World.{World}
use bankos.Runtime.Action.{database_error}
use bankos.Service.Setup.{Setup, ResetPasswordRequest}
use bankos.Service.Recovery.{reset_for, reset_with, reset_password}

-- The action threw, and the users, the reset tokens, the sessions and the audit log are as
-- they were; no drawn number is given back.
abbrev pub FailsOn : World → Result (Unit {0}) × World → Type 0
FailsOn w result =
    ((e : Thrown) × (result.0 ≡ err e))
    × (result.1.users ≡ w.users)
    × (result.1.reset_tokens ≡ w.reset_tokens)
    × (result.1.sessions ≡ w.sessions)
    × (result.1.audit ≡ w.audit)
    × (w.draws ≤ result.1.draws)

module _ (s : Setup) (laws : IsPrisma s.env.prisma) where
  save_changed :
      (u : User) (r : UserRow) (id : String) (w : World)
      → u.id ≡ id
      → first (λ r. r.id === id) w.users ≡ some r
      → Users.save s.env u w ≡ (err database_error, w)
  save_changed u r id w same found =
      save_known s.env laws u w r
        (ap (λ i. first (λ (r : UserRow). r.id === i) w.users) same ∙ found)

  module _ (request : ResetPasswordRequest) where
    reset_for-known :
        (hashed : String) (token : PasswordResetToken) (r : UserRow) (id : String) (w : World)
        → first (λ r. r.id === id) w.users ≡ some r
        → FailsOn w (reset_for s request hashed token (some (to_domain_user r)) w)
    unfolding reset_for Passwords.hash change_password to_domain_user
    reset_for-known hashed token r id w found =
        let same : r.id ≡ id =
          (===_iff r.id id).0 (first_holds (λ (r : UserRow). r.id === id) w.users r found) in
        let new_hash =
          s.env.argon2_hash w.draws
            (Passwords.apply_pepper s.env s.config request.new_password_raw) in
        elim (Bool-cases (r.password_hash === new_hash)) [
          | inl reused ↦ simp reused ((_, refl), refl, refl, refl, refl, omega arith)
          | inr changed ↦
              simp (changed, save_changed _ r id (record w { draws = w.draws + 1 }) same found)
                ((_, refl), refl, refl, refl, refl, omega arith)
        ]

    reset_for-missing :
        (hashed : String) (token : PasswordResetToken) (w : World)
        → FailsOn w (reset_for s request hashed token none w)
    unfolding reset_for
    reset_for-missing hashed token w = ((_, refl), refl, refl, refl, refl, omega arith)

    reset_for-fails :
        (hashed : String) (token : PasswordResetToken) (found : Option UserRow) (id : String)
        (w : World)
        → first (λ r. r.id === id) w.users ≡ found
        → FailsOn w (reset_for s request hashed token (Option.map to_domain_user found) w)
    reset_for-fails hashed token (some r) id w found = reset_for-known hashed token r id w found
    reset_for-fails hashed token none id w found = reset_for-missing hashed token w

    reset_with-fails :
        (hashed : String) (token : Option PasswordResetToken) (w : World)
        → FailsOn w (reset_with s request hashed token w)
    unfolding reset_with
    reset_with-fails hashed none w = ((_, refl), refl, refl, refl, refl, omega arith)
    reset_with-fails hashed (some token) w =
        elim (Bool-cases (reset_token_expired (s.env.time w.ticks) token)) [
          | inl expired ↦ rw expired ((_, refl), refl, refl, refl, refl, omega arith)
          | inr live ↦ elim (Bool-cases token.is_used) [
            | inl used ↦ rw (live, used) ((_, refl), refl, refl, refl, refl, omega arith)
            | inr fresh ↦
                let w' : World = record w { ticks = w.ticks + 1 } in
                simp (live, fresh, find_user_lem s.env laws token.user_id w')
                  (reset_for-fails hashed token (first (λ r. r.id === token.user_id) w.users)
                    token.user_id w' refl)
          ]
        ]

    -- Whatever the request and the state, the service throws, and the users, their reset tokens, the
    -- sessions and the audit log are as they were; no drawn number is given back.
    pub reset_password_fails : (w : World) → FailsOn w (reset_password s request w)
    unfolding reset_password ResetTokens.find_by_token
    reset_password_fails w = reset_with-fails _ _ w
