-- ===== src/Service/Verification/Failure.antt =====
-- `VerifyEmailService` stores the verified user by `save`, which creates a row.
use mathlib.Core.Option
use bankos.Prelude.{
  ◌+◌, ◌≤◌, arith, String, ◌≡◌, refl, ap, ◌∙◌, inl, inr, Option, none, some, first, ◌===◌, ===_iff,
  Thrown, Result, err, Bool-cases,
}
use bankos.Database.{IsPrisma}
use bankos.Database.Rows.{UserRow}
use bankos.Database.Mapper.{to_domain_user}
use bankos.Domain.Token.{EmailVerificationToken, email_token_expired}
use bankos.Domain.User.{verify_email}
use bankos.Repository.EmailTokens as EmailTokens
use bankos.Repository.Laws.{find_user_lem, save_known, first_holds}
use bankos.Repository.Users as Users
use bankos.Runtime.World.{World}
use bankos.Runtime.Action.{database_error}
use bankos.Service.Setup.{Setup, VerifyEmailRequest}
use bankos.Service.Verification.{verify_for, verify_with, verify_email_token}

-- The action threw, and the tables of users, of tokens, of sessions and of the audit log are as
-- they were; no drawn number is given back.
abbrev pub FailsOn : World → Result (Unit {0}) × World → Type 0
FailsOn w result =
    ((e : Thrown) × (result.0 ≡ err e))
    × (result.1.users ≡ w.users)
    × (result.1.email_tokens ≡ w.email_tokens)
    × (result.1.sessions ≡ w.sessions)
    × (result.1.audit ≡ w.audit)
    × (w.draws ≤ result.1.draws)

verify_keeps_id : (r : UserRow) → (verify_email (to_domain_user r)).id ≡ r.id
unfolding verify_email to_domain_user
verify_keeps_id r = elim (Bool-cases r.email_verified) [
  | inl before ↦ rw before refl
  | inr first_time ↦ rw first_time refl
]

module _ (s : Setup) (laws : IsPrisma s.env.prisma) where
  save_verified :
      (r : UserRow) (id : String) (w : World)
      → first (λ r. r.id === id) w.users ≡ some r
      → Users.save s.env (verify_email (to_domain_user r)) w ≡ (err database_error, w)
  save_verified r id w found =
      let same : r.id ≡ id =
        (===_iff r.id id).0 (first_holds (λ (r : UserRow). r.id === id) w.users r found) in
      save_known s.env laws (verify_email (to_domain_user r)) w r
        (ap (λ i. first (λ (r : UserRow). r.id === i) w.users) (verify_keeps_id r ∙ same) ∙ found)

  module _ (request : VerifyEmailRequest) where
    verify_for-known :
        (hashed : String) (token : EmailVerificationToken) (r : UserRow) (id : String) (w : World)
        → first (λ r. r.id === id) w.users ≡ some r
        → verify_for s request hashed token (some (to_domain_user r)) w ≡ (err database_error, w)
    unfolding verify_for
    verify_for-known hashed token r id w found = rw (save_verified r id w found) refl

    verify_for-missing :
        (hashed : String) (token : EmailVerificationToken) (w : World)
        → FailsOn w (verify_for s request hashed token none w)
    unfolding verify_for
    verify_for-missing hashed token w = ((_, refl), refl, refl, refl, refl, omega arith)

    verify_for-fails :
        (hashed : String) (token : EmailVerificationToken) (found : Option UserRow) (id : String)
        (w : World)
        → first (λ r. r.id === id) w.users ≡ found
        → FailsOn w (verify_for s request hashed token (Option.map to_domain_user found) w)
    verify_for-fails hashed token (some r) id w found =
        rw (verify_for-known hashed token r id w found)
          ((_, refl), refl, refl, refl, refl, omega arith)
    verify_for-fails hashed token none id w found = verify_for-missing hashed token w

    verify_with-fails :
        (hashed : String) (token : Option EmailVerificationToken) (w : World)
        → FailsOn w (verify_with s request hashed token w)
    unfolding verify_with
    verify_with-fails hashed none w = ((_, refl), refl, refl, refl, refl, omega arith)
    verify_with-fails hashed (some token) w =
        elim (Bool-cases (email_token_expired (s.env.time w.ticks) token)) [
          | inl expired ↦ rw expired ((_, refl), refl, refl, refl, refl, omega arith)
          | inr live ↦ elim (Bool-cases token.is_used) [
            | inl used ↦ rw (live, used) ((_, refl), refl, refl, refl, refl, omega arith)
            | inr fresh ↦
                let w' : World = record w { ticks = w.ticks + 1 } in
                simp (live, fresh, find_user_lem s.env laws token.user_id w')
                  (verify_for-fails hashed token (first (λ r. r.id === token.user_id) w.users)
                    token.user_id w' refl)
          ]
        ]

    -- Whatever the request and the state, the service throws, and the users, their verification tokens,
    -- the sessions and the audit log are as they were; no drawn number is given back.
    pub verify_email_token_fails : (w : World) → FailsOn w (verify_email_token s request w)
    unfolding verify_email_token EmailTokens.find_by_token
    verify_email_token_fails w = verify_with-fails _ _ w
