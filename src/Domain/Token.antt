-- ===== src/Domain/Token.antt =====
-- core/domain/EmailVerificationToken.ts and core/domain/PasswordResetToken.ts. `new Date()` in
-- `isExpired` is the argument `now`.
use bankos.Prelude.{
  ℕ, String, Bool, true, List, [], ◌∷◌, ◌++◌, ltb, if◌then◌else◌, Result, ok, err, invalid_state,
}
use bankos.Domain.Event.{Event, new_event, email_verified, password_reset_requested}

pub record EmailVerificationToken : Type 0 where
  pub token : String
  pub user_id : String
  pub expires_at : ℕ
  pub is_used : Bool
  pub domain_events : List Event

unfoldable pub new_email_token : (token user_id : String) → ℕ → Bool → EmailVerificationToken
new_email_token token user_id expires_at is_used = record {
  token = token;
  user_id = user_id;
  expires_at = expires_at;
  is_used = is_used;
  domain_events = [];
}

unfoldable pub email_token_expired : ℕ → EmailVerificationToken → Bool
email_token_expired now t = ltb t.expires_at now

unfoldable pub mark_email_token : ℕ → EmailVerificationToken → Result EmailVerificationToken
unfolding email_token_expired
mark_email_token now t =
    if t.is_used
    then err (invalid_state "Token has already been used")
    else if email_token_expired now t
    then err (invalid_state "Token is expired")
    else ok (record t {
      is_used = true;
      domain_events = t.domain_events ++ new_event (email_verified t.user_id) ∷ [];
    })

pub record PasswordResetToken : Type 0 where
  pub token : String
  pub user_id : String
  pub expires_at : ℕ
  pub is_used : Bool
  pub domain_events : List Event

-- The constructor records the request for every token that is not used yet, one that is read back
-- from the database included.
unfoldable pub new_reset_token : (token user_id : String) → ℕ → Bool → PasswordResetToken
new_reset_token token user_id expires_at is_used = record {
  token = token;
  user_id = user_id;
  expires_at = expires_at;
  is_used = is_used;
  domain_events = if is_used then [] else new_event (password_reset_requested user_id) ∷ [];
}

unfoldable pub reset_token_expired : ℕ → PasswordResetToken → Bool
reset_token_expired now t = ltb t.expires_at now

unfoldable pub mark_reset_token : ℕ → PasswordResetToken → Result PasswordResetToken
unfolding reset_token_expired
mark_reset_token now t =
    if t.is_used
    then err (invalid_state "Token has already been used")
    else if reset_token_expired now t
    then err (invalid_state "Token is expired")
    else ok (record t { is_used = true })
