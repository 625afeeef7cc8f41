-- ===== src/Domain/Session/Lifetime.antt =====
-- Revocation is final, and a rotated token never outlives the absolute maximum.
use bankos.Prelude.{
  ℕ, ◌≤◌, ◌<◌, String, ◌≡◌, ◌↔◌, ◌⊎◌, inl, inr, ltb, Bool-cases, true, false, some, [], ◌∷◌, ◌++◌,
  arith, ok, err, invalid_state,
}
use bankos.Domain.Event.{new_event, token_revoked}
use bankos.Domain.Session.{DeviceSession, rotate_token, slide, is_expired, revoke}

-- Revoking a live session marks it and records one event; from then on revoking and rotating
-- the token are refused.
pub revoke_final :
    (s : DeviceSession) (reason again token : String) (t : ℕ) {s' : DeviceSession}
    → revoke reason s ≡ ok s'
    → (s'.is_revoked ≡ true)
      × (s'.domain_events ≡ s.domain_events ++ new_event (token_revoked s.id s.user_id reason) ∷ [])
      × (revoke again s' ≡ err (invalid_state "Session is already revoked"))
      × (rotate_token token t (some t) s'
          ≡ err (invalid_state "Cannot rotate token on a revoked session"))
unfolding revoke rotate_token
revoke_final s reason again token t e = ground arith

-- Where an absolute maximum is given, a rotated token expires at the new time or at that maximum,
-- whichever comes first; the session holds the new token, is not revoked, and is expired exactly at
-- the times after that one.
pub rotate_token-expires :
    (s : DeviceSession) (token : String) (expires max now : ℕ) {s' : DeviceSession}
    → rotate_token token expires (some max) s ≡ ok s'
    → ((s'.expires_at ≡ expires) ⊎ (s'.expires_at ≡ max))
      × (s'.expires_at ≤ expires)
      × (s'.expires_at ≤ max)
      × (s'.refresh_token ≡ token)
      × ((is_expired now s' ≡ true) ↔ (s'.expires_at < now))
      × (s'.is_revoked ≡ false)
unfolding rotate_token slide is_expired
rotate_token-expires s token expires max now e = (
  elim (Bool-cases (ltb max expires)) [
    | inl late ↦ inr (ground arith)
    | inr soon ↦ inl (ground arith)
  ],
  ground arith,
  ground arith,
  ground arith,
  ground arith,
  ground arith,
)
