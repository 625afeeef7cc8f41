-- ===== src/Domain/Session.antt =====
-- core/domain/DeviceSession.ts.
pub mod Lifetime
use bankos.Prelude.{
  ℕ, String, Bool, true, false, Option, none, some, List, [], ◌∷◌, ◌++◌, ltb, if◌then◌else◌, Result,
  ok, err, invalid_state,
}
use bankos.Domain.Event.{Event, new_event, token_revoked}

pub record DeviceSession : Type 0 where
  pub id : String
  pub user_id : String
  pub refresh_token : String
  pub ip_address : String
  pub user_agent : String
  pub expires_at : ℕ
  pub created_at : ℕ
  pub is_revoked : Bool
  pub domain_events : List Event

unfoldable pub new_session :
    (id user_id refresh_token ip_address user_agent : String) (expires_at created_at : ℕ)
    → Bool
    → DeviceSession
new_session id user_id refresh_token ip_address user_agent expires_at created_at is_revoked =
    record {
      id = id;
      user_id = user_id;
      refresh_token = refresh_token;
      ip_address = ip_address;
      user_agent = user_agent;
      expires_at = expires_at;
      created_at = created_at;
      is_revoked = is_revoked;
      domain_events = [];
    }

-- Sliding expiration, cut off at the absolute maximum where one is given.
unfoldable pub slide : ℕ → Option ℕ → ℕ
slide new_expires_at none = new_expires_at
slide new_expires_at (some max) = if ltb max new_expires_at then max else new_expires_at

unfoldable pub rotate_token : String → ℕ → Option ℕ → DeviceSession → Result DeviceSession
unfolding slide
rotate_token new_hashed_token new_expires_at absolute_max s =
    if s.is_revoked
    then err (invalid_state "Cannot rotate token on a revoked session")
    else ok (record s {
      refresh_token = new_hashed_token;
      expires_at = slide new_expires_at absolute_max;
    })

unfoldable pub clear_events : DeviceSession → DeviceSession
clear_events s = record s { domain_events = [] }

unfoldable pub is_expired : ℕ → DeviceSession → Bool
is_expired now s = ltb s.expires_at now

unfoldable pub rotate :
    (new_session_id new_hashed_refresh_token ip_address user_agent : String) (expires_at now : ℕ)
    → DeviceSession
    → DeviceSession
unfolding new_session
rotate new_session_id new_hashed_refresh_token ip_address user_agent expires_at now s =
    new_session new_session_id s.user_id new_hashed_refresh_token ip_address user_agent expires_at
      now false

unfoldable pub revoke : String → DeviceSession → Result DeviceSession
revoke reason s =
    if s.is_revoked
    then err (invalid_state "Session is already revoked")
    else ok (record s {
      is_revoked = true;
      domain_events = s.domain_events ++ new_event (token_revoked s.id s.user_id reason) ∷ [];
    })
