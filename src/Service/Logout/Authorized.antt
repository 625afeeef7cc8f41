-- ===== src/Service/Logout/Authorized.antt =====
-- Which sessions a logout revokes.
use mathlib.Core.Option
use bankos.Prelude.{
  String, ◌≡◌, refl, ap, ◌∙◌, true, false, some, first, ◌===◌, ===-refl, ok, err, domain_error, any,
  List, [], ◌∷◌,
}
use bankos.Crypto.Tokens.{decode}
use bankos.Database.{IsPrisma}
use bankos.Database.Rows.{SessionRow}
use bankos.Database.Delegate.{update_where}
use bankos.Database.Mapper.{to_domain_device_session}
use bankos.Domain.Session.{DeviceSession, revoke}
use bankos.Domain.Event.{Event, new_event, token_revoked}
use bankos.Repository.Sessions as Sessions
use bankos.Repository.Laws.{
  first-any, first-update_where, save_session_known, domain_session_revoked, domain_session_token,
}
use bankos.Events.Untouched.{dispatch-Keeps}
use bankos.Runtime.Keeps.{Keeps}
use bankos.Runtime.Action.{hash_string}
use bankos.Runtime.World.{World}
use bankos.Service.Setup.{Setup, LogoutRequest, dispatch_from}
use bankos.Service.Logout.{claimed_session, blacklist_access, revoke_found, revoke_claimed, logout}

module _ (s : Setup) (laws : IsPrisma s.env.prisma) (request : LogoutRequest)
    (ip_address user_agent : String) where
  pub find_session_lem :
      (id : String) (w : World)
      → Sessions.find_by_id s.env id w
        ≡ (ok (Option.map to_domain_device_session (first (λ r. r.id === id) w.sessions)), w)
  unfolding Sessions.find_by_id
  find_session_lem id w = rw laws.device_session_laws.find_unique_lem refl

  revoke_found-wrong :
      (session : DeviceSession) (w : World)
      → session.is_revoked ≡ false
      → (session.refresh_token === hash_string s.env request.refresh_token) ≡ false
      → revoke_found s request ip_address user_agent (some session) w
        ≡ (err (domain_error "Invalid refresh token for session"), w)
  unfolding revoke_found
  revoke_found-wrong session w live wrong = simp (live, wrong) refl

  -- A logout whose access token was blacklisted without an error and whose tokens name a live
  -- session, but whose refresh token is not the one of that session, throws, and writes nothing
  -- after the access token was blacklisted: the session stays alive.
  pub logout_refuses :
      (w w' : World) (id : String) (r : SessionRow)
      → blacklist_access s request ip_address user_agent w ≡ (ok tt, w')
      → claimed_session
          (decode s.env s.config s.keys request.access_token)
          (decode s.env s.config s.keys request.refresh_token)
        ≡ some id
      → first (λ r. r.id === id) w'.sessions ≡ some r
      → r.is_revoked ≡ false
      → (r.refresh_token === hash_string s.env request.refresh_token) ≡ false
      → logout s request ip_address user_agent w
        ≡ (err (domain_error "Invalid refresh token for session"), w')
  unfolding logout revoke_claimed
  logout_refuses w w' id r listed claimed known live wrong =
      rw (listed, claimed, revoke_claimed, find_session_lem id w', known)
        (revoke_found-wrong (to_domain_device_session r) w' (domain_session_revoked r ∙ live) (
          ap (λ t. t === hash_string s.env request.refresh_token) (domain_session_token r) ∙ wrong))

  -- The session after a logout.
  abbrev pub logged_out : SessionRow → SessionRow
  logged_out r = record r { is_revoked = true }

  revoked_session : SessionRow → DeviceSession
  revoked_session r = record {
    id = r.id;
    user_id = r.user_id;
    refresh_token = r.refresh_token;
    ip_address = r.ip_address;
    user_agent = r.user_agent;
    expires_at = r.expires_at;
    created_at = r.created_at;
    is_revoked = true;
    domain_events = new_event (token_revoked r.id r.user_id "User requested logout") ∷ [];
  }

  revoke_live :
      (r : SessionRow)
      → r.is_revoked ≡ false
      → revoke "User requested logout" (to_domain_device_session r) ≡ ok (revoked_session r)
  unfolding revoke to_domain_device_session revoked_session
  revoke_live r live = rw live refl

  saved : SessionRow → World → World
  saved r w = record w { sessions = update_where (λ x. x.id === r.id) logged_out w.sessions }

  save_revoked :
      (r : SessionRow) (w : World)
      → any (λ x. x.id === r.id) w.sessions ≡ true
      → Sessions.save s.env (revoked_session r) w ≡ (ok tt, saved r w)
  unfolding revoked_session saved
  save_revoked r w known = save_session_known s.env laws (revoked_session r) w known

  revoke_found-right :
      (r : SessionRow) (w : World)
      → r.is_revoked ≡ false
      → (r.refresh_token === hash_string s.env request.refresh_token) ≡ true
      → any (λ x. x.id === r.id) w.sessions ≡ true
      → revoke_found s request ip_address user_agent (some (to_domain_device_session r)) w
        ≡ dispatch_from s.env ip_address user_agent (revoked_session r).domain_events (saved r w)
  unfolding revoke_found
  revoke_found-right r w live right known =
      simp
        (
          domain_session_revoked r ∙ live,
          ap (λ t. t === hash_string s.env request.refresh_token) (domain_session_token r) ∙ right,
          revoke_live r live,
          save_revoked r w known,
        )
        refl

  dispatch_from-Keeps :
      (events : List Event)
      → Keeps (λ w. w.sessions) (dispatch_from s.env ip_address user_agent events)
  unfolding dispatch_from
  dispatch_from-Keeps events w =
      dispatch-Keeps s.env (λ w. w.sessions) (λ w log draws ticks. refl) _ w

  saved-session :
      (id : String) (r : SessionRow) (w : World)
      → first (λ r. r.id === id) w.sessions ≡ some r
      → first (λ r. r.id === id) (saved r w).sessions ≡ some (logged_out r)
  unfolding saved
  saved-session id r w known =
      first-update_where (λ (x : SessionRow). x.id === id) (λ x. x.id === r.id) logged_out
        w.sessions (λ x. refl)
      ∙ simp (known, ===-refl r.id) refl

  -- A logout whose access token was blacklisted without an error, whose tokens name a live
  -- session, and with the refresh token of that session, leaves the session revoked in the
  -- table, also where the audit log throws afterwards.
  pub logout_revokes :
      (w w' : World) (id : String) (r : SessionRow)
      → blacklist_access s request ip_address user_agent w ≡ (ok tt, w')
      → claimed_session
          (decode s.env s.config s.keys request.access_token)
          (decode s.env s.config s.keys request.refresh_token)
        ≡ some id
      → first (λ r. r.id === id) w'.sessions ≡ some r
      → r.is_revoked ≡ false
      → (r.refresh_token === hash_string s.env request.refresh_token) ≡ true
      → first (λ r. r.id === id) (logout s request ip_address user_agent w).1.sessions
        ≡ some (logged_out r)
  unfolding logout revoke_claimed
  logout_revokes w w' id r listed claimed known live right =
      let there =
        first-any (λ (x : SessionRow). x.id === id) (λ x. x.id === r.id) w'.sessions r known
          (===-refl r.id) in
      rw
        (
          listed,
          claimed,
          revoke_claimed,
          find_session_lem id w',
          known,
          revoke_found-right r w' live right there,
          dispatch_from-Keeps (revoked_session r).domain_events (saved r w'),
        )
        (saved-session id r w' known)
