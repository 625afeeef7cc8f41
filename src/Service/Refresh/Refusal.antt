-- ===== src/Service/Refresh/Refusal.antt =====
-- What `RefreshTokenService` answers for a token that verifies.
use mathlib.Core.Option
use bankos.Prelude.{
  String, ◌≡◌, refl, ap, ◌∙◌, true, Option, none, some, first, ◌===◌, Thrown, Result, ok, err,
  domain_error,
}
use bankos.Crypto.Tokens.{verify_refresh_token}
use bankos.Database.{IsPrisma}
use bankos.Database.Rows.{SessionRow}
use bankos.Database.Mapper.{to_domain_device_session}
use bankos.Domain.Session.{DeviceSession}
use bankos.Repository.Laws.{first_holds, domain_session_revoked, domain_session_token}
use bankos.Repository.Sessions as Sessions
use bankos.Runtime.Action.{Action, hash_string}
use bankos.Runtime.Packages.{Claims}
use bankos.Runtime.World.{World}
use bankos.Service.Setup.{Setup, TokenPair}
use bankos.Service.Refresh.{or_else, rethrow, refresh, refresh_live, refresh_session}

or_else-ok :
    {A : Type 0} (m : Action A) (e : Thrown) (w w' : World) (a : A)
    → m w ≡ (ok a, w')
    → or_else m e w ≡ (ok a, w')
unfolding or_else rethrow
or_else-ok m e w w' a returned = ap (rethrow e) returned

module _ (s : Setup) (laws : IsPrisma s.env.prisma) (token ip_address user_agent : String) where
  abbrev pub stored_session : World → Option SessionRow
  stored_session w = first (λ r. r.refresh_token === hash_string s.env token) w.sessions

  pub find_session_lem :
      (w : World)
      → Sessions.find_by_refresh_token s.env (hash_string s.env token) w
        ≡ (ok (Option.map to_domain_device_session (stored_session w)), w)
  unfolding Sessions.find_by_refresh_token
  find_session_lem w = rw laws.device_session_laws.find_unique_lem refl

  -- What the answer for a verified token is, by the session that its hash names.
  abbrev pub answer : Claims → World → Option SessionRow → Result TokenPair × World
  answer claims w none = (err (domain_error "Session not found"), w)
  answer claims w (some r) =
      refresh_live s token ip_address user_agent claims (to_domain_device_session r) w

  pub refresh_session-answer :
      (claims : Claims) (w : World) (found : Option SessionRow)
      → stored_session w ≡ found
      → refresh_session s token ip_address user_agent claims
          (Option.map to_domain_device_session found)
          w
        ≡ answer claims w found
  unfolding refresh_session
  refresh_session-answer claims w none known = refl
  refresh_session-answer claims w (some r) known =
      let same : (r.refresh_token === hash_string s.env token) ≡ true =
        first_holds (λ (x : SessionRow). x.refresh_token === hash_string s.env token) w.sessions r
          known in
      simp (domain_session_token r, same) refl

  -- A token that verifies is answered by the session that its hash names: there is none, and then that
  -- is the error, or the session is tested and rotated. The branch that takes the token for a
  -- replayed one and revokes every session of the user is never taken.
  pub refresh_answers :
      (w w' : World) (claims : Claims)
      → verify_refresh_token s.env s.config s.keys token w ≡ (ok claims, w')
      → refresh s token ip_address user_agent w ≡ answer claims w' (stored_session w')
  unfolding refresh
  refresh_answers w w' claims verified =
      rw (or_else-ok _ _ w w' claims verified, find_session_lem w')
        (refresh_session-answer claims w' (stored_session w') refl)

  live_revoked :
      (claims : Claims) (session : DeviceSession) (w : World)
      → session.is_revoked ≡ true
      → refresh_live s token ip_address user_agent claims session w
        ≡ (err (domain_error "Session is revoked"), w)
  unfolding refresh_live
  live_revoked claims session w revoked = simp revoked refl

  -- A token that verifies and whose session is revoked gets an error, and nothing is written
  -- after the token was verified.
  pub refresh_refuses_revoked :
      (w w' : World) (claims : Claims) (r : SessionRow)
      → verify_refresh_token s.env s.config s.keys token w ≡ (ok claims, w')
      → stored_session w' ≡ some r
      → r.is_revoked ≡ true
      → refresh s token ip_address user_agent w ≡ (err (domain_error "Session is revoked"), w')
  refresh_refuses_revoked w w' claims r verified known revoked =
      rw (refresh_answers w w' claims verified, known)
        (live_revoked claims (to_domain_device_session r) w' (domain_session_revoked r ∙ revoked))
