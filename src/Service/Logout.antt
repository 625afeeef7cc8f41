-- ===== src/Service/Logout.antt =====
-- services/LogoutService.ts.
pub mod Authorized
pub mod Blacklisted
use bankos.Prelude.{
  ℕ, ◌-◌, String, Option, none, some, ltb, ◌===◌, if◌then◌else◌, domain_error, ok, err,
}
use bankos.Cache.{blacklist_token}
use bankos.Crypto.Tokens.{decode}
use bankos.Domain.Session.{DeviceSession, revoke}
use bankos.Repository.Sessions as Sessions
use bankos.Runtime.Packages.{Claims}
use bankos.Runtime.Action.{Action, throw, lift, done, unix, hash_string, ◌>>=◌, ◌>>◌}
use bankos.Service.Setup.{Setup, LogoutRequest, expiry_claim, dispatch_from}

-- A claim that is a text; "" is falsy.
unfoldable pub truthy : Option String → Option String
truthy none = none
truthy (some text) = if text === "" then none else some text

abbrev pub session_claim : Option Claims → Option String
session_claim none = none
session_claim (some claims) = truthy claims.session_id

unfoldable pub jti_claim : Option Claims → Option String
jti_claim none = none
jti_claim (some claims) = truthy claims.jti

-- `accessTokenPayload?.sessionId`, or else that of the refresh token.
unfoldable pub claimed_session : Option Claims → Option Claims → Option String
claimed_session access refresh = elim (session_claim access) [
  | some id ↦ some id
  | none ↦ session_claim refresh
]

module _ (s : Setup) (request : LogoutRequest) (ip_address user_agent : String) where
  -- The remaining lifetime is `exp - unix()`; on ℕ it is zero where the source's is not positive.
  unfoldable pub blacklist_for : Option String → Option ℕ → Action (Unit {0})
  blacklist_for none exp w = (ok tt, w)
  blacklist_for (some jti) none w = (ok tt, w)
  blacklist_for (some jti) (some exp) w =
      (do t ← unix s.env; if ltb 0 (exp - t) then blacklist_token s.env jti (exp - t) else done) w

  unfoldable pub blacklist_access : Action (Unit {0})
  blacklist_access =
      let claims = decode s.env s.config s.keys request.access_token in
      blacklist_for (jti_claim claims) (expiry_claim claims)

  unfoldable pub revoke_found : Option DeviceSession → Action (Unit {0})
  revoke_found none w = (ok tt, w)
  revoke_found (some session) w =
      (if session.is_revoked
          then done
          else if session.refresh_token === hash_string s.env request.refresh_token
          then (do
            session' ← lift (revoke "User requested logout" session)
            Sessions.save s.env session'
            dispatch_from s.env ip_address user_agent session'.domain_events)
          else throw (domain_error "Invalid refresh token for session"))
        w

  unfoldable pub revoke_claimed : Option String → Action (Unit {0})
  revoke_claimed none w = (err (domain_error "Invalid tokens provided for logout"), w)
  revoke_claimed (some session_id) w =
      (do session ← Sessions.find_by_id s.env session_id; revoke_found session) w

  -- `execute`
  unfoldable pub logout : Action (Unit {0})
  logout = do
    blacklist_access
    revoke_claimed (
        claimed_session (decode s.env s.config s.keys request.access_token)
          (decode s.env s.config s.keys request.refresh_token))
