-- ===== src/Service/Refresh.antt =====
-- services/RefreshTokenService.ts.
pub mod Refusal
pub mod Rotation
pub mod Spending
use bankos.Prelude.{
  ℕ, ◌+◌, ◌*◌, String, Bool, true, false, not, Option, none, some, List, [], ◌∷◌, ◌===◌,
  if◌then◌else◌, Thrown, domain_error, failure, Result, ok, err,
}
use bankos.Domain.User.{User}
use bankos.Domain.Session.{DeviceSession, is_expired, revoke, rotate}
use bankos.Domain.Session as SessionEntity
use bankos.Crypto.Tokens.{
  generate_access_token, generate_refresh_token, verify_refresh_token, decode,
}
use bankos.Engine.Authorization.{resolve_roles, resolve_permissions}
use bankos.Events.{dispatch}
use bankos.Repository.Users as Users
use bankos.Repository.Sessions as Sessions
use bankos.Runtime.Packages.{Packages, Claims}
use bankos.Runtime.World.{World}
use bankos.Runtime.Action.{
  Action, pure, throw, throw_if, lift, now, generate_uuid, hash_string, for_each, ◌>>=◌, ◌>>◌,
}
use bankos.Service.Setup.{Setup, TokenPair, new_payload, expiry_claim, week_ms, dispatch_from}

unfoldable pub rethrow : {A : Type 0} → Thrown → Result A × World → Result A × World
rethrow e (ok a, w) = (ok a, w)
rethrow e (err _, w) = (err e, w)

-- What a `catch` that throws `e` instead does with the result of `verifyRefreshToken`.
unfoldable pub or_else : {A : Type 0} → Action A → Thrown → Action A
or_else m e w = rethrow e (m w)

-- `session.id !== sessionId`; an undefined claim differs from every id.
unfoldable pub is_claimed : Option String → String → Bool
is_claimed none id = false
is_claimed (some claimed) id = claimed === id

module _ (s : Setup) (refresh_token ip_address user_agent : String) where
  unfoldable pub revoke_replayed : DeviceSession → Action (Unit {0})
  revoke_replayed session = do
    session' ← lift (revoke "Token replay detected" session)
    Sessions.save s.env session'
    dispatch s.env session'.domain_events

  -- From `session.rotate(…)` on.
  unfoldable pub store_rotated : DeviceSession → String → String → String → ℕ → ℕ → Action TokenPair
  store_rotated session new_session_id access_token new_refresh_token new_expires_at t = do
    let new_session =
        rotate new_session_id (hash_string s.env new_refresh_token) ip_address user_agent
          new_expires_at t session
    Sessions.save s.env new_session
    dispatch_from s.env ip_address user_agent new_session.domain_events
    pure (record { access_token = access_token; refresh_token = new_refresh_token })

  unfoldable pub rotated_expiry : String → ℕ → ℕ
  rotated_expiry new_refresh_token t =
      elim (expiry_claim (decode s.env s.config s.keys new_refresh_token)) [
        | some exp ↦ exp * 1000
        | none ↦ t + week_ms
      ]

  -- From the payload on.
  unfoldable pub sign_rotated :
      DeviceSession → User → ℕ → List String → List String → String → Action TokenPair
  sign_rotated session user t effective_roles effective_permissions new_session_id = do
    let payload = new_payload effective_roles effective_permissions new_session_id
    access_token ← generate_access_token s.env s.config s.keys payload user.id
    new_refresh_token ← generate_refresh_token s.env s.config s.keys payload user.id
    store_rotated session new_session_id access_token new_refresh_token
        (rotated_expiry new_refresh_token t) t

  unfoldable pub rotate_session : DeviceSession → User → ℕ → Action TokenPair
  rotate_session session user t = do
    direct_roles ← Users.find_roles s.env user.id
    effective_roles ← resolve_roles s.env direct_roles
    effective_permissions ← resolve_permissions s.env direct_roles
    new_session_id ← generate_uuid s.env
    sign_rotated session user t effective_roles effective_permissions new_session_id

  unfoldable pub refresh_for : DeviceSession → ℕ → Option User → Action TokenPair
  refresh_for session t none w = (err (domain_error "User is locked or disabled"), w)
  refresh_for session t (some user) w =
      (if user.is_locked then throw (domain_error "User is locked or disabled") else (do
        session' ← lift (revoke "revoked" session)
        Sessions.save s.env session'
        rotate_session session' user t))
        w

  -- `findById(undefined)`: the client throws.
  unfoldable pub find_user : Option String → Action (Option User)
  find_user none w = (err (failure "PrismaClientValidationError"), w)
  find_user (some user_id) w = Users.find_by_id s.env user_id w

  unfoldable pub refresh_live : Claims → DeviceSession → Action TokenPair
  refresh_live claims session =
      if session.is_revoked
      then throw (domain_error "Session is revoked")
      else if not (is_claimed claims.session_id session.id)
      then throw (domain_error "Session mismatch")
      else (do
        t ← now s.env
        throw_if (is_expired t session) (domain_error "Session expired")
        user ← find_user claims.sub
        refresh_for session t user)

  unfoldable pub refresh_replayed : Claims → Action TokenPair
  refresh_replayed claims = do
    all_sessions ← Sessions.find_active_sessions s.env claims.sub
    for_each revoke_replayed all_sessions
    throw (domain_error "Token replay detected")

  unfoldable pub refresh_session : Claims → Option DeviceSession → Action TokenPair
  refresh_session claims none w = (err (domain_error "Session not found"), w)
  refresh_session claims (some session) w =
      (if session.refresh_token === hash_string s.env refresh_token
          then refresh_live claims session
          else refresh_replayed claims)
        w

  -- `execute`
  unfoldable pub refresh : Action TokenPair
  refresh = do
    claims ←
        or_else (verify_refresh_token s.env s.config s.keys refresh_token)
          (domain_error "Invalid refresh token")
    session ← Sessions.find_by_refresh_token s.env (hash_string s.env refresh_token)
    refresh_session claims session
