-- ===== src/Repository/Sessions.antt =====
-- repositories/PrismaDeviceSessionRepository.ts.
use mathlib.Core.Option
use bankos.Prelude.{String, Bool, true, not, Option, none, some, List, map, ltb, ◌===◌, ◌&&◌, ok}
use bankos.Domain.Session.{DeviceSession}
use bankos.Database.Rows.{SessionRow}
use bankos.Database.Mapper.{to_domain_device_session, to_prisma_device_session}
use bankos.Runtime.Packages.{Packages}
use bankos.Runtime.Action.{Action, gets, now, ◌>>=◌, stored, database_error}

-- `{ where: { userId } }`: an undefined value puts no condition.
unfoldable pub owned_by : Option String → SessionRow → Bool
owned_by none r = true
owned_by (some user_id) r = r.user_id === user_id

module _ (env : Packages) where
  unfoldable pub find_by_id : String → Action (Option DeviceSession)
  find_by_id id = gets λ w.
      Option.map to_domain_device_session
        (env.prisma.device_session.find_unique (λ r. r.id === id) w.sessions)

  unfoldable pub find_by_refresh_token : String → Action (Option DeviceSession)
  find_by_refresh_token hashed_token = gets λ w.
      Option.map to_domain_device_session
        (env.prisma.device_session.find_unique (λ r. r.refresh_token === hashed_token) w.sessions)

  unfoldable pub find_active_sessions : Option String → Action (List DeviceSession)
  find_active_sessions user_id = do
    t ← now env
    gets λ w. map to_domain_device_session (
        env.prisma.device_session.find_many
          (λ r. owned_by user_id r && (not r.is_revoked && ltb t r.expires_at)) w.sessions)

  -- An `upsert`: of a session that is there only the revocation is written.
  unfoldable pub save : DeviceSession → Action (Unit {0})
  save session w =
      stored
        (env.prisma.device_session.upsert (λ r. r.id === session.id)
          (λ r. record r { is_revoked = session.is_revoked })
          (to_prisma_device_session (env.time w.ticks) session).columns w.sessions)
        (λ t. record w { sessions = t }) database_error w

  unfoldable pub revoke_session : String → Action (Unit {0})
  revoke_session id w =
      stored
        (env.prisma.device_session.update (λ r. r.id === id) (λ r. record r { is_revoked = true })
          w.sessions)
        (λ t. record w { sessions = t }) database_error w

  unfoldable pub revoke_all_for_user : String → Action (Unit {0})
  revoke_all_for_user user_id w = (
    ok tt,
    record w {
      sessions =
          env.prisma.device_session.update_many (λ r. r.user_id === user_id && not r.is_revoked)
            (λ r. record r { is_revoked = true }) w.sessions;
    },
  )
