-- ===== src/Repository/RoundTrip.antt =====
-- repositories/PrismaUserRepository.ts and PrismaDeviceSessionRepository.ts: what is stored is found
-- again, through the mapper and the database.
use mathlib.Core.Option
use bankos.Prelude.{
  String, ◌≡◌, refl, ap, ◌∙◌, sym, false, some, [], ◌∷◌, ◌++◌, any, first, ◌===◌, ===_iff, ===-refl,
  ok,
}
use bankos.Database.{IsPrisma}
use bankos.Database.Rows.{UserRow, SessionRow, user_clash, session_clash}
use bankos.Database.Delegate.{update_where}
use bankos.Database.Mapper.{user_columns, to_domain_device_session, session_columns}
use bankos.Domain.Session as SessionEntity
use bankos.Domain.Session.{DeviceSession}
use bankos.Domain.User.{User, clear_events}
use bankos.Repository.Laws.{
  find_user_lem, find_by_email_lem, first_holds, first-append_new, first-update_where, any_of_first,
  update_known,
}
use bankos.Repository.Sessions as Sessions
use bankos.Repository.Users as Users
use bankos.Runtime.Packages.{Packages}
use bankos.Runtime.World.{World}
use bankos.Repository.Stored.{
  first-unclashed, created, stored_ok, stored_user, stored_session, id-clashes, email-clashes,
  token-clashes, prisma_id, prisma_email, updated_user, prisma_token,
}

module _ (env : Packages) (laws : IsPrisma env.prisma) where
  user_created :
      (u : User) (w w' : World)
      → Users.save env u w ≡ (ok tt, w')
      → (any (user_clash (user_columns u)) w.users ≡ false)
        × (w.users ++ user_columns u ∷ [] ≡ w'.users)
  unfolding Users.save
  user_created u w w' e =
      let (t, made, put) = stored_ok _ (λ t. record w { users = t }) w w' e in
      let (free, appended) = created laws.user_laws (user_columns u) w.users t made in
      (free, appended ∙ ap (λ (v : World). v.users) put)

  -- A user that `save` stored is found by its id and by its e-mail, as it was but without pending
  -- events; finding writes nothing.
  pub saved_user_found :
      (u : User) (w w' : World)
      → Users.save env u w ≡ (ok tt, w')
      → (Users.find_by_id env u.id w' ≡ (ok (some (clear_events u)), w'))
        × (Users.find_by_email env u.email w' ≡ (ok (some (clear_events u)), w'))
  saved_user_found u w w' e =
      let (free, appended) = user_created u w w' e in
      let row = user_columns u in
      let by_id : first (λ (r : UserRow). r.id === u.id) w'.users ≡ some row =
        ap (first (λ (r : UserRow). r.id === u.id)) (sym appended)
        ∙ first-append_new (λ r. r.id === u.id) w.users row
            (first-unclashed _ _ w.users (id-clashes u) free) (rw (prisma_id u) (===-refl u.id)) in
      let by_email : first (λ (r : UserRow). r.email === u.email) w'.users ≡ some row =
        ap (first (λ (r : UserRow). r.email === u.email)) (sym appended)
        ∙ first-append_new (λ r. r.email === u.email) w.users row
            (first-unclashed _ _ w.users (email-clashes u) free)
            (rw (prisma_email u) (===-refl u.email)) in
      (
        rw (find_user_lem env laws u.id w', by_id, stored_user u) refl,
        rw (find_by_email_lem env laws u.email w', by_email, stored_user u) refl,
      )

  -- A user whose id and e-mail are those of a row is stored by `update`, and then found by its id, as it
  -- was but without pending events.
  pub updated_user_found :
      (u : User) (w : World) (r : UserRow)
      → first (λ r. r.id === u.id) w.users ≡ some r
      → r.email ≡ u.email
      → (w' : World) × (Users.update env u w ≡ (ok tt, w'))
        × (Users.find_by_id env u.id w' ≡ (ok (some (clear_events u)), w'))
  updated_user_found u w r known email =
      let f = Users.updated_columns (user_columns u) in
      let holds = first_holds (λ (r : UserRow). r.id === u.id) w.users r known in
      let w' : World = record w { users = update_where (λ r. r.id === u.id) f w.users } in
      let there : first (λ (r : UserRow). r.id === u.id) w'.users ≡ some (f r) =
        first-update_where (λ (r : UserRow). r.id === u.id) (λ r. r.id === u.id) f w.users
          (λ x. refl)
        ∙ simp (known, holds) refl in
      (
        w',
        update_known env laws u w (any_of_first (λ (r : UserRow). r.id === u.id) w.users r known),
        rw
            (
              find_user_lem env laws u.id w',
              there,
              updated_user u r ((===_iff r.id u.id).0 holds) email,
            )
            refl,
      )

  session_created :
      (s : DeviceSession) (w w' : World)
      → any (λ r. r.id === s.id) w.sessions ≡ false
      → Sessions.save env s w ≡ (ok tt, w')
      → (any (session_clash (session_columns s)) w.sessions ≡ false)
        × (w.sessions ++ session_columns s ∷ [] ≡ w'.sessions)
  unfolding Sessions.save
  session_created s w w' new e =
      let (t, made, put) = stored_ok _ (λ t. record w { sessions = t }) w w' e in
      let row = session_columns s in
      let inserted : env.prisma.device_session.create row w.sessions ≡ some t =
        sym (
          laws.device_session_laws.upsert_lem (λ r. r.id === s.id)
            (λ r. record r { is_revoked = s.is_revoked }) row w.sessions (λ r t. refl)
          ∙ simp new refl)
        ∙ made in
      let (free, appended) = created laws.device_session_laws row w.sessions t inserted in
      (free, appended ∙ ap (λ (v : World). v.sessions) put)

  find_session_lem :
      (token : String) (w : World)
      → Sessions.find_by_refresh_token env token w ≡ (
        ok (
            Option.map to_domain_device_session
              (first (λ r. r.refresh_token === token) w.sessions)),
        w,
      )
  unfolding Sessions.find_by_refresh_token
  find_session_lem token w = rw laws.device_session_laws.find_unique_lem refl

  -- A session under a new id that `save` stored is found by the hash of its refresh token, as it was
  -- but without pending events.
  pub saved_session_found :
      (s : DeviceSession) (w w' : World)
      → any (λ r. r.id === s.id) w.sessions ≡ false
      → Sessions.save env s w ≡ (ok tt, w')
      → Sessions.find_by_refresh_token env s.refresh_token w'
        ≡ (ok (some (SessionEntity.clear_events s)), w')
  saved_session_found s w w' new e =
      let (free, appended) = session_created s w w' new e in
      let row = session_columns s in
      let there : first (λ (r : SessionRow). r.refresh_token === s.refresh_token) w'.sessions
          ≡ some row =
        ap (first (λ (r : SessionRow). r.refresh_token === s.refresh_token)) (sym appended)
        ∙ first-append_new (λ r. r.refresh_token === s.refresh_token) w.sessions row
            (first-unclashed _ _ w.sessions (token-clashes s) free)
            (rw (prisma_token s) (===-refl s.refresh_token)) in
      rw (find_session_lem s.refresh_token w', there, stored_session s) refl
