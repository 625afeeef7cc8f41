-- ===== src/Service/Refresh/Spending.antt =====
-- What a use of a live refresh token leaves in the row of its session.
use bankos.Prelude.{
  ℕ, ◌+◌, String, ◌≡◌, refl, ap, ◌∙◌, true, false, Option, some, List, [], ◌∷◌, any, first, ◌===◌,
  ===-refl, ok,
}
use bankos.Crypto.Tokens.{verify_refresh_token}
use bankos.Database.{IsPrisma}
use bankos.Database.Delegate.{update_where}
use bankos.Database.Mapper.{to_domain_device_session, to_domain_user}
use bankos.Database.Rows.{SessionRow, UserRow}
use bankos.Domain.Event.{new_event, token_revoked}
use bankos.Domain.Session.{DeviceSession, revoke, is_expired}
use bankos.Domain.User.{User}
use bankos.Repository.Laws.{
  first-any, first-update_where, any-update_where, find_user_lem, save_session_known,
  domain_session_id, domain_session_revoked,
}
use bankos.Repository.Sessions as Sessions
use bankos.Runtime.Action.{hash_string}
use bankos.Runtime.Packages.{Claims}
use bankos.Runtime.World.{World}
use bankos.Service.Refresh.{
  is_claimed, find_user, refresh, refresh_for, refresh_live, rotate_session,
}
use bankos.Service.Refresh.Rotation.{rotate_session-Names}
use bankos.Service.Refresh.Refusal.{refresh_answers}
use bankos.Service.Setup.{Setup}

-- The row of a session after its token was used.
abbrev pub spent : SessionRow → SessionRow
spent r = record r { is_revoked = true }

abbrev revoked_session : SessionRow → DeviceSession
revoked_session r = record {
  id = r.id;
  user_id = r.user_id;
  refresh_token = r.refresh_token;
  ip_address = r.ip_address;
  user_agent = r.user_agent;
  expires_at = r.expires_at;
  created_at = r.created_at;
  is_revoked = true;
  domain_events = new_event (token_revoked r.id r.user_id "revoked") ∷ [];
}

revoke_live :
    (r : SessionRow)
    → r.is_revoked ≡ false
    → revoke "revoked" (to_domain_device_session r) ≡ ok (revoked_session r)
unfolding revoke to_domain_device_session
revoke_live r live = rw live refl

saved : SessionRow → World → World
saved r w = record w { sessions = update_where (λ x. x.id === r.id) spent w.sessions }

domain_free : (u : UserRow) → (to_domain_user u).is_locked ≡ u.is_locked
unfolding to_domain_user
domain_free u = refl

module _ (s : Setup) (laws : IsPrisma s.env.prisma) where
  module _ (token ip_address user_agent : String) where
    save_spent :
        (r : SessionRow) (w : World)
        → any (λ x. x.id === r.id) w.sessions ≡ true
        → Sessions.save s.env (revoked_session r) w ≡ (ok tt, saved r w)
    unfolding saved
    save_spent r w known = save_session_known s.env laws (revoked_session r) w known

    refresh_for-rotates :
        (r : SessionRow) (t : ℕ) (user : User) (w : World)
        → r.is_revoked ≡ false
        → user.is_locked ≡ false
        → any (λ x. x.id === r.id) w.sessions ≡ true
        → refresh_for s token ip_address user_agent (to_domain_device_session r) t (some user) w
          ≡ rotate_session s token ip_address user_agent (revoked_session r) user t (saved r w)
    unfolding refresh_for
    refresh_for-rotates r t user w live free known =
        simp (free, revoke_live r live, save_spent r w known) refl

    find_user-known :
        (id : String) (w : World) (u : UserRow)
        → first (λ r. r.id === id) w.users ≡ some u
        → find_user s token ip_address user_agent (some id) w ≡ (ok (some (to_domain_user u)), w)
    unfolding find_user
    find_user-known id w u known = rw (find_user_lem s.env laws id w, known) refl

    -- The state after the clock was read.
    abbrev ticked : World → World
    ticked w = record w { ticks = w.ticks + 1 }

    refresh_live-passes :
        (claims : Claims) (session : DeviceSession) (id : String) (u : UserRow) (w : World)
        → session.is_revoked ≡ false
        → is_claimed claims.session_id session.id ≡ true
        → is_expired (s.env.time w.ticks) session ≡ false
        → claims.sub ≡ some id
        → first (λ r. r.id === id) w.users ≡ some u
        → refresh_live s token ip_address user_agent claims session w
          ≡ refresh_for s token ip_address user_agent session
              (s.env.time w.ticks)
              (some (to_domain_user u))
              (ticked w)
    unfolding refresh_live
    refresh_live-passes claims session id u w live claimed current subject known =
        simp (live, claimed, current, subject, find_user-known id (ticked w) u known) refl

    abbrev hash_names : List SessionRow → Option SessionRow
    hash_names t = first (λ x. x.refresh_token === hash_string s.env token) t

    pub refresh-spends :
        (w w' : World) (claims : Claims) (r : SessionRow) (id : String) (u : UserRow)
        → verify_refresh_token s.env s.config s.keys token w ≡ (ok claims, w')
        → hash_names w'.sessions ≡ some r
        → r.is_revoked ≡ false
        → is_claimed claims.session_id r.id ≡ true
        → is_expired (s.env.time w'.ticks) (to_domain_device_session r) ≡ false
        → claims.sub ≡ some id
        → first (λ r. r.id === id) w'.users ≡ some u
        → u.is_locked ≡ false
        → ((n : ℕ) → any (λ x. x.id === s.env.random_uuid n) w'.sessions ≡ false)
        → hash_names (refresh s token ip_address user_agent w).1.sessions ≡ some (spent r)
    unfolding saved
    refresh-spends w w' claims r id u verified known live claimed current subject listed free
          fresh =
        let session = to_domain_device_session r in
        let there =
          first-any (λ (x : SessionRow). x.refresh_token === hash_string s.env token)
            (λ x. x.id === r.id) w'.sessions r known (===-refl r.id) in
        let claimed' : is_claimed claims.session_id session.id ≡ true =
          ap (is_claimed claims.session_id) (domain_session_id r) ∙ claimed in
        let after : List SessionRow = (saved r (ticked w')).sessions in
        let named : hash_names after ≡ some (spent r) =
          first-update_where (λ (x : SessionRow). x.refresh_token === hash_string s.env token)
            (λ x. x.id === r.id) spent w'.sessions (λ x. refl)
          ∙ simp (known, ===-refl r.id) refl in
        let fresh' : (n : ℕ) → any (λ x. x.id === s.env.random_uuid n) after ≡ false = λ n.
          any-update_where (λ (x : SessionRow). x.id === s.env.random_uuid n) (λ x. x.id === r.id)
            spent w'.sessions (λ x. refl)
          ∙ fresh n in
        rw
          (
            refresh_answers s laws token ip_address user_agent w w' claims verified,
            known,
            refresh_live-passes claims session id u w' (domain_session_revoked r ∙ live) claimed'
                current subject listed,
            refresh_for-rotates r (s.env.time w'.ticks) (to_domain_user u) (ticked w') live
                (domain_free u ∙ free) there,
          )
          (rotate_session-Names s laws (hash_string s.env token) (spent r) token ip_address
            user_agent (revoked_session r) (to_domain_user u) (s.env.time w'.ticks) after fresh'
            named (saved r (ticked w')) refl)
