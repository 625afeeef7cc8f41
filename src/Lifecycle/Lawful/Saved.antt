-- ===== src/Lifecycle/Lawful/Saved.antt =====
-- Drawing an id, saving a new session and saving a revoked one.
use bankos.Prelude.{
  ℕ, ◌+◌, ◌≤◌, String, ◌≡◌, refl, ◌∙◌, inl, inr, none, some, List, [], ◌∷◌, ◌++◌, ◌===◌, Bool, true,
  false, ok, err, arith, if◌then◌else◌, Bool-cases, ◌||◌, invalid_state,
}
use bankos.Database.{IsPrisma}
use bankos.Database.Delegate.{update_where}
use bankos.Database.Mapper.{session_columns}
use bankos.Database.Rows.{SessionRow}
use bankos.Domain.Event.{new_event, token_revoked}
use bankos.Domain.Session.{DeviceSession, revoke}
use bankos.Lifecycle.Spec.{Evolves, unchanged, evolved, opened, revoked, revoked_row, Evolves-trans}
use bankos.Repository.Laws.{any-update_where, save_session_known}
use bankos.Repository.Sessions as Sessions
use bankos.Runtime.Action.{Action, lift, ◌>>◌, ◌>>=◌, stored, generate_uuid, database_error}
use bankos.Runtime.Packages.{Packages}
use bankos.Runtime.World.{World}
use bankos.Lifecycle.Lawful.{taken, IsFresh, IsLawful, Opens, Reserves, Revokes}

module _ (env : Packages) where
  module _ (laws : IsPrisma env.prisma)
      (distinct : (m n : ℕ) → (env.random_uuid m === env.random_uuid n) ≡ true → m ≡ n) where
    pub draw-IsLawful :
        {B : Type 0} (k : String → Action B)
        → ((n : ℕ) → Opens env (env.random_uuid n) (k (env.random_uuid n)))
        → IsLawful env (generate_uuid env >>= k)
    draw-IsLawful k opens w fresh =
        opens w.draws (record w { draws = w.draws + 1 })
          (λ n later. fresh n (omega (arith, later)), fresh w.draws (omega arith), apart w.draws)
      where
        apart : (d n : ℕ) → d + 1 ≤ n → (env.random_uuid d === env.random_uuid n) ≡ false
        apart d n later = elim (Bool-cases (env.random_uuid d === env.random_uuid n)) [
          | inl same ↦ ground (arith, distinct d n same, later)
          | inr differ ↦ differ
        ]

    taken-append :
        (id : String) (t : List SessionRow) (row : SessionRow)
        → taken id (t ++ row ∷ []) ≡ (taken id t || (row.id === id))
    taken-append id [] row = ground arith
    taken-append id (x ∷ t) row = ground (arith, taken-append id t row)

    created-Opens :
        (accepted : Bool) (row : SessionRow) (w : World)
        → Reserves env row.id w
        → let after =
            (stored
              (if accepted then some (w.sessions ++ row ∷ []) else none)
              (λ t. record w { sessions = t })
              database_error
              w).1 in
          IsFresh env after × Evolves w.sessions after.sessions
    created-Opens false row w (fresh, free, apart) = (fresh, unchanged)
    created-Opens true row w (fresh, free, apart) = (
      λ n later.
          taken-append (env.random_uuid n) w.sessions row ∙ rw (fresh n later, apart n later) refl,
      evolved unchanged (opened row free),
    )

    pub save-Opens : (session : DeviceSession) → Opens env session.id (Sessions.save env session)
    unfolding Sessions.save session_columns
    save-Opens session w (fresh, free, apart) =
        simp
          (
            laws.device_session_laws.upsert_lem (λ r. r.id === session.id)
                (λ r. record r { is_revoked = session.is_revoked }) (session_columns session)
                w.sessions (λ r t. refl),
            free,
            laws.device_session_laws.create_lem,
          )
          (created-Opens _ (session_columns session) w (fresh, free, apart))

    -- The row of a session that is saved as revoked.
    revoked_session : String → DeviceSession → DeviceSession
    revoked_session reason session = record session {
      is_revoked = true;
      domain_events =
          session.domain_events ++ new_event (token_revoked session.id session.user_id reason) ∷ [];
    }

    revoke-some :
        (reason : String) (session : DeviceSession)
        → session.is_revoked ≡ false
        → revoke reason session ≡ ok (revoked_session reason session)
    unfolding revoke revoked_session
    revoke-some reason session live = simp live refl

    revoke-none :
        (reason : String) (session : DeviceSession)
        → session.is_revoked ≡ true
        → revoke reason session ≡ err (invalid_state "Session is already revoked")
    unfolding revoke
    revoke-none reason session gone = simp gone refl

    save-revoked_session :
        (reason : String) (session : DeviceSession) (w : World)
        → taken session.id w.sessions ≡ true
        → Sessions.save env (revoked_session reason session) w ≡ (
          ok tt,
          record w { sessions = update_where (λ r. r.id === session.id) revoked_row w.sessions },
        )
    unfolding revoked_session
    save-revoked_session reason session w known =
        save_session_known env laws (revoked_session reason session) w known

    pub revoke_then-Revokes :
        {B : Type 0} (reason : String) (session : DeviceSession) (k : DeviceSession → Action B)
        → ((a : DeviceSession) → IsLawful env (k a))
        → Revokes env session.id
            (do session' ← lift (revoke reason session); Sessions.save env session'; k session')
    revoke_then-Revokes reason session k rest w fresh known = elim (Bool-cases session.is_revoked) [
      | inl gone ↦ rw (revoke-none reason session gone) (fresh, unchanged)
      | inr live ↦
          let chosen : SessionRow → Bool = λ r. r.id === session.id in
          let w' : World = record w { sessions = update_where chosen revoked_row w.sessions } in
          let fresh' : IsFresh env w' = λ n later.
            any-update_where (λ (r : SessionRow). r.id === env.random_uuid n) chosen revoked_row
              w.sessions (λ r. refl)
            ∙ fresh n later in
          let (fresh'', e) = rest (revoked_session reason session) w' fresh' in
          rw (revoke-some reason session live, save-revoked_session reason session w known)
            (fresh'', Evolves-trans (evolved unchanged (revoked chosen)) e)
    ]
