-- ===== src/Repository/Laws.antt =====
-- What the repositories do, from the laws of the client.
use mathlib.Core.Option
use bankos.Prelude.{
  String, ◌≡◌, refl, Bool, true, none, some, List, [], ◌∷◌, ◌++◌, any, first, arith, ◌===◌, ===_iff,
  ===-refl, ok, err, Bool-cases, if◌then◌else◌, inl, inr,
}
use bankos.Domain.User.{User}
use bankos.Database.{IsPrisma}
use bankos.Database.Rows.{UserRow, SessionRow, user_clash}
use bankos.Database.Delegate.{Model, IsModel, update_where}
use bankos.Database.Mapper.{to_domain_user, user_columns, session_columns, to_domain_device_session}
use bankos.Domain.Session.{DeviceSession}
use bankos.Repository.Sessions as Sessions
use bankos.Repository.Users as Users
use bankos.Runtime.Packages.{Packages}
use bankos.Runtime.World.{World}
use bankos.Runtime.Action.{database_error}

module _ {Row : Type 0} where
  pub first_holds : (p : Row → Bool) (t : List Row) (r : Row) → first p t ≡ some r → p r ≡ true
  first_holds p [] r e = cc
  first_holds p (x ∷ t) r e = elim (Bool-cases (p x)) [
    | inl holds ↦ let same : x ≡ r = ground arith in rw (← same) holds
    | inr fails ↦ first_holds p t r (ground arith)
  ]

  pub first-any :
      (p q : Row → Bool) (t : List Row) (r : Row) → first p t ≡ some r → q r ≡ true → any q t ≡ true
  first-any p q [] r e h = cc
  first-any p q (x ∷ t) r e h = elim (Bool-cases (p x)) [
    | inl holds ↦ let same : x ≡ r = ground arith in rw (same, h) refl
    | inr fails ↦ let ih = first-any p q t r (ground arith) h in ground arith
  ]

  pub first-update_where :
      (p q : Row → Bool) (f : Row → Row) (t : List Row)
      → ((r : Row) → p (f r) ≡ p r)
      → first p (update_where q f t) ≡ Option.map (λ r. if q r then f r else r) (first p t)
  unfolding update_where
  first-update_where p q f [] keeps = refl
  first-update_where p q f (x ∷ t) keeps = ground (arith, keeps x, first-update_where p q f t keeps)

  pub any-update_where :
      (p q : Row → Bool) (f : Row → Row) (t : List Row)
      → ((r : Row) → p (f r) ≡ p r)
      → any p (update_where q f t) ≡ any p t
  unfolding update_where
  any-update_where p q f [] keeps = refl
  any-update_where p q f (x ∷ t) keeps = ground (arith, keeps x, any-update_where p q f t keeps)

  pub first-append :
      (p : Row → Bool) (t : List Row) (r x : Row)
      → first p t ≡ some r
      → first p (t ++ x ∷ []) ≡ some r
  first-append p [] r x e = cc
  first-append p (y ∷ t) r x e = ground (arith, first-append p t r x)

  pub first-append_new :
      (p : Row → Bool) (t : List Row) (x : Row)
      → first p t ≡ none
      → p x ≡ true
      → first p (t ++ x ∷ []) ≡ some x
  first-append_new p [] x e h = rw h refl
  first-append_new p (y ∷ t) x e h = ground (arith, first-append_new p t x)

  pub any_of_first : (p : Row → Bool) (t : List Row) (r : Row) → first p t ≡ some r → any p t ≡ true
  any_of_first p t r e = first-any p p t r e (first_holds p t r e)

  -- A row that collides with one that is there is not created.
  pub create_clashing :
      {clash : Row → Row → Bool} {m : Model Row} (laws : IsModel clash m) (row : Row) (t : List Row)
      → any (clash row) t ≡ true
      → m.create row t ≡ none
  create_clashing laws row t h = rw (laws.create_lem row t, laws.accepts_unique row t h) refl

-- What the mapper keeps of a session.
pub domain_session_id : (r : SessionRow) → (to_domain_device_session r).id ≡ r.id
unfolding to_domain_device_session
domain_session_id r = refl

pub domain_session_token :
    (r : SessionRow) → (to_domain_device_session r).refresh_token ≡ r.refresh_token
unfolding to_domain_device_session
domain_session_token r = refl

pub domain_session_revoked :
    (r : SessionRow) → (to_domain_device_session r).is_revoked ≡ r.is_revoked
unfolding to_domain_device_session
domain_session_revoked r = refl

module _ (env : Packages) (laws : IsPrisma env.prisma) where
  pub find_user_lem :
      (id : String) (w : World)
      → Users.find_by_id env id w
        ≡ (ok (Option.map to_domain_user (first (λ r. r.id === id) w.users)), w)
  unfolding Users.find_by_id
  find_user_lem id w = rw laws.user_laws.find_unique_lem refl

  pub find_by_email_lem :
      (email : String) (w : World)
      → Users.find_by_email env email w
        ≡ (ok (Option.map to_domain_user (first (λ r. r.email === email) w.users)), w)
  unfolding Users.find_by_email
  find_by_email_lem email w = rw laws.user_laws.find_unique_lem refl

  pub update_known :
      (u : User) (w : World)
      → any (λ r. r.id === u.id) w.users ≡ true
      → Users.update env u w ≡ (
        ok tt,
        record w {
          users =
              update_where (λ r. r.id === u.id) (Users.updated_columns (user_columns u)) w.users;
        },
      )
  unfolding Users.update
  update_known u w known =
      simp
        (
          laws.user_laws.update_lem (λ r. r.id === u.id) (Users.updated_columns (user_columns u))
              w.users (λ r t. refl),
          known,
        )
        refl

  -- `save` of a user whose id is in the table throws, and writes nothing.
  pub save_known :
      (u : User) (w : World) (r : UserRow)
      → first (λ r. r.id === u.id) w.users ≡ some r
      → Users.save env u w ≡ (err database_error, w)
  unfolding Users.save user_columns
  save_known u w r found =
      let same =
        (===_iff r.id u.id).0 (first_holds (λ (r : UserRow). r.id === u.id) w.users r found) in
      let clashes : user_clash (user_columns u) r ≡ true = rw (same, ===-refl u.id) refl in
      rw
        (create_clashing laws.user_laws (user_columns u) w.users
          (first-any (λ r. r.id === u.id) (user_clash (user_columns u)) w.users r found clashes))
        refl

  -- `save` of a session whose id is in the table writes the revocation alone.
  pub save_session_known :
      (session : DeviceSession) (w : World)
      → any (λ r. r.id === session.id) w.sessions ≡ true
      → Sessions.save env session w ≡ (
        ok tt,
        record w {
          sessions =
              update_where
                (λ r. r.id === session.id)
                (λ r. record r { is_revoked = session.is_revoked })
                w.sessions;
        },
      )
  unfolding Sessions.save
  save_session_known session w known =
      simp
        (
          laws.device_session_laws.upsert_lem (λ r. r.id === session.id)
              (λ r. record r { is_revoked = session.is_revoked }) (session_columns session)
              w.sessions (λ r t. refl),
          known,
        )
        refl
