-- ===== src/Repository/Stored.antt =====
-- Rows that are created, and the columns that the mapper stores and loads.
use bankos.Prelude.{
  ◌≡◌, refl, ◌∙◌, sym, Bool, true, false, Option, none, some, List, [], ◌∷◌, ◌++◌, any, first,
  arith, ◌===◌, ===_iff, ===-refl, ok, Bool-cases, inl, inr, if◌then◌else◌,
}
use bankos.Database.Rows.{UserRow, SessionRow, user_clash, session_clash}
use bankos.Database.Delegate.{Model, IsModel}
use bankos.Database.Mapper.{to_domain_user, user_columns, to_domain_device_session, session_columns}
use bankos.Domain.Session as SessionEntity
use bankos.Domain.Session.{DeviceSession}
use bankos.Domain.User.{User, clear_events}
use bankos.Repository.Users as Users
use bankos.Runtime.World.{World}
use bankos.Runtime.Action.{stored, database_error}

module _ {Row : Type 0} where
  -- What finds a row only where that clashes finds none where nothing clashes.
  pub first-unclashed :
      (p q : Row → Bool) (t : List Row)
      → ((r : Row) → p r ≡ true → q r ≡ true)
      → any q t ≡ false
      → first p t ≡ none
  first-unclashed p q [] clashes free = refl
  first-unclashed p q (x ∷ t) clashes free = elim (Bool-cases (p x)) [
    | inl holds ↦ let clash = clashes x holds in ground arith
    | inr fails ↦ let ih = first-unclashed p q t clashes (ground arith) in ground arith
  ]

  -- A row that was created clashed with none and stands at the end of the table.
  pub created :
      {clash : Row → Row → Bool} {m : Model Row} (laws : IsModel clash m) (row : Row)
      (t t' : List Row)
      → m.create row t ≡ some t'
      → (any (clash row) t ≡ false) × (t ++ row ∷ [] ≡ t')
  created {clash} laws row t t' e =
      let accepted : (if laws.accepts row t then some (t ++ row ∷ []) else none) ≡ some t' =
        sym (laws.create_lem row t) ∙ e in
      elim (Bool-cases (laws.accepts row t)) [
        | inl fits ↦ elim (Bool-cases (any (clash row) t)) [
          | inl clashes ↦ let refused = laws.accepts_unique row t clashes in cc (fits, refused)
          | inr free ↦ (free, ground arith)
        ]
        | inr refused ↦ ground arith
      ]

  pub stored_ok :
      (o : Option (List Row)) (put : List Row → World) (w w' : World)
      → stored o put database_error w ≡ (ok tt, w')
      → (t : List Row) × (o ≡ some t) × (put t ≡ w')
  stored_ok none put w w' e = cc
  stored_ok (some t) put w w' e = (t, refl, cc)

pub stored_user : (u : User) → to_domain_user (user_columns u) ≡ clear_events u
unfolding to_domain_user user_columns clear_events
stored_user u = refl

pub stored_session :
    (s : DeviceSession)
    → to_domain_device_session (session_columns s) ≡ SessionEntity.clear_events s
unfolding to_domain_device_session session_columns SessionEntity.clear_events
stored_session s = refl

pub id-clashes :
    (u : User) (r : UserRow) → (r.id === u.id) ≡ true → user_clash (user_columns u) r ≡ true
unfolding user_columns
id-clashes u r same = let is = (===_iff r.id u.id).0 same in rw (is, ===-refl u.id) refl

pub email-clashes :
    (u : User) (r : UserRow) → (r.email === u.email) ≡ true → user_clash (user_columns u) r ≡ true
unfolding user_columns
email-clashes u r same =
    let is = (===_iff r.email u.email).0 same in let own = ===-refl u.email in rw is (ground arith)

pub token-clashes :
    (s : DeviceSession) (r : SessionRow)
    → (r.refresh_token === s.refresh_token) ≡ true
    → session_clash (session_columns s) r ≡ true
unfolding session_columns
token-clashes s r same =
    let is = (===_iff r.refresh_token s.refresh_token).0 same in
    let own = ===-refl s.refresh_token in rw is (ground arith)

pub prisma_id : (u : User) → (user_columns u).id ≡ u.id
unfolding user_columns
prisma_id u = refl

pub prisma_email : (u : User) → (user_columns u).email ≡ u.email
unfolding user_columns
prisma_email u = refl

pub updated_user :
    (u : User) (r : UserRow)
    → r.id ≡ u.id
    → r.email ≡ u.email
    → to_domain_user (Users.updated_columns (user_columns u) r) ≡ clear_events u
unfolding to_domain_user user_columns clear_events
updated_user u r id email = rw (id, email) refl

pub prisma_token : (s : DeviceSession) → (session_columns s).refresh_token ≡ s.refresh_token
unfolding session_columns
prisma_token s = refl
