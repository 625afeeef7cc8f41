-- ===== src/Service/Refresh/Rotation.antt =====
-- What the rotation of a session leaves of the sessions that are there.
use bankos.Prelude.{
  ℕ, ◌+◌, String, ◌≡◌, refl, sym, subst, ap, ◌∙◌, Bool, true, false, none, some, List, [], ◌∷◌,
  ◌++◌, any, first, ◌===◌, if◌then◌else◌,
}
use bankos.Crypto.Tokens.{sign, generate_access_token, generate_refresh_token}
use bankos.Database.{IsPrisma}
use bankos.Database.Mapper.{session_columns}
use bankos.Database.Rows.{SessionRow}
use bankos.Domain.Event.{Event}
use bankos.Domain.Session.{DeviceSession, new_session, rotate}
use bankos.Domain.User.{User}
use bankos.Engine.Authorization.{resolve_roles, resolve_permissions}
use bankos.Events.Untouched.{dispatch-Keeps}
use bankos.Repository.Laws.{first-append}
use bankos.Repository.Roles as Roles
use bankos.Repository.Sessions as Sessions
use bankos.Repository.Users as Users
use bankos.Runtime.Action.{hash_string, stored, database_error}
use bankos.Runtime.Keeps.{Keeps, continue-Keeps, bind-Keeps, bind-leads, or_throw-Keeps}
use bankos.Runtime.Packages.{Payload}
use bankos.Runtime.World.{World}
use bankos.Service.Refresh.{rotate_session, sign_rotated, store_rotated}
use bankos.Service.Setup.{Setup, dispatch_from}

module _ (s : Setup) (laws : IsPrisma s.env.prisma) where
  find_roles-Keeps : (id : String) → Keeps (λ w. w.sessions) (Users.find_roles s.env id)
  unfolding Users.find_roles
  find_roles-Keeps id w = refl

  resolve_roles-Keeps : (names : List String) → Keeps (λ w. w.sessions) (resolve_roles s.env names)
  unfolding resolve_roles Roles.find_all
  resolve_roles-Keeps names w = refl

  resolve_permissions-Keeps :
      (names : List String) → Keeps (λ w. w.sessions) (resolve_permissions s.env names)
  unfolding resolve_permissions Roles.find_all
  resolve_permissions-Keeps names w = refl

  sign-Keeps :
      (payload : Payload) (subject expires_in : String)
      → Keeps (λ w. w.sessions) (sign s.env s.config s.keys payload subject expires_in)
  unfolding sign
  sign-Keeps payload subject expires_in w =
      or_throw-Keeps (λ w. w.sessions) _ _ (record w { draws = w.draws + 1; ticks = w.ticks + 1 })

  access-Keeps :
      (payload : Payload) (subject : String)
      → Keeps (λ w. w.sessions) (generate_access_token s.env s.config s.keys payload subject)
  unfolding generate_access_token
  access-Keeps payload subject w = sign-Keeps payload subject _ w

  refresh-Keeps :
      (payload : Payload) (subject : String)
      → Keeps (λ w. w.sessions) (generate_refresh_token s.env s.config s.keys payload subject)
  unfolding generate_refresh_token
  refresh-Keeps payload subject w = sign-Keeps payload subject _ w

  module _ (hash : String) (r : SessionRow) where
    -- The session that a hash names in a table is the row `r`.
    abbrev pub Names : List SessionRow → Type 0
    Names t = first (λ x. x.refresh_token === hash) t ≡ some r

    stored-Names :
        (accepted : Bool) (row : SessionRow) (w : World)
        → Names w.sessions
        → Names
            (stored
              (if accepted then some (w.sessions ++ row ∷ []) else none)
              (λ t. record w { sessions = t })
              database_error
              w).1.sessions
    stored-Names true row w named =
        first-append (λ x. x.refresh_token === hash) w.sessions r row named
    stored-Names false row w named = named

    save-Names :
        (session : DeviceSession) (w : World)
        → any (λ x. x.id === session.id) w.sessions ≡ false
        → Names w.sessions
        → Names (Sessions.save s.env session w).1.sessions
    unfolding Sessions.save
    save-Names session w fresh named =
        simp
          (
            laws.device_session_laws.upsert_lem (λ r. r.id === session.id)
                (λ r. record r { is_revoked = session.is_revoked }) (session_columns session)
                w.sessions (λ r t. refl),
            fresh,
            laws.device_session_laws.create_lem,
          )
          (stored-Names _ (session_columns session) w named)

    module _ (refresh_token ip_address user_agent : String) where
      dispatch_from-Keeps :
          (events : List Event)
          → Keeps (λ w. w.sessions) (dispatch_from s.env ip_address user_agent events)
      unfolding dispatch_from
      dispatch_from-Keeps events w =
          dispatch-Keeps s.env (λ w. w.sessions) (λ w log draws ticks. refl) _ w

      rotated-id :
          (id new_hash : String) (expires t : ℕ) (session : DeviceSession)
          → (rotate id new_hash ip_address user_agent expires t session).id ≡ id
      unfolding rotate new_session
      rotated-id id new_hash expires t session = refl

      store_rotated-Names :
          (session : DeviceSession) (id access new_token : String) (expires t : ℕ) (w : World)
          → any (λ x. x.id === id) w.sessions ≡ false
          → Names w.sessions
          → Names
              (store_rotated s refresh_token ip_address user_agent session id access new_token
                expires t w).1.sessions
      unfolding store_rotated
      store_rotated-Names session id access new_token expires t w fresh named =
          let next =
            rotate id (hash_string s.env new_token) ip_address user_agent expires t session in
          let fresh' : any (λ x. x.id === next.id) w.sessions ≡ false =
            ap (λ i. any (λ (x : SessionRow). x.id === i) w.sessions)
              (rotated-id id _ expires t session)
            ∙ fresh in
          subst Names
            (sym (
              continue-Keeps (λ w. w.sessions) (Sessions.save s.env next w).0 _
                (λ _.
                  bind-Keeps (λ w. w.sessions)
                    (dispatch_from s.env ip_address user_agent next.domain_events) _
                    (dispatch_from-Keeps next.domain_events) (λ _ w. refl))
                (Sessions.save s.env next w).1))
            (save-Names next w fresh' named)

      -- No session has an id that the generator is going to draw.
      abbrev pub IsFresh : List SessionRow → Type 0
      IsFresh t = (n : ℕ) → any (λ x. x.id === s.env.random_uuid n) t ≡ false

      pub rotate_session-Names :
          (session : DeviceSession) (user : User) (t0 : ℕ) (t : List SessionRow)
          → IsFresh t
          → Names t
          → (w : World) → w.sessions ≡ t
          → Names
              (rotate_session s refresh_token ip_address user_agent session user t0 w).1.sessions
      unfolding rotate_session sign_rotated
      rotate_session-Names session user t0 t fresh named =
          bind-leads (λ w. w.sessions) t Names (Users.find_roles s.env user.id) _
            (find_roles-Keeps user.id)
            (λ direct.
              bind-leads (λ w. w.sessions) t Names (resolve_roles s.env direct) _
                (resolve_roles-Keeps direct)
                (λ roles.
                  bind-leads (λ w. w.sessions) t Names (resolve_permissions s.env direct) _
                    (resolve_permissions-Keeps direct)
                    (λ permissions w same.
                      bind-leads (λ w. w.sessions) t Names
                        (generate_access_token s.env s.config s.keys _ user.id) _
                        (access-Keeps _ user.id)
                        (λ access.
                          bind-leads (λ w. w.sessions) t Names
                            (generate_refresh_token s.env s.config s.keys _ user.id) _
                            (refresh-Keeps _ user.id)
                            (λ new_token w' same'.
                              store_rotated-Names session _ access new_token _ t0 w'
                                (subst
                                  (λ t. any (λ x. x.id === s.env.random_uuid w.draws) t ≡ false)
                                  (sym same') (fresh w.draws))
                                (subst Names (sym same') named))
                            named)
                        named (record w { draws = w.draws + 1 }) same)
                    named)
                named)
            named
