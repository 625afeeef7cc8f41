-- ===== src/Lifecycle/Rotations.antt =====
-- RefreshTokenService and the life of the sessions.
use bankos.Prelude.{
  sym, ℕ, ◌+◌, String, ◌≡◌, refl, subst, inl, inr, true, Option, none, some, List, first, ◌===◌,
  ===-refl, Bool-cases, arith, domain_error, ok, err, Result, Thrown,
}
use bankos.Crypto.Tokens.{
  generate_access_token, generate_refresh_token, verify_refresh_token, verify, verify_kid,
  verify_with,
}
use bankos.Crypto.Keys.{KeyPair, get_key}
use bankos.Database.{IsPrisma}
use bankos.Database.Mapper.{to_domain_device_session}
use bankos.Database.Rows.{SessionRow}
use bankos.Domain.Session.{DeviceSession, new_session, rotate, is_expired}
use bankos.Domain.User.{User}
use bankos.Engine.Authorization.{resolve_roles, resolve_permissions}
use bankos.Lifecycle.Lawful.{
  IsFresh, IsLawful, Opens, Revokes, bind_quiet-IsLawful, then_quiet-Opens, bind-Opens,
  bind-Revokes, taken,
}
use bankos.Lifecycle.Lawful.Saved.{draw-IsLawful, save-Opens, revoke_then-Revokes}
use bankos.Lifecycle.Parts.{
  find_roles-IsQuiet, resolve_roles-IsQuiet, resolve_permissions-IsQuiet, access-IsQuiet,
  refresh-IsQuiet, find_by_id-IsQuiet, or_throw-IsQuiet,
}
use bankos.Lifecycle.Spec.{Evolves, unchanged}
use bankos.Lifecycle.Quiet.{
  IsQuiet, bind-IsQuiet, pure-IsQuiet, dispatch_from-IsQuiet, throw_if-IsQuiet,
}
use bankos.Repository.Laws.{first-any, domain_session_id}
use bankos.Repository.Sessions as Sessions
use bankos.Repository.Users as Users
use bankos.Runtime.Action.{Action, pure, throw_if, now, hash_string, ◌>>=◌, ◌>>◌}
use bankos.Runtime.Packages.{Claims}
use bankos.Runtime.World.{World}
use bankos.Service.Refresh.{
  rethrow, or_else, is_claimed, store_rotated, sign_rotated, rotate_session, refresh_for, find_user,
  refresh_live, refresh_session, refresh,
}
use bankos.Service.Refresh.Refusal.{answer, find_session_lem, refresh_session-answer}
use bankos.Service.Setup.{Setup, TokenPair, dispatch_from}

rethrow-world : {A : Type 0} (e : Thrown) (r : Result A × World) → (rethrow e r).1 ≡ r.1
unfolding rethrow
rethrow-world e (ok a, w) = refl
rethrow-world e (err x, w) = refl

pub or_else-IsQuiet : {A : Type 0} (m : Action A) (e : Thrown) → IsQuiet m → IsQuiet (or_else m e)
unfolding or_else
or_else-IsQuiet m e quiet w = rw (rethrow-world e (m w)) (quiet w)

module _ (s : Setup) where
  verify_with-IsQuiet :
      (token kid : String) (pair : Option KeyPair)
      → IsQuiet (verify_with s.env s.config s.keys token kid pair)
  unfolding verify_with
  verify_with-IsQuiet token kid none w = (refl, omega arith)
  verify_with-IsQuiet token kid (some pair) w =
      rw (or_throw-IsQuiet _ w (record w { ticks = w.ticks + 1 }) _) (refl, omega arith)

  verify_kid-IsQuiet :
      (token : String) (header : Option (Option String))
      → IsQuiet (verify_kid s.env s.config s.keys token header)
  unfolding verify_kid
  verify_kid-IsQuiet token none w = (refl, omega arith)
  verify_kid-IsQuiet token (some none) w = (refl, omega arith)
  verify_kid-IsQuiet token (some (some kid)) w = elim (Bool-cases (kid === "")) [
    | inl empty ↦ rw empty (refl, omega arith)
    | inr named ↦ rw named (verify_with-IsQuiet token kid (get_key s.keys kid) w)
  ]

  pub verify-IsQuiet : (token : String) → IsQuiet (verify_refresh_token s.env s.config s.keys token)
  unfolding verify_refresh_token verify
  verify-IsQuiet token w = verify_kid-IsQuiet token _ w

  module _ (token ip_address user_agent : String) where
    find_user-IsQuiet :
        (sub : Option String) → IsQuiet (find_user s token ip_address user_agent sub)
    unfolding find_user
    find_user-IsQuiet none w = (refl, omega arith)
    find_user-IsQuiet (some id) w = find_by_id-IsQuiet s id w

    module _ (laws : IsPrisma s.env.prisma)
        (distinct : (m n : ℕ) → (s.env.random_uuid m === s.env.random_uuid n) ≡ true → m ≡ n) where
      abbrev next : DeviceSession → String → String → ℕ → ℕ → DeviceSession
      next session id new_token expires t =
          rotate id (hash_string s.env new_token) ip_address user_agent expires t session

      save-next-Opens :
          (session : DeviceSession) (id new_token : String) (expires t : ℕ)
          → Opens s.env id (Sessions.save s.env (next session id new_token expires t))
      unfolding rotate new_session
      save-next-Opens session id new_token expires t =
          save-Opens s.env laws distinct (next session id new_token expires t)

      store_rotated-Opens :
          (session : DeviceSession) (id access new_token : String) (expires t : ℕ)
          → Opens s.env id
              (store_rotated s token ip_address user_agent session id access new_token expires t)
      unfolding store_rotated
      store_rotated-Opens session id access new_token expires t w reserved =
          let events = (next session id new_token expires t).domain_events in
          let pair : TokenPair = record { access_token = access; refresh_token = new_token } in
          then_quiet-Opens s.env id (Sessions.save s.env (next session id new_token expires t))
            (λ _. dispatch_from s.env ip_address user_agent events >> pure pair)
            (save-next-Opens session id new_token expires t)
            (λ _.
              bind-IsQuiet (dispatch_from s.env ip_address user_agent events) (λ _. pure pair)
                (dispatch_from-IsQuiet s.env ip_address user_agent events) (λ _. pure-IsQuiet pair))
            w reserved

      sign_rotated-Opens :
          (session : DeviceSession) (user : User) (t : ℕ) (roles permissions : List String)
          (id : String)
          → Opens s.env id
              (sign_rotated s token ip_address user_agent session user t roles permissions id)
      unfolding sign_rotated
      sign_rotated-Opens session user t roles permissions id w reserved =
          bind-Opens s.env id (generate_access_token s.env s.config s.keys _ user.id) _
            (access-IsQuiet s _ user.id)
            (λ access.
              bind-Opens s.env id (generate_refresh_token s.env s.config s.keys _ user.id) _
                (refresh-IsQuiet s _ user.id)
                (λ new_token. store_rotated-Opens session id access new_token _ t))
            w reserved

      rotate_session-IsLawful :
          (session : DeviceSession) (user : User) (t : ℕ)
          → IsLawful s.env (rotate_session s token ip_address user_agent session user t)
      unfolding rotate_session
      rotate_session-IsLawful session user t w fresh =
          bind_quiet-IsLawful s.env (Users.find_roles s.env user.id) _
            (find_roles-IsQuiet s user.id)
            (λ direct.
              bind_quiet-IsLawful s.env (resolve_roles s.env direct) _
                (resolve_roles-IsQuiet s direct)
                (λ roles.
                  bind_quiet-IsLawful s.env (resolve_permissions s.env direct) _
                    (resolve_permissions-IsQuiet s direct)
                    (λ permissions.
                      draw-IsLawful s.env laws distinct
                        (sign_rotated s token ip_address user_agent session user t roles
                          permissions)
                        (λ n.
                          sign_rotated-Opens session user t roles permissions
                            (s.env.random_uuid n)))))
            w fresh

      refresh_for-Revokes :
          (session : DeviceSession) (t : ℕ) (found : Option User)
          → Revokes s.env session.id (refresh_for s token ip_address user_agent session t found)
      unfolding refresh_for
      refresh_for-Revokes session t none w fresh known = (fresh, unchanged)
      refresh_for-Revokes session t (some user) w fresh known = elim (Bool-cases user.is_locked) [
        | inl locked ↦ simp locked (fresh, unchanged)
        | inr free ↦
            let rotated =
              revoke_then-Revokes s.env laws distinct "revoked" session
                (λ a. rotate_session s token ip_address user_agent a user t)
                (λ a. rotate_session-IsLawful a user t) w fresh known in
            simp free rotated
      ]

      live-Revokes :
          (claims : Claims) (session : DeviceSession)
          → Revokes s.env session.id (do
            t ← now s.env
            throw_if (is_expired t session) (domain_error "Session expired")
            user ← find_user s token ip_address user_agent claims.sub
            refresh_for s token ip_address user_agent session t user)
      live-Revokes claims session w fresh known =
          let t = s.env.time w.ticks in
          bind-Revokes s.env session.id
            (throw_if (is_expired t session) (domain_error "Session expired"))
            (λ _.
              find_user s token ip_address user_agent claims.sub
              >>= refresh_for s token ip_address user_agent session t)
            (throw_if-IsQuiet _ _)
            (λ _.
              bind-Revokes s.env session.id (find_user s token ip_address user_agent claims.sub)
                (refresh_for s token ip_address user_agent session t) (find_user-IsQuiet claims.sub)
                (refresh_for-Revokes session t))
            (record w { ticks = w.ticks + 1 }) fresh known

      refresh_live-Revokes :
          (claims : Claims) (session : DeviceSession)
          → Revokes s.env session.id (refresh_live s token ip_address user_agent claims session)
      unfolding refresh_live
      refresh_live-Revokes claims session w fresh known = elim (Bool-cases session.is_revoked) [
        | inl gone ↦ simp gone (fresh, unchanged)
        | inr live ↦ elim (Bool-cases (is_claimed claims.session_id session.id)) [
          | inl claimed ↦
              let lawful = live-Revokes claims session w fresh known in simp (live, claimed) lawful
          | inr other ↦ simp (live, other) (fresh, unchanged)
        ]
      ]

      answer-IsLawful :
          (claims : Claims) (w : World) (found : Option SessionRow)
          → IsFresh s.env w
          → first (λ r. r.refresh_token === hash_string s.env token) w.sessions ≡ found
          → let result = answer s laws token ip_address user_agent claims w found in
            IsFresh s.env result.1 × Evolves w.sessions result.1.sessions
      answer-IsLawful claims w none fresh known = (fresh, unchanged)
      answer-IsLawful claims w (some r) fresh known =
          let there' : taken r.id w.sessions ≡ true =
            first-any (λ (x : SessionRow). x.refresh_token === hash_string s.env token)
              (λ x. x.id === r.id) w.sessions r known (===-refl r.id) in
          refresh_live-Revokes claims (to_domain_device_session r) w fresh
            (subst (λ i. taken i w.sessions ≡ true) (sym (domain_session_id r)) there')

      found-IsLawful :
          (claims : Claims)
          → IsLawful s.env (do
            session ← Sessions.find_by_refresh_token s.env (hash_string s.env token)
            refresh_session s token ip_address user_agent claims session)
      found-IsLawful claims w fresh =
          let found =
            first (λ (r : SessionRow). r.refresh_token === hash_string s.env token) w.sessions in
          rw
            (
              find_session_lem s laws token ip_address user_agent w,
              refresh_session-answer s laws token ip_address user_agent claims w found refl,
            )
            (answer-IsLawful claims w found fresh refl)

      pub refresh-IsLawful : IsLawful s.env (refresh s token ip_address user_agent)
      unfolding refresh
      refresh-IsLawful w fresh =
          let e = domain_error "Invalid refresh token" in
          bind_quiet-IsLawful s.env (or_else (verify_refresh_token s.env s.config s.keys token) e)
            (λ claims.
              Sessions.find_by_refresh_token s.env (hash_string s.env token)
              >>= refresh_session s token ip_address user_agent claims)
            (or_else-IsQuiet (verify_refresh_token s.env s.config s.keys token) e
              (verify-IsQuiet token))
            found-IsLawful w fresh
